-- ===== src/ControlBlock.antt =====
-- CPPAFKControlBlock.cpp, and the class in CPPAFKBase.hpp: the flags through which a session, its
-- routines and its starter ask one another to stop, pause or flush. Identifiers are the 64-bit
-- values of CPPAFKNumId; a callable is its address, and an empty std::function the null pointer.
pub mod Requests
use asyncflow_cpp.Common.{ℕ, ◌==◌, Bool, true, false, not, ◌||◌, if◌then◌else◌, Ptr, null, ptr_item}

pub record ControlBlock : Type 0 where
  pub progress_proc : Ptr
  pub parent_id : ℕ
  pub session_prim_id : ℕ
  pub session_sec_id : ℕ
  pub is_paused : Bool
  pub flushed : Bool
  pub abort_by_callback : Bool
  pub abort_by_caller : Bool

-- What no constructor sets: the flags hold what the memory held.
pub record Garbage : Type 0 where
  pub paused : Bool
  pub flushed : Bool
  pub by_callback : Bool
  pub by_caller : Bool

unfoldable pub new : Garbage → ℕ → ℕ → ℕ → ControlBlock
new g parent prim sec = record {
  progress_proc = null;
  parent_id = parent;
  session_prim_id = prim;
  session_sec_id = sec;
  is_paused = g.paused;
  flushed = g.flushed;
  abort_by_callback = g.by_callback;
  abort_by_caller = g.by_caller;
}

unfoldable pub get_session_id : ControlBlock → ℕ
get_session_id c = c.session_prim_id

unfoldable pub cancel : ControlBlock → ControlBlock
cancel c = record c { abort_by_caller = true }

unfoldable pub set_flush_requested : Bool → ControlBlock → ControlBlock
set_flush_requested flush c = record c { flushed = flush }

abbrev pub flush_requested : ControlBlock → Bool
flush_requested c = c.flushed

abbrev pub cancellation_requested_by_starter : ControlBlock → Bool
cancellation_requested_by_starter c = c.abort_by_caller

abbrev pub cancellation_requested_by_callback : ControlBlock → Bool
cancellation_requested_by_callback c = c.abort_by_callback

unfoldable pub set_paused : Bool → ControlBlock → ControlBlock
set_paused yesno c = record c { is_paused = yesno }

unfoldable pub set_progress_routine : Ptr → ControlBlock → ControlBlock × Bool
set_progress_routine progress c =
    if ptr_item.truthy progress then (record c { progress_proc = progress }, true) else (c, false)

unfoldable pub reset : ControlBlock → ControlBlock
reset c = record c { abort_by_callback = false; abort_by_caller = false }

unfoldable pub cancellation_requested : ControlBlock → Bool
cancellation_requested c = c.abort_by_callback || c.abort_by_caller

pub get_parent_object_id : ControlBlock → ℕ
get_parent_object_id c = c.parent_id

pub get_progress_routine : ControlBlock → Ptr
get_progress_routine c = c.progress_proc

unfoldable pub stop : ControlBlock → ControlBlock
stop c = record c { abort_by_callback = true }
