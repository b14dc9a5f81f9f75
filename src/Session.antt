-- ===== src/Session.antt =====
-- CPPAFKThreadpoolSession.cpp, and the class in CPPAFKThreadpool.hpp: what every session keeps. A
-- handler that is called is an address, 0 where it is empty; so is a unit of `routines`.
-- CPPAFKCondition.hpp is not in the repository: `C` is the type of its conditions.
mod Slots
unfoldable pub use Slots.*
pub mod Handlers
use asyncflow_cpp.Common.{
  ℕ, ◌==◌, ◌+◌, Bool, true, false, List, [], ◌∷◌, if◌then◌else◌, ltb, slt, length, Ptr, null,
  ptr_item, Option, none, some, ◌&&◌, sle, Outcome, done, terminated,
}
use asyncflow_cpp.ControlBlock
use asyncflow_cpp.ControlBlock.{ControlBlock, Garbage}
use asyncflow_cpp.ThreadpoolQueue
use asyncflow_cpp.ThreadpoolQueue.{TpQueue, is_nil}
use asyncflow_cpp.Hybrid.{Hybrid, CallMode, no_block}

pub data RunPriority : Type 0 where
  method_only lambda_only lambda_then_method method_then_lambda : RunPriority

-- sASFKPrioritizedQueueItem
pub record Prioritized : Type 0 where
  pub priority : ℕ
  pub queue_id : ℕ

-- CPPAFKComparePriorities
unfoldable pub precedes : Prioritized → Prioritized → Bool
precedes pq1 pq2 = sle pq1.priority pq2.priority

pub record Session (C : Type 0) : Type 0 where
  pub pq : List Prioritized
  pub busy_count : ℕ
  pub cancel_hnds : Hot Ptr
  pub routines_hnds : Hot (List Ptr)
  pub sum_hnds : Hot Ptr
  pub queue_zero : TpQueue
  pub data_queues : List Hybrid
  pub internal_cancellation : Ptr
  pub expiration_summary : Ptr
  pub excond : Option C
  pub cblk : ControlBlock
  pub paused : Bool
  pub is_stopped : Bool
  pub cancelled : Bool
  pub runprio_ml : RunPriority
  pub autodelete : Bool
  pub call_mode : CallMode

module _ {C : Type 0} where
  -- `cblk` and `occupant` are what `new` makes of the two control blocks' and the queue's memory;
  -- the mode is set by the class below.
  unfoldable pub new : Bool → CallMode → ControlBlock → ℕ → Session C
  unfolding new_hot ThreadpoolQueue.new
  new autodel mode cblk garbage = record {
    pq = [];
    busy_count = 0;
    cancel_hnds = new_hot null;
    routines_hnds = new_hot [];
    sum_hnds = new_hot null;
    queue_zero = ThreadpoolQueue.new garbage;
    data_queues = [];
    internal_cancellation = null;
    expiration_summary = null;
    excond = none;
    cblk = cblk;
    paused = false;
    is_stopped = false;
    cancelled = false;
    runprio_ml = lambda_only;
    autodelete = autodel;
    call_mode = mode;
  }

  unfoldable pub reset_priority_queue : Session C → Session C
  reset_priority_queue s = record s { pq = [] }

  unfoldable pub cancellation_requested : Session C → Bool
  cancellation_requested s = ControlBlock.cancellation_requested s.cblk

  -- The method of this class; CPPAFKComposingSession has its own.
  unfoldable pub flush_base : Session C → Session C
  flush_base s =
      let f = record s { cblk = ControlBlock.set_flush_requested true s.cblk } in
      if ltb 0 (length (s.queue_zero.its_q)) && ltb 0 (length s.data_queues)
      then record f { queue_zero = ThreadpoolQueue.reset s.queue_zero }
      else f

  unfoldable pub pause : Session C → Session C
  unfolding ControlBlock.set_paused
  pause s = record s { cblk = ControlBlock.set_paused true s.cblk; paused = true }

  unfoldable pub resume : Session C → Session C
  unfolding ControlBlock.set_paused
  resume s = record s { cblk = ControlBlock.set_paused false s.cblk; paused = false }

  abbrev pub is_paused : Session C → Bool
  is_paused s = s.paused

  unfoldable pub is_busy : Session C → Bool
  is_busy s = slt 0 s.busy_count

  -- `queueFromQueue` takes nothing over, so that its argument's size is what is pushed; `reset`
  -- then drops the items.
  unfoldable pub adopt_data_from_zero_queue : Session C → Session C
  unfolding ThreadpoolQueue.reset
  adopt_data_from_zero_queue s =
      if ltb 0 (length (s.queue_zero.its_q)) && ltb 0 (length s.data_queues)
      then record s {
        pq = record { priority = length (s.queue_zero.its_q); queue_id = 0 } ∷ s.pq;
        queue_zero = ThreadpoolQueue.reset s.queue_zero;
      }
      else s

  -- Each yields the index at which to read.
  unfoldable pub switch_routines_handlers : Session C → Session C × Bool × ℕ
  unfolding switch
  switch_routines_handlers s =
      let (h, res, ind_r) = switch s.routines_hnds in (record s { routines_hnds = h }, res, ind_r)

  unfoldable pub switch_summary_handlers : Session C → Session C × Bool × ℕ
  unfolding switch
  switch_summary_handlers s =
      let (h, res, ind_r) = switch s.sum_hnds in (record s { sum_hnds = h }, res, ind_r)

  unfoldable pub switch_cancellation_handlers : Session C → Session C × Bool × ℕ
  unfolding switch
  switch_cancellation_handlers s =
      let (h, res, ind_r) = switch s.cancel_hnds in (record s { cancel_hnds = h }, res, ind_r)

  -- An empty vector is stored too, and answered with false.
  unfoldable pub set_routines_base : List Ptr → Session C → Session C × Bool
  unfolding store
  set_routines_base ps s =
      (record s { routines_hnds = store ps s.routines_hnds }, if is_nil ps then false else true)

  unfoldable pub set_cancellation_handler : Ptr → Session C → Session C × Bool
  unfolding store
  set_cancellation_handler cru s =
      if ptr_item.truthy cru
      then (record s { cancel_hnds = store cru s.cancel_hnds }, true)
      else (s, false)

  unfoldable pub set_internal_cancellation_handler : Ptr → Session C → Session C
  set_internal_cancellation_handler cru s =
      if ptr_item.truthy cru then record s { internal_cancellation = cru } else s

  unfoldable pub set_expiration_condition : Option C → Session C → Session C
  set_expiration_condition none s = s
  set_expiration_condition (some trop) s = record s { excond = some trop }

  unfoldable pub set_summary : Ptr → Session C → Session C × Bool
  unfolding store
  set_summary sum s =
      if ptr_item.truthy sum
      then (record s { sum_hnds = store sum s.sum_hnds }, true)
      else (s, false)

  unfoldable pub set_progress_routine : Ptr → Session C → Session C × Bool
  unfolding ControlBlock.set_progress_routine
  set_progress_routine progress s =
      if ptr_item.truthy progress
      then (record s { cblk = (ControlBlock.set_progress_routine progress s.cblk).0 }, true)
      else (s, false)

  unfoldable pub set_expiration_summary : Ptr → Session C → Session C × Bool
  set_expiration_summary sum s =
      if ptr_item.truthy sum then (record s { expiration_summary = sum }, true) else (s, false)

  abbrev pub is_cancelled : Session C → Bool
  is_cancelled s = s.cancelled

  unfoldable pub cancellation_requested_by_callback : Session C → Bool
  cancellation_requested_by_callback s = ControlBlock.cancellation_requested_by_callback s.cblk

  unfoldable pub cancellation_requested_by_starter : Session C → Bool
  cancellation_requested_by_starter s = ControlBlock.cancellation_requested_by_starter s.cblk

  -- The method of this class; CPPAFKComposingSession has its own.
  pub data_items_count_base : Session C → ℕ
  data_items_count_base s = 0

  -- The method of this class; CPPAFKComposingSession's answers with true.
  pub set_routines : List Ptr → Session C → Session C × Bool
  unfolding set_routines_base
  set_routines ps s = set_routines_base ps s

  pub set_run_priority_ml : RunPriority → Session C → Session C
  set_run_priority_ml rp s = record s { runprio_ml = rp }

  -- The method of this class: it marks the session once, and says whether it called the handler.
  pub invoke_cancellation_handler_base : Ptr → Session C → Outcome (Session C × Bool)
  invoke_cancellation_handler_base cru s =
      if s.cancelled
      then done (s, false)
      else if ptr_item.truthy cru
      then done (record s { cancelled = true }, true)
      else terminated

  -- The destructor calls this class's `flush`; it deletes no data queue.
  unfoldable pub destroy : Session C → Session C
  unfolding flush_base
  destroy s = flush_base s
