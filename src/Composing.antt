-- ===== src/Composing.antt =====
-- CPPAFKComposingSession.cpp and CPPAFKComposition.hpp: the session that feeds each item through its
-- routines. Here all of it but `select`.
pub mod Queues
pub mod Turn
pub mod Select
pub mod Pipeline
pub mod Draining
pub mod Flushing
pub mod Summaries
pub mod Serving
pub mod Turns
pub mod Cancelling
pub mod Starting
pub mod Posting
pub mod Early
pub mod Interrupting
pub mod Midway
pub mod Expiring
use asyncflow_cpp.Common.{
  ℕ, zero, suc, ◌+◌, Bool, true, false, List, [], ◌∷◌, ◌++◌, if◌then◌else◌, ltb, slt, length, add64,
  sub64, Ptr, Option, none, some, Outcome, done, stuck, ◌>>=◌, ◌||◌,
}
use asyncflow_cpp.ControlBlock
use asyncflow_cpp.ControlBlock.{ControlBlock}
use asyncflow_cpp.Batching.{Wrap}
use asyncflow_cpp.Batching.Wf.{batches}
use asyncflow_cpp.ThreadpoolQueue
use asyncflow_cpp.ThreadpoolQueue.{TpQueue}
use asyncflow_cpp.Hybrid
use asyncflow_cpp.Hybrid.{Hybrid, Spec, CallMode}
use asyncflow_cpp.Session
use asyncflow_cpp.Session.{Session, slot}

-- What `new` finds in the memory of a data queue, in the members that it does not set.
pub record QueueGarbage : Type 0 where
  pub occupant : ℕ
  pub last_item : Spec

-- Calls `pull` until it fails; what it handed out, oldest first. Out of fuel is not coming back.
pub drain {ℓ} : {Q : Type ℓ} → (Q → Outcome (Q × Ptr × Bool)) → ℕ → Q → Outcome (Q × List Ptr)
drain pull zero q = stuck
drain pull (suc fuel) q = do
  (q', x, success) ← pull q
  let rest = drain pull fuel q'
  if success then (do t ← rest; done (t.0, x ∷ t.1)) else done (q', [])

-- Calls `getResidual` until it is null.
pub residuals : ℕ → Hybrid → Outcome (Hybrid × List (Wrap Ptr))
residuals zero h = stuck
residuals (suc fuel) h =
    let rest = residuals fuel (Hybrid.get_residual h).0 in
    elim (Hybrid.get_residual h).1 [
      | none ↦ done ((Hybrid.get_residual h).0, [])
      | some w ↦ do t ← rest; done (t.0, w ∷ t.1)
    ]

deferred_count : Hybrid → ℕ
deferred_count h = elim h.blk_q [ none ↦ 0 | some b ↦ length b.deferred ]

-- The items that the two queues of a data queue hold.
held_items : Hybrid → ℕ
held_items h =
    length (batches h.reg_q.its_bq)
    + (elim h.blk_q [ none ↦ 0 | some b ↦ length (batches b.its_bq) ])

-- A session behind a flush, with what went to the collector's two queues.
pub record Flushed (C : Type 0) : Type 0 where
  pub state : Session C
  pub user_data : List Ptr
  pub wrappers : List (Wrap Ptr)

-- The loops over one data queue.
pub flush_queue : Hybrid → Outcome (Hybrid × List Ptr × List (Wrap Ptr))
unfolding drain residuals deferred_count held_items Hybrid.pull Hybrid.get_residual Hybrid.unoccupy
flush_queue h = do
  (h', xs) ← drain Hybrid.pull (suc (held_items h)) h
  (h'', ws) ← residuals (suc (deferred_count h')) h'
  done (Hybrid.unoccupy h'', xs, ws)

flush_queues : List Hybrid → Outcome (List Hybrid × List Ptr × List (Wrap Ptr))
unfolding flush_queue
flush_queues [] = done ([], [], [])
flush_queues (h ∷ hs) = do
  (h', xs, ws) ← flush_queue h
  (hs', ys, vs) ← flush_queues hs
  done (h' ∷ hs', xs ++ ys, ws ++ vs)

count_queues : List Hybrid → List Hybrid × ℕ
unfolding Hybrid.size
count_queues [] = ([], 0)
count_queues (h ∷ hs) =
    let (h', n) = Hybrid.size h in let (hs', m) = count_queues hs in (h' ∷ hs', add64 n m)

-- What a call on `dataQueues[0]` leaves, where there is one.
on_first : (Hybrid → Hybrid × Bool) → List Hybrid → List Hybrid
on_first f [] = []
on_first f (h ∷ hs) = (f h).0 ∷ hs

answer_of : (Hybrid → Hybrid × Bool) → List Hybrid → Bool
answer_of f [] = false
answer_of f (h ∷ hs) = (f h).1

module _ {C : Type 0} where
  -- The old data queues go with their items.
  unfoldable pub reconfigure_dataqueues : QueueGarbage → Session C → Session C
  unfolding Hybrid.new
  reconfigure_dataqueues g s = record s {
    data_queues =
        if ltb 0 (length (slot s.routines_hnds s.routines_hnds.index_r))
        then Hybrid.new g.occupant g.last_item s.call_mode ∷ []
        else [];
  }

  unfoldable pub deploy : QueueGarbage → Session C → Session C
  unfolding reconfigure_dataqueues
  deploy g s = reconfigure_dataqueues g s

  -- `_flush`
  unfoldable pub flush_now : Session C → Outcome (Flushed C)
  unfolding drain ThreadpoolQueue.pull flush_queues ControlBlock.set_flush_requested
  flush_now s = do
    (z, xs) ← drain ThreadpoolQueue.pull (suc (length (s.queue_zero.its_q))) s.queue_zero
    (hs, ys, ws) ← flush_queues s.data_queues
    done (record {
      state = record s {
        queue_zero = z;
        data_queues = hs;
        busy_count = sub64 s.busy_count (length ys);
        cblk = ControlBlock.set_flush_requested false s.cblk;
      };
      user_data = if s.autodelete then xs ++ ys else [];
      wrappers = ws;
    })

  unfoldable pub flush : Session C → Outcome (Flushed C)
  unfolding flush_now ControlBlock.set_flush_requested
  flush s = flush_now (record s { cblk = ControlBlock.set_flush_requested true s.cblk })

  unfoldable pub cancel : Session C → Session C
  unfolding ControlBlock.cancel
  cancel s = record s { cblk = ControlBlock.cancel s.cblk }

  unfoldable pub get_data_items_count : Session C → Session C × ℕ
  unfolding count_queues
  get_data_items_count s =
      let (hs, n) = count_queues s.data_queues in
      (record s { data_queues = hs }, add64 (length (s.queue_zero.its_q)) n)

  unfoldable pub is_busy : Session C → Bool
  is_busy s = slt 0 s.busy_count

  pub get_routines_count : Session C → ℕ
  get_routines_count s = 0

  -- The constructor: that of the class above, and the mode.
  abbrev pub new : CallMode → Bool → ControlBlock → ℕ → Session C
  new blkmode autodel cblk garbage = Session.new autodel blkmode cblk garbage

  -- The destructors of both classes.
  unfoldable pub destroy : Session C → Session C
  unfolding Session.destroy
  destroy s =
      Session.destroy
        (record s { routines_hnds = record (s.routines_hnds) { primary = []; secondary = [] } })

  unfoldable pub set_routines : List Ptr → Session C → Session C × Bool
  unfolding Session.set_routines_base
  set_routines ps s = ((Session.set_routines_base ps s).0, true)

  unfoldable pub post_data : Ptr → Session C → Session C × Bool
  unfolding on_first answer_of Hybrid.cast_object ThreadpoolQueue.cast_object
      ControlBlock.set_flush_requested
  post_data item s = if s.cblk.flushed then (s, false) else elim s.data_queues [
    | [] ↦ (
      record s {
        queue_zero = (ThreadpoolQueue.cast_object item 0 s.queue_zero).0;
        cblk = ControlBlock.set_flush_requested false s.cblk;
      },
      false,
    )
    | h ∷ hs ↦ (
      record s { data_queues = on_first (Hybrid.cast_object item 0) (h ∷ hs) },
      answer_of (Hybrid.cast_object item 0) (h ∷ hs),
    )
  ]

  post_vector : List Ptr → Session C → Session C × Bool
  unfolding on_first answer_of Hybrid.cast_vector ThreadpoolQueue.cast_vector
  post_vector items s = elim s.data_queues [
    | [] ↦ (record s { queue_zero = (ThreadpoolQueue.cast_vector items 0 s.queue_zero).0 }, false)
    | h ∷ hs ↦ (
      record s { data_queues = on_first (Hybrid.cast_vector items 0) (h ∷ hs) },
      answer_of (Hybrid.cast_vector items 0) (h ∷ hs),
    )
  ]

  unfoldable pub post_data_as_vector : List Ptr → Session C → Session C × Bool
  unfolding post_vector ControlBlock.set_flush_requested
  post_data_as_vector items s = if s.cblk.flushed then (s, false) else elim items [
    | [] ↦ (record s { cblk = ControlBlock.set_flush_requested false s.cblk }, false)
    | x ∷ xs ↦ post_vector (x ∷ xs) s
  ]
