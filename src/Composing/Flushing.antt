-- ===== src/Composing/Flushing.antt =====
-- CPPAFKComposingSession.cpp, `_flush`: that a flush comes back, and what it takes away.
use asyncflow_cpp.Common.{
  ℕ, suc, ◌<◌, ◌≡◌, refl, true, false, List, [], ◌∷◌, ◌++◌, arith, if◌then◌else◌, length, All,
  sign_bit, sub64, Ptr, done, ◌>>=◌,
}
use asyncflow_cpp.Batching.Wf.{items}
use asyncflow_cpp.ControlBlock
use asyncflow_cpp.ThreadpoolQueue.{TpQueue, minus_one, is_taken}
use asyncflow_cpp.ThreadpoolQueue.Occupancy.{IsPaired}
use asyncflow_cpp.Hybrid
use asyncflow_cpp.Hybrid.{Hybrid}
use asyncflow_cpp.Hybrid.Order.{IsOrdered}
use asyncflow_cpp.Session.{Session}
use asyncflow_cpp.Composing.{
  flush_queue, flush_queues, flush_now, flush, Flushed, held_items, deferred_count,
}
use asyncflow_cpp.Composing.Draining.{IsItem, drain_zero, drain_hybrid, residuals_none}

flush_queue_lem :
    {n : ℕ} (h : Hybrid)
    → n < sign_bit
    → IsOrdered n h
    → is_taken h.occupant minus_one ≡ false
    → All IsItem (items h.reg_q)
    → (h' : Hybrid) × (flush_queue h ≡ done (h', items h.reg_q, [])) × (items h'.reg_q ≡ [])
unfolding flush_queue held_items Hybrid.unoccupy
flush_queue_lem h lt v free n =
    let (a, drained, nil) =
      drain_hybrid (suc (held_items h)) h (items h.reg_q) lt v free refl n (omega arith) in
    let (b, none_left, same) = residuals_none (deferred_count a) a in
    (Hybrid.unoccupy b, rw (drained, ◌>>=◌) (rw (none_left, ◌>>=◌)), rw same nil)

-- The two queues of a session as a flush finds them: nobody occupies one, every item is a pointer,
-- and the items of the one data queue came by `castObject`.
pub record IsFlushable {C : Type 0} (n : ℕ) (s : Session C) (h : Hybrid) : Type 0 where
  pub one_queue : s.data_queues ≡ h ∷ []
  pub ordered : IsOrdered n h
  pub free : is_taken h.occupant minus_one ≡ false
  pub data_items : All IsItem (items h.reg_q)
  pub paired : IsPaired s.queue_zero
  pub zero_free : is_taken s.queue_zero.occupant minus_one ≡ false
  pub zero_items : All IsItem s.queue_zero.its_q

-- What a flush does not touch: the mark for the collector, and the handlers of an expiration.
pub record LeavesAlone {C : Type 0} (s r : Session C) : Type 0 where
  pub same_mark : r.cancelled ≡ s.cancelled
  pub same_summary : r.expiration_summary ≡ s.expiration_summary
  pub same_handler : r.internal_cancellation ≡ s.internal_cancellation

-- What flush_lem states, and what a flush leaves alone.
pub flush_full :
    {C : Type 0} {n : ℕ} (s : Session C) (h : Hybrid)
    → n < sign_bit
    → IsFlushable n s h
    → (f : Flushed C) × (h' : Hybrid) × (flush s ≡ done f)
      × (f.user_data ≡ (if s.autodelete then s.queue_zero.its_q ++ (items h.reg_q ++ []) else []))
      × (f.wrappers ≡ [])
      × (f.state.queue_zero.its_q ≡ [])
      × (f.state.data_queues ≡ h' ∷ [])
      × (items h'.reg_q ≡ [])
      × (f.state.cblk ≡ ControlBlock.set_flush_requested false s.cblk)
      × LeavesAlone s f.state
unfolding flush flush_now flush_queues ControlBlock.set_flush_requested
flush_full {C} s h lt v =
    let (z, drained, nil) =
      drain_zero (suc (length (s.queue_zero.its_q))) s.queue_zero (s.queue_zero.its_q) v.zero_free
        v.paired refl v.zero_items (omega arith) in
    let (h', flushed, empty) = flush_queue_lem h lt v.ordered v.free v.data_items in
    (
      left z h',
      h',
      rw (drained, ◌>>=◌) (rw (v.one_queue, flush_queues) (rw (flushed, ◌>>=◌))),
      refl,
      refl,
      nil,
      refl,
      empty,
      refl,
      record { same_mark = refl; same_summary = refl; same_handler = refl },
    )
  where
    taken : List Ptr
    taken = items h.reg_q ++ []

    left : TpQueue → Hybrid → Flushed C
    left z h' = record {
      state = record s {
        queue_zero = z;
        data_queues = h' ∷ [];
        busy_count = sub64 s.busy_count (length taken);
        cblk =
            ControlBlock.set_flush_requested false (ControlBlock.set_flush_requested true s.cblk);
      };
      user_data = if s.autodelete then s.queue_zero.its_q ++ taken else [];
      wrappers = [];
    }

-- Where nobody occupies a session's two queues, all items are pointers that are not null, and
-- those of its one data queue came by `castObject`, a flush returns and empties both queues; no
-- flush is asked for any more, and the collector gets the items of the first queue and then those
-- of the data queue, in order and once each, if items are deleted automatically, and otherwise
-- none.
pub flush_lem :
    {C : Type 0} {n : ℕ} (s : Session C) (h : Hybrid)
    → n < sign_bit
    → IsFlushable n s h
    → (f : Flushed C) × (h' : Hybrid) × (flush s ≡ done f)
      × (f.user_data ≡ (if s.autodelete then s.queue_zero.its_q ++ (items h.reg_q ++ []) else []))
      × (f.wrappers ≡ [])
      × (f.state.queue_zero.its_q ≡ [])
      × (f.state.data_queues ≡ h' ∷ [])
      × (items h'.reg_q ≡ [])
      × (f.state.cblk ≡ ControlBlock.set_flush_requested false s.cblk)
flush_lem s h lt v =
    let (f, k, flushed, user, wrappers, first, queue, nil, block, _) = flush_full s h lt v in
    (f, k, flushed, user, wrappers, first, queue, nil, block)
