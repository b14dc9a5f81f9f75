-- ===== src/Composing/Queues.antt =====
-- CPPAFKComposingSession.cpp: what happens to posted items, and what a flush takes away.
use asyncflow_cpp.Common.{
  ℕ, ◌<◌, ◌≡◌, refl, false, List, [], ◌∷◌, ◌++◌, arith, ap, length, Ptr, ptr_item, length-append,
  ◌∙◌,
}
use asyncflow_cpp.Hybrid
use asyncflow_cpp.Hybrid.{Hybrid, Spec, CallMode, no_block, wait_for_first, wait_for_last}
use asyncflow_cpp.Session
use asyncflow_cpp.Session.{Session, slot}
use asyncflow_cpp.Composing.{
  QueueGarbage, post_data, reconfigure_dataqueues, get_data_items_count, count_queues,
}

size-new : (a : ℕ) (b : Spec) (m : CallMode) → (Hybrid.size (Hybrid.new a b m)).1 ≡ 0
unfolding Hybrid.size Hybrid.new
size-new a b no_block = refl
size-new a b wait_for_first = refl
size-new a b wait_for_last = refl

module _ {C : Type 0} where
  ready_queues :
      (s : Session C) (g : QueueGarbage) (r : Ptr) (rs : List Ptr)
      → slot s.routines_hnds s.routines_hnds.index_r ≡ r ∷ rs
      → (reconfigure_dataqueues g s).data_queues
        ≡ Hybrid.new g.occupant g.last_item s.call_mode ∷ []
  unfolding reconfigure_dataqueues
  ready_queues s g r rs e = rw (e, reconfigure_dataqueues) (ground arith)

  adopt_drops :
      (s : Session C) (h : Hybrid) (hs : List Hybrid)
      → 0 < length (s.queue_zero.its_q)
      → s.data_queues ≡ h ∷ hs
      → ((Session.adopt_data_from_zero_queue s).queue_zero.its_q ≡ [])
        × ((Session.adopt_data_from_zero_queue s).data_queues ≡ h ∷ hs)
  unfolding Session.adopt_data_from_zero_queue
  adopt_drops s h hs p e = ground (arith, p, e)

  count_of_new :
      (s : Session C) (a : ℕ) (b : Spec) (m : CallMode)
      → s.queue_zero.its_q ≡ []
      → s.data_queues ≡ Hybrid.new a b m ∷ []
      → (get_data_items_count s).1 ≡ 0
  unfolding get_data_items_count count_queues
  count_of_new s a b m e d =
      rw (e, get_data_items_count) (rw (d, count_queues) (rw (size-new a b m)))

  kept_early :
      (s : Session C) (x : Ptr)
      → s.cblk.flushed ≡ false
      → s.data_queues ≡ []
      → ((post_data x s).1 ≡ false)
        × ((post_data x s).0.queue_zero.its_q ≡ s.queue_zero.its_q ++ x ∷ [])
        × ((post_data x s).0.routines_hnds ≡ s.routines_hnds)
  unfolding post_data
  kept_early s x f d = ground (arith, f, d)

  -- An item that is posted before the session has a data queue is answered with false and kept; once
  -- the routines are in use and there is a data queue, the next turn drops it: it is in no queue.
  pub early_item_lost :
      (s : Session C) (g : QueueGarbage) (x r : Ptr) (rs : List Ptr)
      → s.cblk.flushed ≡ false
      → s.data_queues ≡ []
      → slot s.routines_hnds s.routines_hnds.index_r ≡ r ∷ rs
      → let posted = (post_data x s).0 in
        let ready = reconfigure_dataqueues g posted in
        let turned = Session.adopt_data_from_zero_queue ready in
        ((post_data x s).1 ≡ false)
        × (ready.queue_zero.its_q ≡ s.queue_zero.its_q ++ x ∷ [])
        × (turned.queue_zero.its_q ≡ [])
        × ((get_data_items_count turned).1 ≡ 0)
  early_item_lost s g x r rs f d e = (
    kept.0,
    unfold reconfigure_dataqueues in kept.1,
    dropped.0,
    count_of_new turned _ _ _ dropped.0 dropped.1,
  )
    where
      kept :
          ((post_data x s).1 ≡ false)
          × ((post_data x s).0.queue_zero.its_q ≡ s.queue_zero.its_q ++ x ∷ [])
          × ((post_data x s).0.routines_hnds ≡ s.routines_hnds)
      kept = kept_early s x f d

      posted : Session C
      posted = (post_data x s).0

      ready : Session C
      ready = reconfigure_dataqueues g posted

      turned : Session C
      turned = Session.adopt_data_from_zero_queue ready

      filled : 0 < length (ready.queue_zero.its_q)
      filled =
          unfold reconfigure_dataqueues in
          (omega (arith, ap length kept.1, length-append (s.queue_zero.its_q) (x ∷ [])))

      dropped :
          (turned.queue_zero.its_q ≡ [])
          × (turned.data_queues ≡ Hybrid.new g.occupant g.last_item posted.call_mode ∷ [])
      dropped =
          adopt_drops ready _ [] filled
            (ready_queues posted g r rs (ap (λ h. slot h h.index_r) kept.2 ∙ e))
