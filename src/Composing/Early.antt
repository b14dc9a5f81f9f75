-- ===== src/Composing/Early.antt =====
-- CPPAFKComposingSession.cpp and CPPAFKThreadpoolSession.cpp: items that are posted to a new session
-- before its first turn.
use asyncflow_cpp.Common.{
  ℕ, suc, ◌<◌, ◌≡◌, refl, ap, sym, ◌∙◌, true, false, List, [], ◌∷◌, ◌++◌, arith, length, ltb, sle,
  Ptr, done, ◌>>=◌, append_assoc, append-nil, Bool-cases, inl, inr,
}
use asyncflow_cpp.Batching.Wf.{items}
use asyncflow_cpp.ControlBlock
use asyncflow_cpp.ThreadpoolQueue
use asyncflow_cpp.ThreadpoolQueue.{minus_one}
use asyncflow_cpp.Hybrid.{Hybrid}
use asyncflow_cpp.Session
use asyncflow_cpp.Session.{Session, Prioritized}
use asyncflow_cpp.Composing.{QueueGarbage, post_data}
use asyncflow_cpp.Composing.Turn.{UserCode, Turn}
use asyncflow_cpp.Composing.Select.{has_none, rounds, select, wake_up}
use asyncflow_cpp.Composing.Serving.{IsAtWork}
use asyncflow_cpp.Composing.Turns.{round_none}
use asyncflow_cpp.Composing.Starting.{IsFresh, IsReady}
use asyncflow_cpp.Composing.Posting.{posted, Answered}

module _ {C : Type 0} where
  refused_one :
      (x : Ptr) (us : List Ptr) (s : Session C)
      → IsFresh us s
      → ((post_data x s).1 ≡ false)
        × IsFresh us (post_data x s).0
        × ((post_data x s).0.queue_zero.its_q ≡ s.queue_zero.its_q ++ x ∷ [])
  unfolding post_data ControlBlock.cancellation_requested
  refused_one x us s v = ground arith

  -- Items posted to a session before its first turn are answered with false, and kept in its first
  -- queue.
  pub refused_lem :
      (xs : List Ptr) (us : List Ptr) (s : Session C)
      → IsFresh us s
      → Answered false xs s
        × IsFresh us (posted xs s)
        × ((posted xs s).queue_zero.its_q ≡ s.queue_zero.its_q ++ xs)
  refused_lem [] us s v = (tt, v, sym (append-nil _))
  refused_lem (x ∷ xs) us s v =
      let (no_one, w, kept) = refused_one x us s v in
      let (others, u, all_kept) = refused_lem xs us (post_data x s).0 w in
      (
        (no_one, others),
        u,
        all_kept ∙ ap (λ ys. ys ++ xs) kept ∙ append_assoc s.queue_zero.its_q (x ∷ []) xs,
      )

  -- The session without what was in its first queue.
  abbrev dropped : Session C → Session C
  dropped s = record s {
    pq = record { priority = length (s.queue_zero.its_q); queue_id = 0 } ∷ s.pq;
    queue_zero = ThreadpoolQueue.reset s.queue_zero;
  }

  wake_up_early :
      (s : Session C) (h : Hybrid)
      → s.paused ≡ false
      → 0 < length s.queue_zero.its_q
      → s.data_queues ≡ h ∷ []
      → wake_up s ≡ dropped s
  unfolding wake_up Session.adopt_data_from_zero_queue
  wake_up_early s h p l e =
      let full : ltb 0 (length s.queue_zero.its_q) ≡ true = ground (arith, l) in simp (p, e, full)

  reset-nil : (s : Session C) → (dropped s).queue_zero.its_q ≡ []
  unfolding ThreadpoolQueue.reset
  reset-nil s = ground arith

  dropped-IsAtWork :
      {n : ℕ} (us : List Ptr) (s : Session C) (h : Hybrid)
      → IsAtWork n us s h
      → IsAtWork n us (dropped s) h
  dropped-IsAtWork us s h v = record {
    one_queue = v.one_queue;
    ordered = v.ordered;
    not_asked = v.not_asked;
    not_flushed = v.not_flushed;
    settled = v.settled;
    in_use = v.in_use;
    lambdas = v.lambdas;
    deletes = v.deletes;
    summary_settled = v.summary_settled;
    summing = v.summing;
    no_condition = v.no_condition;
  }

  module _ (code : UserCode C) where
    starts_early :
        {n : ℕ} (g : QueueGarbage) (ii fuel : ℕ) (us : List Ptr) (t : Turn C) (h : Hybrid)
        → IsAtWork n us t.state h
        → t.state.paused ≡ false
        → t.state.is_stopped ≡ false
        → 0 < length t.state.queue_zero.its_q
        → select code g ii fuel t ≡ rounds code g ii fuel (record t { state = dropped t.state })
    unfolding select
    starts_early g ii fuel us t h v p st l =
        let awake = wake_up_early t.state h p l v.one_queue in
        elim (Bool-cases (sle t.state.busy_count 0))
          as (λ _.
            select code g ii fuel t
            ≡ rounds code g ii fuel (record t { state = dropped t.state })) [
              | inl idle ↦ simp (awake, st, v.not_asked, v.no_condition, idle)
              | inr busy ↦ simp (awake, st, v.not_asked, busy)
            ]

    one_round :
        {n : ℕ} (g : QueueGarbage) (ii fuel : ℕ) (us : List Ptr) (t : Turn C) (h : Hybrid)
        → IsAtWork n us t.state h
        → h.occupant ≡ minus_one
        → items h.reg_q ≡ []
        → (k : Hybrid) × (rounds code g ii (suc fuel) t
            ≡ done (record t { state = record (t.state) { data_queues = k ∷ [] } }, has_none))
          × (items k.reg_q ≡ [])
    unfolding rounds
    one_round g ii fuel us t h v free nil =
        let (k, last, _, _, still) = round_none code (λ u x. x) g ii us t h v free nil in
        (k, rw (last, ◌>>=◌), still)

    -- The turn of a session that holds items in its first queue alone drops them: it gives the
    -- collector nothing and calls nobody, and both queues are empty then.
    pub early_turn :
        {n : ℕ} (g : QueueGarbage) (ii fuel : ℕ) (us : List Ptr) (s : Session C) (t : Turn C)
        (h : Hybrid)
        → IsReady n us [] s t.state h
        → 0 < length t.state.queue_zero.its_q
        → (r : Session C) × (k : Hybrid) × (select code g ii (suc fuel) t
            ≡ done (record t { state = r }, has_none))
          × (r.queue_zero.its_q ≡ [])
          × (r.data_queues ≡ k ∷ [])
          × (items k.reg_q ≡ [])
    early_turn g ii fuel us s t h v l =
        let w = record t { state = dropped t.state } in
        let (k, turned, nil) =
          one_round g ii fuel us w h (dropped-IsAtWork us t.state h v.at_work) v.nobody v.holds in
        (
          record (dropped t.state) { data_queues = k ∷ [] },
          k,
          starts_early g ii (suc fuel) us t h v.at_work v.running v.goes_on l ∙ turned,
          reset-nil t.state,
          refl,
          nil,
        )
