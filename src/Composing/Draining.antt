-- ===== src/Composing/Draining.antt =====
-- CPPAFKComposingSession.cpp, `_flush`: the loops that empty a queue.
use asyncflow_cpp.Common.{
  ℕ, zero, suc, ◌<◌, ◌≡◌, ◌≢◌, refl, ap, true, false, List, [], ◌∷◌, arith, length, All, sign_bit,
  Ptr, null, Option, none, some, Outcome, done, ◌>>=◌,
}
use asyncflow_cpp.Batching.Wf.{items}
use asyncflow_cpp.Blocking
use asyncflow_cpp.Blocking.{Blocking}
use asyncflow_cpp.ThreadpoolQueue
use asyncflow_cpp.ThreadpoolQueue.{TpQueue, minus_one, is_taken, is_nil, new_status}
use asyncflow_cpp.ThreadpoolQueue.Occupancy.{IsPaired, served, serve_front}
use asyncflow_cpp.Hybrid
use asyncflow_cpp.Hybrid.{Hybrid}
use asyncflow_cpp.Hybrid.Order.{IsOrdered}
use asyncflow_cpp.Hybrid.Pulling.{pull_and_occupy_first, pull_and_occupy_empty}
use asyncflow_cpp.Composing.{drain, residuals}

abbrev pub IsItem : Ptr → Type 0
IsItem x = x ≢ null

abbrev Empties : {Q : Type 0} → Outcome (Q × List Ptr) → List Ptr → (Q → Type 0) → Type 0
Empties {Q} r xs P = (q : Q) × (r ≡ done (q, xs)) × P q

-- `pull` of the queue that is there before the data queues.
pull_next :
    (q : TpQueue) (x : Ptr) (xs : List Ptr)
    → is_taken q.occupant minus_one ≡ false
    → IsPaired q
    → q.its_q ≡ x ∷ xs
    → IsItem x
    → (q' : TpQueue) × (ThreadpoolQueue.pull q ≡ done (q', x, true))
      × (is_taken q'.occupant minus_one ≡ false)
      × IsPaired q'
      × (q'.its_q ≡ xs)
unfolding ThreadpoolQueue.pull
pull_next q x xs free p e n = go q.deq_indexes refl
  where
    go :
        (is : List ℕ)
        → q.deq_indexes ≡ is
        → (q' : TpQueue) × (ThreadpoolQueue.pull q ≡ done (q', x, true))
          × (is_taken q'.occupant minus_one ≡ false)
          × IsPaired q'
          × (q'.its_q ≡ xs)
    go [] f = absurd (omega (arith, p, ap length e, ap length f))
    go (k ∷ ks) f = (
      (served minus_one q x xs k ks).state,
      rw (serve_front minus_one q x xs k ks free e f, ◌>>=◌) (ground (arith, n)),
      ground arith,
      omega (arith, p, ap length e, ap length f),
      refl,
    )

pull_none :
    (q : TpQueue)
    → is_taken q.occupant minus_one ≡ false
    → q.its_q ≡ []
    → (q' : TpQueue) × (ThreadpoolQueue.pull q ≡ done (q', null, false)) × (q'.its_q ≡ [])
unfolding ThreadpoolQueue.pull ThreadpoolQueue.pull_and_occupy_with_id
pull_none q free e = (record q { occupant = minus_one }, ground (arith, free, e), e)

pub drain_zero :
    (fuel : ℕ) (q : TpQueue) (xs : List Ptr)
    → is_taken q.occupant minus_one ≡ false
    → IsPaired q
    → q.its_q ≡ xs
    → All IsItem xs
    → length xs < fuel
    → Empties (drain ThreadpoolQueue.pull fuel q) xs (λ q'. q'.its_q ≡ [])
unfolding drain
drain_zero zero q xs free p e n l = absurd (omega (arith, l))
drain_zero (suc fuel) q [] free p e n l =
    let (q', none_left, nil) = pull_none q free e in (q', rw (none_left, ◌>>=◌), nil)
drain_zero (suc fuel) q (x ∷ xs) free p e n l =
    let (q', one, free', p', left) = pull_next q x xs free p e n.0 in
    let (r, rest, nil) = drain_zero fuel q' xs free' p' left n.1 (omega (arith, l)) in
    (r, rw (one, ◌>>=◌) (rw (rest, ◌>>=◌)), nil)

-- `pull` of a data queue.
hybrid_next :
    {n : ℕ} (h : Hybrid) (x : Ptr) (xs : List Ptr)
    → n < sign_bit
    → IsOrdered n h
    → is_taken h.occupant minus_one ≡ false
    → items h.reg_q ≡ x ∷ xs
    → IsItem x
    → (h' : Hybrid) × (Hybrid.pull h ≡ done (h', x, true))
      × IsOrdered n h'
      × (is_taken h'.occupant minus_one ≡ false)
      × (items h'.reg_q ≡ xs)
unfolding Hybrid.pull
hybrid_next h x xs lt v free e n =
    let (g, got, first, _, _, left, _, held, ordered) =
      pull_and_occupy_first minus_one h x xs new_status lt v free e in
    (g.state, rw (got, ◌>>=◌) (ground (arith, first, n)), ordered, ground (arith, held), left)

hybrid_none :
    {n : ℕ} (h : Hybrid)
    → IsOrdered n h
    → is_taken h.occupant minus_one ≡ false
    → items h.reg_q ≡ []
    → (h' : Hybrid) × (Hybrid.pull h ≡ done (h', null, false)) × (items h'.reg_q ≡ [])
unfolding Hybrid.pull
hybrid_none h v free e =
    let (g, got, first, _, _, same) = pull_and_occupy_empty minus_one h new_status v free e in
    (g.state, rw (got, ◌>>=◌) (ground (arith, first)), rw same e)

pub drain_hybrid :
    {n : ℕ} (fuel : ℕ) (h : Hybrid) (xs : List Ptr)
    → n < sign_bit
    → IsOrdered n h
    → is_taken h.occupant minus_one ≡ false
    → items h.reg_q ≡ xs
    → All IsItem xs
    → length xs < fuel
    → Empties (drain Hybrid.pull fuel h) xs (λ h'. items h'.reg_q ≡ [])
unfolding drain
drain_hybrid zero h xs lt v free e n l = absurd (omega (arith, l))
drain_hybrid (suc fuel) h [] lt v free e n l =
    let (h', none_left, nil) = hybrid_none h v free e in (h', rw (none_left, ◌>>=◌), nil)
drain_hybrid (suc fuel) h (x ∷ xs) lt v free e n l =
    let (h', one, v', free', left) = hybrid_next h x xs lt v free e n.0 in
    let (r, rest, nil) = drain_hybrid fuel h' xs lt v' free' left n.1 (omega (arith, l)) in
    (r, rw (one, ◌>>=◌) (rw (rest, ◌>>=◌)), nil)

-- No batch is ever handed out by getResidual.
pub residuals_none :
    (fuel : ℕ) (h : Hybrid)
    → (h' : Hybrid) × (residuals (suc fuel) h ≡ done (h', [])) × (h'.reg_q ≡ h.reg_q)
unfolding residuals Hybrid.get_residual Blocking.pull_deferred
residuals_none fuel h = go h.blk_q refl
  where
    go :
        (o : Option (Blocking Ptr))
        → h.blk_q ≡ o
        → (h' : Hybrid) × (residuals (suc fuel) h ≡ done (h', [])) × (h'.reg_q ≡ h.reg_q)
    go none e = (h, ground (arith, e), refl)
    go (some b) e =
        (record h { blk_q = some (Blocking.pull_deferred b).0 }, ground (arith, e), refl)
