-- ===== src/Blocking/Deferral.antt =====
-- CPPAFKThreadpool.hpp, CPPAFKBatchingQueue2 and 3: batches that wait for their writer.
use asyncflow_cpp.Common.{
  ◌+◌, ◌<◌, ◌≡◌, ◌↔◌, true, false, List, [], ◌∷◌, ◌++◌, arith, length, length-append, sign_bit,
  Item, append-nil,
}
use asyncflow_cpp.Batching.{Wrap, new_wrap}
use asyncflow_cpp.Batching.Wf.{batches, batches-append}
use asyncflow_cpp.Blocking.{
  Blocking, pull_and_batch_status, cast_vector, release_first, release_all, release_loop,
  relax_released,
}

abbrev pub items {ℓ} : {A : Type ℓ} → Blocking A → List A
items b = batches b.its_bq

module _ {A : Type 0} ⦃item : Item A⦄ where
  -- Where writers wait for the last item of their batch: a call that takes the last item of a batch
  -- reports its end and defers the batch; until the writer is released, calls hand out nothing and
  -- change nothing; once it is, the next call hands out the first item of the next batch.
  pub next_batch_waits :
      (b : Blocking A) (w v : Wrap A) (ws : List (Wrap A)) (x y : A) (ys : List A)
      → b.blocking_w ≡ true
      → b.deferred ≡ []
      → b.its_bq ≡ w ∷ v ∷ ws
      → w.many ≡ x ∷ []
      → v.many ≡ y ∷ ys
      → let g = pull_and_batch_status false b in
        let again = pull_and_batch_status false g.state in
        let released = pull_and_batch_status false (release_first g.state) in
        (g.item ≡ x)
        × (g.end_batch ≡ true)
        × (g.success ≡ true)
        × (again.success ≡ false)
        × (again.state ≡ g.state)
        × (released.item ≡ y)
        × (released.success ≡ true)
  unfolding pull_and_batch_status release_first
  next_batch_waits b w v ws x y ys k d e p q = ground arith

  length-items-push :
      (b : Blocking A) (xs : List A)
      → length (items (cast_vector xs b).0) ≡ length (items b) + length xs
  unfolding cast_vector new_wrap
  length-items-push b xs =
      rw (batches-append b.its_bq _, length-append (items b) (xs ++ []), append-nil xs)

  -- A vector is counted as one item: a queue whose `netCount` was the number of its items keeps it
  -- so exactly when the vector has one item.
  pub cast_vector_miscounts :
      (b : Blocking A) (xs : List A)
      → length (items b) + length xs + 1 < sign_bit
      → b.net_count ≡ length (items b)
      → ((cast_vector xs b).0.net_count ≡ length (items (cast_vector xs b).0)) ↔ (length xs ≡ 1)
  unfolding cast_vector
  cast_vector_miscounts b xs h e = (
    (λ c. omega (arith, c, length-items-push b xs)),
    (λ c. omega (arith, c, length-items-push b xs)),
  )

  release_loop-deferred :
      (ws : List (Wrap A)) (b : Blocking A)
      → ((release_loop ws b).deferred ≡ [])
        × (length ((release_loop ws b).relaxing) ≡ length b.relaxing + length ws)
        × ((release_loop ws b).its_bq ≡ b.its_bq)
  unfolding release_loop
  release_loop-deferred [] b = ground arith
  release_loop-deferred (w ∷ ws) b = ground (
    arith,
    release_loop-deferred ws (relax_released w b),
    length-append b.relaxing (record w { cond_pred_w = true } ∷ []),
  )

  -- Releasing all writers moves every deferred batch to the list of those to dispose of, and leaves
  -- the batches that wait for a reader.
  pub release_all_moves :
      (b : Blocking A)
      → ((release_all b).deferred ≡ [])
        × (length ((release_all b).relaxing) ≡ length b.relaxing + length b.deferred)
        × (items (release_all b) ≡ items b)
  unfolding release_all
  release_all_moves b = ground (arith, release_loop-deferred b.deferred b)
