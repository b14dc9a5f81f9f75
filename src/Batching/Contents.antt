-- ===== src/Batching/Contents.antt =====
-- CPPAFKBatchingQueue.hpp: what insertions, commits and the limits of a batch do to the items that
-- wait in committed batches.
use asyncflow_cpp.Common.{
  ◌≤◌, ◌<◌, ◌≡◌, ◌⊎◌, Bool, true, false, List, [], ◌∷◌, ◌++◌, arith, length, append-nil, Bool-cases,
  inl, inr, ltb,
}
use asyncflow_cpp.Batching.{
  Batching, new_wrap, clear_relax_q, cast_object, push_batch, commit_batch,
}
use asyncflow_cpp.Batching.Wf.{batches-append, items}

-- Within the limits, or beyond them by force.
abbrev pub committed_by {ℓ} : {A : Type ℓ} → Bool → List A → List A → List A
committed_by true xs log = log ++ xs
committed_by false xs log = log

module _ {A : Type 0} where
  -- `castObject` makes its item a batch of one, last in the queue, whatever the queue holds.
  pub items-cast_object : (x : A) (b : Batching A) → items (cast_object x b).0 ≡ items b ++ x ∷ []
  unfolding cast_object clear_relax_q new_wrap
  items-cast_object x b = batches-append b.its_bq _

  items-push_batch :
      (b : Batching A)
      → items (push_batch b).0 ≡ committed_by (push_batch b).1 (b.temp.many) (items b)
  unfolding push_batch
  items-push_batch b = elim (Bool-cases (ltb 0 (length (b.temp.many)))) [
    | inl e ↦
        rw (e, push_batch) (rw (batches-append b.its_bq (b.temp ∷ []), append-nil (b.temp.many)))
    | inr e ↦ rw (e, push_batch)
  ]

  -- A commit that answers true appends the items of the open batch, and one that answers false
  -- leaves the committed items as they are.
  pub items-commit_batch :
      (force : Bool) (b : Batching A)
      → items (commit_batch force b).0
        ≡ committed_by (commit_batch force b).1 (b.temp.many) (items b)
  unfolding commit_batch clear_relax_q
  items-commit_batch force b = ground (arith, items-push_batch (clear_relax_q b))

  -- A commit answers true exactly when the open batch holds an item and is forced or within the
  -- limits, as unsigned numbers; it then starts an empty batch, and otherwise keeps the open one.
  pub commit_batch_within :
      (force : Bool) (b : Batching A)
      → ((((commit_batch force b).1 ≡ true)
            × (0 < length (b.temp.many))
            × ((force ≡ true)
                ⊎ ((b.batch_limit_lower ≤ length (b.temp.many))
                    × (length (b.temp.many) ≤ b.batch_limit_upper)))
            × ((commit_batch force b).0.temp.many ≡ []))
          ⊎ (((commit_batch force b).1 ≡ false)
              × ((length (b.temp.many) ≡ 0)
                  ⊎ ((force ≡ false)
                      × ((length (b.temp.many) < b.batch_limit_lower)
                          ⊎ (b.batch_limit_upper < length (b.temp.many)))))
              × ((commit_batch force b).0.temp ≡ b.temp)))
  unfolding commit_batch push_batch clear_relax_q new_wrap
  commit_batch_within force b = ground arith
