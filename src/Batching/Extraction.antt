-- ===== src/Batching/Extraction.antt =====
-- CPPAFKBatchingQueue.hpp: what a call of `pull` does, and of `purge` and `reset` where writes do
-- not block.
use asyncflow_cpp.Common.{
  ℕ, ◌<◌, ◌≡◌, ◌≢◌, ◌⊎◌, refl, true, false, List, [], ◌∷◌, arith, ap, length, uint64_max, sign_bit,
  Item, done, Bool-cases, inl, inr,
}
use native.Mathlib.Decide.{dec_lt}
use asyncflow_cpp.Batching.{
  Wrap, Batching, returned, asleep, clear_relax_q, purge, purge_loop, purge_readers, init, reset,
  pull,
}
use asyncflow_cpp.Batching.Wf.{items, IsWf, Hands, clear_relax_q-IsWf, take_front-Hands}

module _ {A : Type 0} ⦃item : Item A⦄ where
  -- The four cases of a call of `pull` on a queue that meets the invariant. A paused queue refuses
  -- it, even where a batch is partly read. One that is not paused hands out the oldest item of the
  -- oldest batch, where one is committed; else it fails, or sleeps where reads block. In no case
  -- does the call touch an empty deque or wait for ever on `lock`.
  pub pull_cases :
      {n : ℕ} (b : Batching A)
      → n < sign_bit
      → IsWf n b
      → (((b.paused ≡ true) × (pull b ≡ done (returned (clear_relax_q b) item.default false)))
          ⊎ (((b.paused ≡ false) × (items b ≢ []) × Hands n b (pull b))
              ⊎ (((b.paused ≡ false)
                    × (items b ≡ [])
                    × (b.blocking_r ≡ false)
                    × (pull b ≡ done (returned (clear_relax_q b) item.default false)))
                  ⊎ ((b.paused ≡ false)
                      × (items b ≡ [])
                      × (b.blocking_r ≡ true)
                      × (pull b
                          ≡ done (
                              asleep (record (clear_relax_q b) {
                                queue = record (b.queue) { cond_pred_r = false };
                              })))))))
  unfolding pull
  pull_cases {n} b h v = elim (dec_lt 0 (length (items b))) [
    | yes some ↦ elim (Bool-cases b.paused) [
      | inl p ↦ inl (p, rw (p, pull))
      | inr p ↦ inr (inl (p, (λ e. absurd (omega (arith, ap length e))), hands p some))
    ]
    | no none ↦ ground (arith, v, empty (items b) refl none)
  ]
    where
      hands : b.paused ≡ false → 0 < length (items b) → Hands n b (pull b)
      hands p some =
          let front =
            take_front-Hands (clear_relax_q b) b.its_bq refl h (clear_relax_q-IsWf b v) some in
          ground (arith, front, v)

      empty : (xs : List A) → items b ≡ xs → ¬ (0 < length xs) → items b ≡ []
      empty [] e k = e
      empty (x ∷ xs) e k = absurd (omega arith)

  purge_loop-done : (ws : List (Wrap A)) → purge_loop false ws ≡ done []
  unfolding purge_loop
  purge_loop-done [] = refl
  purge_loop-done (w ∷ ws) = purge_loop-done ws

  abbrev pub emptied_bq : Batching A → Batching A
  emptied_bq b = record (purge_readers b) { its_bq = []; net_count = 0 }

  -- With writes that do not block, `purge` returns and drops the committed batches alone.
  pub purge_lem : (b : Batching A) → b.blocking_w ≡ false → purge b ≡ done (emptied_bq b)
  unfolding purge
  purge_lem b h = rw (h, purge_loop-done b.its_bq)

  pub purge-IsWf : {n : ℕ} (b : Batching A) → IsWf n b → IsWf n (emptied_bq b)
  unfolding purge_readers
  purge-IsWf b v = ground (arith, v)

  abbrev pub reset_bq : Batching A → Batching A
  reset_bq b = init (record (emptied_bq b) {
    batch_limit_upper = uint64_max;
    batch_limit_lower = 0;
    temp = record (b.temp) { many = [] };
  })

  pub reset_lem : (b : Batching A) → b.blocking_w ≡ false → reset b ≡ done (reset_bq b)
  unfolding reset purge_readers
  reset_lem b h = rw (purge_lem b h) (ground arith)
