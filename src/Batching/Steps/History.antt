-- ===== src/Batching/Steps/History.antt =====
-- CPPAFKBatchingQueue.hpp: the invariant of a history of calls, kept by each call.
use asyncflow_cpp.Common.{
  ℕ, suc, ◌+◌, ◌<◌, ◌≡◌, refl, Bool, true, false, List, [], ◌∷◌, ◌++◌, arith, length, sign_bit,
  Item, Outcome, done, ◌>>=◌, append_assoc, Bool-cases, inl, inr, slt,
}
use Prim.Native.Nat.add
use native.Mathlib.Nat.{add-zero, add-suc, suc-add}
use asyncflow_cpp.Queue
use asyncflow_cpp.Batching.{
  Wrap, Pull, new_wrap, new, clear_relax_q, relax, set_upper_batch_limit, set_lower_batch_limit,
  purge_readers, init, cast_object_to_batch, commit_batch, reset_batch, pause, resume, pull,
  pull_woken,
}
use asyncflow_cpp.Batching.Contents.{committed_by, items-cast_object, items-commit_batch}
use asyncflow_cpp.Batching.Wf.{
  items, IsWf-mono, cast_object-IsWf, cast_object_to_batch-IsWf, commit_batch-IsWf,
}
use asyncflow_cpp.Batching.Extraction.{
  pull_cases, purge_lem, purge-IsWf, emptied_bq, reset_bq, reset_lem,
}
use asyncflow_cpp.Batching.Steps.{
  Op, casts, collects, commits, drops, pulls, wakes, stops, goes, relaxes, purges, resets, upper_to,
  lower_to, Logged, log_pull, emptied, step, run, Inv,
}

module _ {A : Type 0} ⦃item : Item A⦄ where
  -- The call returns, and the invariant holds with room for one more item.
  abbrev Kept : ℕ → Outcome (Logged A) → Type 0
  Kept n r = (t : Logged A) × (r ≡ done t) × Inv n t

  append_log :
      (log handed now more : List A) → log ≡ handed ++ now → log ++ more ≡ handed ++ (now ++ more)
  append_log log handed now more e = rw (e, append_assoc handed now more)

  step_casts :
      (x : A) {n : ℕ} (s : Logged A) → suc n < sign_bit → Inv n s → Kept (suc n) (step (casts x) s)
  unfolding step
  step_casts x s h v = (
    _,
    refl,
    record {
      wf = cast_object-IsWf x s.state h v.wf;
      fifo =
          rw (items-cast_object x s.state)
            (append_log s.committed s.handed (items s.state) _ v.fifo);
    },
  )

  step_commits :
      (force : Bool) {n : ℕ} (s : Logged A)
      → n < sign_bit
      → Inv n s
      → Kept (suc n) (step (commits force) s)
  unfolding step
  step_commits force s h v = (
    _,
    refl,
    record {
      wf = IsWf-mono _ (omega arith) (commit_batch-IsWf force s.state h v.wf);
      fifo = rw (items-commit_batch force s.state) (logged (commit_batch force s.state).1);
    },
  )
    where
      logged :
          (r : Bool)
          → committed_by r (s.state.temp.many) s.committed
            ≡ s.handed ++ committed_by r (s.state.temp.many) (items s.state)
      logged true = append_log s.committed s.handed (items s.state) (s.state.temp.many) v.fifo
      logged false = v.fifo

  step_collects : (x : A) {n : ℕ} (s : Logged A) → Inv n s → Kept (suc n) (step (collects x) s)
  unfolding step
  step_collects x s v = (
    _,
    refl,
    record {
      wf = cast_object_to_batch-IsWf x s.state v.wf;
      fifo = unfold cast_object_to_batch in (ground (arith, v));
    },
  )

  -- Neither the wrappers to dispose of nor the flags of reading matter to the invariant.
  reflag :
      {n : ℕ} (s : Logged A) (rs : List (Wrap A)) (p c : Bool)
      → Inv n s
      → Inv (suc n) (record s {
        state = record (s.state) {
          relaxing = rs;
          queue = record (s.state.queue) { paused = p; cond_pred_r = c };
        };
      })
  reflag s rs p c v = record {
    wf = record {
      counted = v.wf.counted;
      nonempty = v.wf.nonempty;
      bounded = omega (arith, v.wf.bounded);
      ordered = v.wf.ordered;
      no_min = v.wf.no_min;
      no_block = v.wf.no_block;
    };
    fifo = v.fifo;
  }

  step_pulls_to :
      (s : Logged A) (p : Pull A) → pull s.state ≡ done p → step pulls s ≡ done (log_pull s p)
  unfolding step
  step_pulls_to s p e = rw (e, ◌>>=◌)

  step_pulls : {n : ℕ} (s : Logged A) → n < sign_bit → Inv n s → Kept (suc n) (step pulls s)
  unfolding clear_relax_q
  step_pulls s h v = elim (pull_cases s.state h v.wf) [
    | inl (_, e) ↦ (_, step_pulls_to s _ e, reflag s _ s.state.paused s.state.cond_pred_r v)
    | inr (inl (_, _, (x, b, e, front, _, _, wf))) ↦ (
      _,
      step_pulls_to s _ e,
      record {
        wf = IsWf-mono b (omega arith) wf;
        fifo = ground (arith, v.fifo, front, append_assoc s.handed (x ∷ []) (items b));
      },
    )
    | inr (inr (inl (_, _, _, e))) ↦
        (_, step_pulls_to s _ e, reflag s _ s.state.paused s.state.cond_pred_r v)
    | inr (inr (inr (_, _, _, e))) ↦ (_, step_pulls_to s _ e, reflag s _ s.state.paused false v)
  ]

  step_wakes : {n : ℕ} (s : Logged A) → Inv n s → Kept (suc n) (step wakes s)
  unfolding step pull_woken
  step_wakes s v = elim (Bool-cases (slt s.state.min_q_size s.state.net_count)) [
    | inl e ↦ (_, rw (e, pull_woken), reflag s s.state.relaxing s.state.paused true v)
    | inr e ↦ (_, rw (e, pull_woken), reflag s s.state.relaxing s.state.paused false v)
  ]

  step_purges : {n : ℕ} (s : Logged A) → Inv n s → Kept (suc n) (step purges s)
  unfolding step
  step_purges s v = (
    emptied s (emptied_bq s.state),
    rw (purge_lem s.state v.wf.no_block),
    record { wf = IsWf-mono _ (omega arith) (purge-IsWf s.state v.wf); fifo = refl },
  )

  step_resets : {n : ℕ} (s : Logged A) → Inv n s → Kept (suc n) (step resets s)
  unfolding step init purge_readers
  step_resets s v = (
    emptied s (reset_bq s.state),
    rw (reset_lem s.state v.wf.no_block),
    record { wf = ground (arith, v.wf); fifo = refl },
  )

  step-Kept :
      {n : ℕ} (o : Op A) (s : Logged A) → suc n < sign_bit → Inv n s → Kept (suc n) (step o s)
  unfolding step relax clear_relax_q pause resume reset_batch set_upper_batch_limit
      set_lower_batch_limit
  step-Kept (casts x) s h v = step_casts x s h v
  step-Kept (collects x) s h v = step_collects x s v
  step-Kept (commits force) s h v = step_commits force s (omega arith) v
  step-Kept drops s h v =
      (_, refl, record { wf = ground (arith, v.wf); fifo = ground (arith, v.fifo) })
  step-Kept pulls s h v = step_pulls s (omega arith) v
  step-Kept wakes s h v = step_wakes s v
  step-Kept stops s h v = (_, refl, reflag s _ true s.state.cond_pred_r v)
  step-Kept goes s h v = (_, refl, reflag s _ false s.state.cond_pred_r v)
  step-Kept relaxes s h v = (_, refl, reflag s _ s.state.paused s.state.cond_pred_r v)
  step-Kept purges s h v = step_purges s v
  step-Kept resets s h v = step_resets s v
  step-Kept (upper_to n) s h v =
      (_, refl, record { wf = ground (arith, v.wf); fifo = ground (arith, v.fifo) })
  step-Kept (lower_to n) s h v =
      (_, refl, record { wf = ground (arith, v.wf); fifo = ground (arith, v.fifo) })

  run-Kept :
      {n : ℕ} (os : List (Op A)) (s : Logged A)
      → n + length os < sign_bit
      → Inv n s
      → Kept (n + length os) (run os s)
  unfolding run
  run-Kept [] s h v = (s, refl, rw add-zero v)
  run-Kept {n} (o ∷ os) s h v =
      let (t, e, v') = step-Kept o s (omega arith) v in
      let (u, e', w) = run-Kept os t (omega arith) v' in
      (u, rw (e, ◌>>=◌) e', rw (add-suc, ← suc-add) w)

  abbrev pub fresh : Bool → Logged A
  fresh blk_r = record { state = new blk_r; committed = []; handed = [] }

  -- Fewer than 2 ^ 63 calls on a new queue, of any kind and in any order, all return: none waits for
  -- ever on `lock` and none touches an empty deque. After them `netCount` is the number of items in
  -- committed batches, no batch is empty, the limits are in order, and the items handed out since
  -- the last purge are those committed since then, in order, up to those that still wait.
  pub run-fresh :
      (blk_r : Bool) (os : List (Op A))
      → length os < sign_bit
      → (t : Logged A) × (run os (fresh blk_r) ≡ done t) × Inv (length os) t
  unfolding new Queue.new new_wrap
  run-fresh blk_r os h =
      let (t, e, v) =
        run-Kept {n = 0} os (fresh blk_r) (omega arith)
          (record { wf = ground arith; fifo = refl }) in
      (t, e, rw add.zero at v)
