-- ===== src/Batching/Steps.antt =====
-- CPPAFKBatchingQueue.hpp: any sequence of calls on a new queue, with what was committed and what
-- was handed out kept beside it.
pub mod History
use asyncflow_cpp.Common.{
  ℕ, ◌≡◌, Bool, true, false, List, [], ◌∷◌, ◌++◌, Item, Outcome, done, ◌>>=◌,
}
use asyncflow_cpp.Batching.{
  Batching, Pull, returned, asleep, relax, set_upper_batch_limit, set_lower_batch_limit, purge,
  reset, cast_object, cast_object_to_batch, commit_batch, reset_batch, pause, resume, pull,
  pull_woken,
}
use asyncflow_cpp.Batching.Contents.{committed_by}
use asyncflow_cpp.Batching.Wf.{items, IsWf}

pub data Op {ℓ} (A : Type ℓ) : Type ℓ where
  casts collects : A → Op A
  commits : Bool → Op A
  drops pulls wakes stops goes relaxes purges resets : Op A
  upper_to lower_to : ℕ → Op A

-- A queue with what was committed to it and what it handed out since the last purge.
pub record Logged (A : Type 0) : Type 0 where
  pub state : Batching A
  pub committed : List A
  pub handed : List A

module _ {A : Type 0} where
  abbrev pub log_pull : Logged A → Pull A → Logged A
  log_pull s (returned b x true) = record s { state = b; handed = s.handed ++ x ∷ [] }
  log_pull s (returned b x false) = record s { state = b }
  log_pull s (asleep b) = record s { state = b }

  abbrev pub emptied : Logged A → Batching A → Logged A
  emptied s b = record { state = b; committed = []; handed = [] }

module _ {A : Type 0} ⦃item : Item A⦄ where
  pub step : Op A → Logged A → Outcome (Logged A)
  step (casts x) s =
      done (record s { state = (cast_object x s.state).0; committed = s.committed ++ x ∷ [] })
  step (collects x) s = done (record s { state = (cast_object_to_batch x s.state).0 })
  step (commits force) s = done (record s {
    state = (commit_batch force s.state).0;
    committed = committed_by (commit_batch force s.state).1 (s.state.temp.many) s.committed;
  })
  step drops s = done (record s { state = (reset_batch s.state).0 })
  step pulls s = do p ← pull s.state; done (log_pull s p)
  step wakes s = done (log_pull s (pull_woken s.state))
  step stops s = done (record s { state = pause s.state })
  step goes s = done (record s { state = resume s.state })
  step relaxes s = done (record s { state = relax s.state })
  step purges s = do b ← purge s.state; done (emptied s b)
  step resets s = do b ← reset s.state; done (emptied s b)
  step (upper_to n) s = done (record s { state = (set_upper_batch_limit n s.state).0 })
  step (lower_to n) s = done (record s { state = (set_lower_batch_limit n s.state).0 })

  pub run : List (Op A) → Logged A → Outcome (Logged A)
  run [] s = done s
  run (o ∷ os) s = do t ← step o s; run os t

  pub record Inv (n : ℕ) (s : Logged A) : Type 0 where
    pub wf : IsWf n s.state
    pub fifo : s.committed ≡ s.handed ++ items s.state
