-- ===== src/Tests/Batches.antt =====
-- CPPAFKBatchingQueue.hpp, and CPPAFKBatchingQueue2 of CPPAFKThreadpool.hpp, at concrete states.
use asyncflow_cpp.Common.{
  ◌≡◌, ◌≢◌, ◌⊎◌, refl, Bool, true, false, List, [], ◌∷◌, arith, length, Ptr, ptr_item, int64_max,
  done,
}
use asyncflow_cpp.Queue.{Queue}
use asyncflow_cpp.Batching
use asyncflow_cpp.Batching.{
  Batching, Wrap, kept, clear_relax_q, clear_relax_q_lem, returned, asleep,
}
use asyncflow_cpp.Batching.Wf.{IsWf, items, Hands}
use asyncflow_cpp.Batching.Contents.{committed_by, items-commit_batch}
use asyncflow_cpp.Batching.Extraction.{pull_cases}
use asyncflow_cpp.Batching.Steps
use asyncflow_cpp.Batching.Steps.{Op, Logged, Inv}
use asyncflow_cpp.Batching.Steps.History.{fresh, run-fresh}
use asyncflow_cpp.Blocking
use asyncflow_cpp.Blocking.{Blocking}
use asyncflow_cpp.Blocking.Deferral.{next_batch_waits}

abbrev plain : Queue Ptr
plain = record {
  cond_pred_r = false;
  cond_pred_w = false;
  blocking_r = false;
  blocking_w = false;
  paused = false;
  max_q_size = int64_max;
  min_q_size = 0;
  its_q = [];
}

abbrev wrap : List Ptr → Bool → Wrap Ptr
wrap xs d = record { cond_pred_w = false; discarded = d; many = xs; wait_until_read = false }

abbrev batching : Batching Ptr
batching = record {
  queue = plain;
  batch_limit_upper = 5;
  batch_limit_lower = 2;
  net_count = 3;
  temp = wrap (40 ∷ 50 ∷ []) false;
  its_bq = wrap (10 ∷ []) false ∷ wrap (20 ∷ 30 ∷ []) false ∷ [];
  relaxing = wrap [] true ∷ wrap [] false ∷ [];
}

batching-IsWf : IsWf 5 batching
batching-IsWf = record {
  counted = refl;
  nonempty = (λ e. ground (arith, e), ((λ e. ground (arith, e)), tt));
  bounded = omega arith;
  ordered = omega arith;
  no_min = refl;
  no_block = refl;
}

clear_relax_q_lem_example :
    clear_relax_q batching ≡ record batching { relaxing = kept batching.relaxing }
clear_relax_q_lem_example = clear_relax_q_lem batching

items-commit_batch_example :
    items (Batching.commit_batch false batching).0
    ≡ committed_by (Batching.commit_batch false batching).1 (batching.temp.many) (items batching)
items-commit_batch_example = items-commit_batch false batching

pull_cases_example :
    ((batching.paused ≡ true)
      × (Batching.pull batching ≡ done (returned (clear_relax_q batching) 0 false)))
    ⊎ (((batching.paused ≡ false)
          × (items batching ≢ [])
          × Hands 5 batching (Batching.pull batching))
        ⊎ (((batching.paused ≡ false)
              × (items batching ≡ [])
              × (batching.blocking_r ≡ false)
              × (Batching.pull batching ≡ done (returned (clear_relax_q batching) 0 false)))
            ⊎ ((batching.paused ≡ false)
                × (items batching ≡ [])
                × (batching.blocking_r ≡ true)
                × (Batching.pull batching
                    ≡ done (
                        asleep (record (clear_relax_q batching) {
                          queue = record plain { cond_pred_r = false };
                        }))))))
pull_cases_example = pull_cases batching (omega arith) batching-IsWf

abbrev calls : List (Op Ptr)
calls =
    Op.collects 10
    ∷ Op.collects 20
    ∷ Op.commits false
    ∷ Op.casts 30
    ∷ Op.pulls
    ∷ Op.pulls
    ∷ Op.relaxes
    ∷ []

run-fresh_example :
    (t : Logged Ptr) × (Steps.run calls (fresh false) ≡ done t) × Inv (length calls) t
run-fresh_example = run-fresh false calls (omega arith)

abbrev blocking : Blocking Ptr
blocking = record {
  batching = record batching {
    queue = record plain { blocking_w = true };
    its_bq = wrap (10 ∷ []) false ∷ wrap (20 ∷ 30 ∷ []) false ∷ [];
  };
  deferred = [];
}

next_batch_waits_example :
    let g = Blocking.pull_and_batch_status false blocking in
    let again = Blocking.pull_and_batch_status false g.state in
    let released = Blocking.pull_and_batch_status false (Blocking.release_first g.state) in
    (g.item ≡ 10)
    × (g.end_batch ≡ true)
    × (g.success ≡ true)
    × (again.success ≡ false)
    × (again.state ≡ g.state)
    × (released.item ≡ 20)
    × (released.success ≡ true)
next_batch_waits_example =
    next_batch_waits blocking (wrap (10 ∷ []) false) (wrap (20 ∷ 30 ∷ []) false) [] 10 20 (30 ∷ [])
      refl refl refl refl refl

abbrev deferring : Blocking Ptr
deferring = record blocking { deferred = wrap [] false ∷ wrap [] false ∷ [] }

abbrev vector : List Ptr
vector = 40 ∷ 50 ∷ []
