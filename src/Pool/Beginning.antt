-- ===== src/Pool/Beginning.antt =====
-- CPPAFKThreadpool.cpp and .hpp: the pool's constructor, with that of its state.
use asyncflow_cpp.Common.{
  ℕ, zero, suc, ◌+◌, List, ◌∷◌, ◌++◌, sym, ◌∙◌, append-nil, append_assoc, ◌<◌, ◌≡◌, ◌⊎◌, ◌%◌, ◌/◌,
  ◌^◌, inl, inr, refl, Bool, true, false, [], arith, Ptr, Outcome, done, undefined, ◌>>=◌,
  uint64_max,
}
use native.Mathlib.Decide.{ℕ_discrete}
use asyncflow_cpp.Queue
use asyncflow_cpp.Collector
use asyncflow_cpp.Collector.{Collector}
use asyncflow_cpp.Collector.Disposal.{IsCollector}
use asyncflow_cpp.Session.{Session}
use asyncflow_cpp.Pool.{Pool, Config}
use asyncflow_cpp.Pool.Scheduling.{Threads, start_threads, create_threads, reassign_procs}
use asyncflow_cpp.Pool.Partition.{count_from}
use asyncflow_cpp.Pool.Specification.{IsSound}
use asyncflow_cpp.Pool.Turns.{IsRunning}

start_threads_lem :
    (n i : ℕ) (is : List ℕ) (k : ℕ)
    → let t = start_threads n i (record { selectors = is; shutdown_cont = k }) in
      (t.selectors ≡ is ++ count_from i n) × (k < 2 ^ 16 → t.shutdown_cont ≡ (k + n) % 2 ^ 16)
unfolding start_threads
start_threads_lem zero i is k = (sym (append-nil is), λ lt. omega (arith, lt))
start_threads_lem (suc n) i is k =
    let (numbered, counted) = start_threads_lem n (suc i) (is ++ i ∷ []) ((k + 1) % 2 ^ 16) in
    (
      numbered ∙ append_assoc is (i ∷ []) (count_from (suc i) n),
      λ lt. counted (omega arith) ∙ omega arith,
    )

module _ {C : Type 0} where
  -- `tpcfg` is what the memory held, and so is the store of sessions.
  unfoldable pub new_state : Config → (Ptr → Session C) → Pool C
  unfolding Collector.new
  new_state garbage store = record {
    store = store;
    online_sessions = [];
    all_sessions = [];
    gc = Collector.new;
    tpcfg = garbage;
    vect_proc2_bounds = [];
    num_cpus = 1;
    count_paused = 0;
  }

  -- `hardware` is std::thread::hardware_concurrency(). With the threads that run.
  unfoldable pub new : ℕ → Config → (Ptr → Session C) → Outcome (Pool C × Threads)
  unfolding new_state create_threads
  new hardware garbage store = create_threads hardware uint64_max 0 (new_state garbage store)

  -- The destructor of the state; the sessions and the collector's queues are left as they are.
  pub destroy_state : Pool C → Pool C
  destroy_state p = record p { online_sessions = []; all_sessions = []; vect_proc2_bounds = [] }

  -- The callback that a worker passes to `select`, which does not call it.
  pub clb_main : ℕ → Pool C → Outcome (Pool C × Bool)
  unfolding reassign_procs
  clb_main session_id p = do
    q ← reassign_procs p.tpcfg p.tpcfg.actual_threads_count p
    done (q, true)

  -- Where `hardware_concurrency` answers with a 32-bit number, the constructor leaves defined
  -- behaviour exactly where the lower 16 bits of that number are 0. Otherwise it starts as many threads
  -- as the number says, each with its own index; but `numCPUs`, the configured count and `shutdownCont`
  -- are the lower 16 bits, which is less than the number of threads from 65536 on. The pool agrees with
  -- what a worker's turn relies on; it has no session, so that none is registered twice, and its
  -- collector has three empty queues from which items can be taken.
  pub new_lem :
      (hardware : ℕ) (garbage : Config) (store : Ptr → Session C)
      → hardware < 2 ^ 32
      → (hardware % 2 ^ 16 ≡ 0) × (new hardware garbage store ≡ undefined)
        ⊎ (0 < hardware % 2 ^ 16)
          × ((p : Pool C) × (t : Threads) × (new hardware garbage store ≡ done (p, t))
              × (t.selectors ≡ count_from 0 hardware)
              × (t.shutdown_cont ≡ hardware % 2 ^ 16)
              × (p.num_cpus ≡ hardware % 2 ^ 16)
              × (p.tpcfg.actual_threads_count ≡ hardware % 2 ^ 16)
              × IsRunning p
              × IsSound p
              × IsCollector p.gc
              × ((p.gc.user_data_collection.its_q ≡ [])
                  × (p.gc.wrapper_collection.its_q ≡ [])
                  × (p.gc.killed_sessions.its_q ≡ []))
              × (p.gc.active ≡ false)
              × (p.online_sessions ≡ [])
              × (p.all_sessions ≡ []))
  unfolding new create_threads new_state Collector.new Queue.new
  new_lem hardware garbage store small = elim (ℕ_discrete (hardware % 2 ^ 16) 0) [
    | yes z ↦ inl (z, ground (arith, z))
    | no nz ↦
        let (numbered, counted) = start_threads_lem hardware 0 [] 0 in
        inr (
          omega (arith, nz),
          (
            begun,
            started,
            ground (arith, nz, small),
            numbered,
            counted (omega arith) ∙ omega arith,
            refl,
            refl,
            record { some_cpu = omega (arith, nz); agree = refl },
            record { distinct = tt; keyed = tt },
            record {
              data_plain = record {
                running = refl;
                no_min = refl;
                no_block = refl;
                no_wait = refl;
              };
              wrappers_plain = record {
                running = refl;
                no_min = refl;
                no_block = refl;
                no_wait = refl;
              };
              sessions_plain = record {
                running = refl;
                no_min = refl;
                no_block = refl;
                no_wait = refl;
              };
            },
            (refl, refl, refl),
            refl,
            refl,
            refl,
          ),
        )
  ]
    where
      n : ℕ
      n = hardware % 2 ^ 16

      started : Threads
      started = start_threads hardware 0 (record { selectors = []; shutdown_cont = 0 })

      begun : Pool C
      begun = record (new_state garbage store) {
        num_cpus = n;
        tpcfg = record {
          actual_threads_count = n;
          required_threads_count = n;
          residue = n % n;
          share = n / n;
        };
      }
