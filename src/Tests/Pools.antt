-- ===== src/Tests/Pools.antt =====
-- CPPAFKThreadpool.cpp at concrete states.
use asyncflow_cpp.Common.{
  ◌%◌, ◌^◌, ◌<◌, undefined, false, ℕ, ◌/◌, ◌≡◌, ◌≢◌, ◌⊎◌, ◌==◌, if◌then◌else◌, refl, Bool, true,
  false, List, [], ◌∷◌, arith, length, All, Ptr, some, done,
}
use asyncflow_cpp.Registry.{find}
use asyncflow_cpp.ControlBlock
use asyncflow_cpp.Session
use asyncflow_cpp.Session.{Session}
use asyncflow_cpp.Pool.{Pool, Config, Range}
use asyncflow_cpp.Pool.Scheduling.{Threads, Choice, selects, cancelled, ranges_for, turn}
use asyncflow_cpp.Pool.Partition.{indexes, count_from, IsEven, ranges_for_partition}
use asyncflow_cpp.Pool.Turns.{IsRunning, Answers, Keeps, turn_lem}
use asyncflow_cpp.Pool.Counting
use asyncflow_cpp.Pool.Counting.{Counts, Op, step-Counts}
use asyncflow_cpp.Pool.Control.{resume_session, cancel_session, is_paused_session}
use asyncflow_cpp.Collector.Disposal.{IsCollector}
use asyncflow_cpp.Pool.Specification.{IsSound}
use asyncflow_cpp.Pool.Beginning
use asyncflow_cpp.Pool.Beginning.{new_lem}
use asyncflow_cpp.Pool.Lifecycle.{cancelled_unserved, IsAbsent, paused_dropped}
use asyncflow_cpp.Tests.Sessions.{session}
use asyncflow_cpp.Tests.Mixed.{collector}

abbrev many : Config
many = record { share = 0; residue = 0; actual_threads_count = 3; required_threads_count = 8 }

ranges_for_partition_example :
    (rs : List Range) × (ranges_for many ≡ done rs)
    × (length rs ≡ 3)
    × (indexes rs ≡ count_from 0 8)
    × All (IsEven (8 / 3)) rs
ranges_for_partition_example = ranges_for_partition many (omega arith) (omega arith)

-- The session at 500 is paused, that at 600 is to be cancelled, and the one at 700 neither.
abbrev store : Ptr → Session Bool
store a =
    if a == 500
    then record session { paused = true }
    else if a == 600
    then record session { cblk = record (session.cblk) { abort_by_caller = true } }
    else session

abbrev pub pool : Pool Bool
pool = record {
  store = store;
  online_sessions = 600 ∷ 500 ∷ 700 ∷ [];
  all_sessions = (1, 500) ∷ (2, 700) ∷ [];
  gc = collector;
  tpcfg = many;
  vect_proc2_bounds = [];
  num_cpus = 3;
  count_paused = 1;
}

pub pool-IsRunning : IsRunning pool
pool-IsRunning = record { some_cpu = omega arith; agree = refl }

turn_lem_example :
    (q : Pool Bool) × (s : ℕ) × (c : Choice) × (turn 2 0 pool ≡ done (q, s, c))
    × Answers 2 pool q c
    × Keeps pool q
turn_lem_example = turn_lem 2 0 pool pool-IsRunning

cancelled_unserved_example :
    let q = (cancel_session 2 pool).0 in
    (r : Pool Bool) × (s : ℕ) × (c : Choice) × (turn 2 0 q ≡ done (r, s, c))
    × (c ≢ selects 700)
    × (Session.cancellation_requested (r.store 700) ≡ true)
    × (Session.is_cancelled (r.store 700) ≡ Session.is_cancelled (pool.store 700))
cancelled_unserved_example = cancelled_unserved 2 2 0 700 pool pool-IsRunning refl

pub asked : Session.cancellation_requested (pool.store 600) ≡ true
unfolding Session.cancellation_requested ControlBlock.cancellation_requested
asked = refl

paused_dropped_example :
    (q : Pool Bool) × (s : ℕ) × (turn 0 0 pool ≡ done (q, s, cancelled 600))
    × (let r = (resume_session 1 q).0 in
        IsAbsent 500 r.online_sessions
        × (find 1 r.all_sessions ≡ some 500)
        × (is_paused_session 1 r ≡ false))
paused_dropped_example =
    paused_dropped 1 0 0 500 600 pool pool-IsRunning (λ e. absurd (ground (arith, e))) refl refl
      refl asked

pool-Counts : Counts pool
pool-Counts = record {
  distinct = (((λ e. ground (arith, e)), tt), (tt, tt));
  counted = refl;
  fits = omega arith;
}

fair : is_paused_session 2 pool ≡ false
unfolding is_paused_session
fair = refl

step-Counts_example : Counts (Counting.step (Op.pauses 2) pool)
step-Counts_example = step-Counts (Op.pauses 2) pool fair pool-Counts

new_lem_example :
    (8 % 2 ^ 16 ≡ 0) × (Beginning.new 8 many store ≡ undefined)
    ⊎ (0 < 8 % 2 ^ 16)
      × ((p : Pool Bool) × (t : Threads) × (Beginning.new 8 many store ≡ done (p, t))
          × (t.selectors ≡ count_from 0 8)
          × (t.shutdown_cont ≡ 8 % 2 ^ 16)
          × (p.num_cpus ≡ 8 % 2 ^ 16)
          × (p.tpcfg.actual_threads_count ≡ 8 % 2 ^ 16)
          × IsRunning p
          × IsSound p
          × IsCollector p.gc
          × ((p.gc.user_data_collection.its_q ≡ [])
              × (p.gc.wrapper_collection.its_q ≡ [])
              × (p.gc.killed_sessions.its_q ≡ []))
          × (p.gc.active ≡ false)
          × (p.online_sessions ≡ [])
          × (p.all_sessions ≡ []))
new_lem_example = new_lem 8 many store (omega arith)
