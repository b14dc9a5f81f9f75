-- ===== src/Tests/Races.antt =====
-- CPPAFKThreadpool.cpp: a pool with the session of Turns, which is cancelled between a choice and a turn.
use mathlib.Core.List.{Mem}
use asyncflow_cpp.Common.{ℕ, ◌≡◌, refl, Bool, [], ◌∷◌, List, Ptr, arith, done}
use asyncflow_cpp.ControlBlock
use asyncflow_cpp.Session
use asyncflow_cpp.Pool.{Pool}
use asyncflow_cpp.Pool.Scheduling.{selects, cancelled, turn}
use asyncflow_cpp.Pool.Control.{cancel_session}
use asyncflow_cpp.Pool.Worker.{clean_up, serve_session}
use asyncflow_cpp.Pool.Dooming.{IsCancellable}
use asyncflow_cpp.Pool.Dangling.{IsChosen, cancelled_dangles}
use asyncflow_cpp.Tests.Mixed.{hybrid, hybrid-IsOrdered, collector-IsCollector}
use asyncflow_cpp.Tests.Turns.{at_work}
use asyncflow_cpp.Tests.Pools.{pool}
use asyncflow_cpp.Tests.Workers.{setting}

abbrev busy : Pool Bool
busy = record pool {
  store = λ a. at_work;
  online_sessions = 700 ∷ [];
  all_sessions = (2, 700) ∷ [];
}

busy-IsCancellable : IsCancellable 5 2 700 hybrid busy
busy-IsCancellable = record {
  running = record { some_cpu = omega arith; agree = refl };
  registered = refl;
  not_paused = refl;
  not_stopped = refl;
  first_nil = refl;
  queues = record {
    one_queue = refl;
    ordered = hybrid-IsOrdered;
    free = refl;
    data_items = ground arith;
    paired = refl;
    zero_free = refl;
    zero_items = tt;
  };
  plain = collector-IsCollector;
  nobody = refl;
  few = omega arith;
  room = record { room = omega arith; bounded = omega arith };
}

busy-IsChosen : IsChosen 5 2 0 700 hybrid busy
unfolding Session.cancellation_requested ControlBlock.cancellation_requested
busy-IsChosen = record {
  counted = λ e. ground (arith, e);
  listed = refl;
  not_asked = refl;
  cancellable = busy-IsCancellable;
}

cancelled_dangles_example :
    (q : Pool Bool) × (s : ℕ) × (turn 0 0 busy ≡ done (q, s, selects 700))
    × ((r : Pool Bool) × (serve_session setting 700 (cancel_session 2 q).0 ≡ done r)
        × ((m : Pool Bool) × (freed : List Ptr) × (clean_up r ≡ done (m, freed))
            × Mem 700 freed
            × ((t : Pool Bool) × (k : ℕ) × (turn 0 s m ≡ done (t, k, cancelled 700)))))
cancelled_dangles_example =
    cancelled_dangles setting 2 0 0 700 busy hybrid (omega arith) busy-IsChosen
