-- ===== src/Tests/Workers.antt =====
-- CPPAFKThreadpool.cpp, tworker, at the pool of Pools.
use asyncflow_cpp.Common.{ℕ, ◌≡◌, refl, Bool, List, [], ◌∷◌, ◌++◌, Ptr, Outcome, done}
use asyncflow_cpp.Queue
use asyncflow_cpp.Collector
use asyncflow_cpp.ControlBlock
use asyncflow_cpp.Pool.Scheduling
use asyncflow_cpp.Session
use asyncflow_cpp.Pool.{Pool}
use asyncflow_cpp.Pool.Worker.{
  Setting, Works, rests, works, disposes, calls, cancels, looks, serves, chosen, serve_chosen,
  clean_up,
}
use asyncflow_cpp.Pool.Scheduling.{Choice, idle, turn}
use asyncflow_cpp.Pool.Lifecycle.{IsAbsent}
use asyncflow_cpp.Pool.Leaks.{Works-IsForgotten, IsForgotten}
use asyncflow_cpp.Composing.Select.{select, wake_up, rounds, round, take_routines}
use asyncflow_cpp.Pool.Control.{collect, cancel_session}
use asyncflow_cpp.Tests.Sessions.{garbage}
use asyncflow_cpp.Tests.Turns.{code}
use asyncflow_cpp.Tests.Pools.{pool, pool-IsRunning, asked}

abbrev pub setting : Setting Bool
setting = record { code = code; garbage = garbage; fuel = 10; address = λ w. 0 }

-- What a part of a round leaves, where it comes back.
abbrev pool_of : Outcome (Pool Bool) → Pool Bool
pool_of (done r) = r
pool_of _ = pool

abbrev cleaned : Outcome (Pool Bool × List Ptr) → Pool Bool × List Ptr
cleaned (done r) = r
cleaned _ = (pool, [])

abbrev disposed : Pool Bool × List Ptr
disposed = cleaned (clean_up pool)

cleaning : clean_up pool ≡ done (disposed.0, disposed.1)
unfolding clean_up Collector.dispose Collector.release_batch Queue.pull
cleaning = refl

abbrev looked : Outcome (Pool Bool × ℕ × Choice) → Pool Bool × ℕ × Choice
looked (done r) = r
looked _ = (pool, 0, idle)

-- A worker chooses the session at 700.
abbrev next : Pool Bool × ℕ × Choice
next = looked (turn 2 0 disposed.0)

first_look : turn 2 0 disposed.0 ≡ done (next.0, next.1, next.2)
unfolding Scheduling.turn Session.cancellation_requested ControlBlock.cancellation_requested
    clean_up Collector.dispose Collector.release_batch Queue.pull
first_look = refl

-- Before it serves that, another one chooses at the cancelled one.
abbrev then_next : Pool Bool × ℕ × Choice
then_next = looked (turn 0 0 next.0)

second_look : turn 0 0 next.0 ≡ done (then_next.0, then_next.1, then_next.2)
unfolding Scheduling.turn Session.cancellation_requested ControlBlock.cancellation_requested
    clean_up Collector.dispose Collector.release_batch Queue.pull
second_look = refl

abbrev after_turn : Pool Bool
after_turn = pool_of (serve_chosen setting 700 then_next.0)

serving : serve_chosen setting 700 then_next.0 ≡ done after_turn
unfolding serve_chosen Scheduling.turn Session.cancellation_requested
    ControlBlock.cancellation_requested select wake_up rounds round take_routines collect clean_up
    Collector.dispose Collector.release_batch Queue.pull
serving = refl

pool-IsForgotten : IsForgotten 600 (record { pool = pool; waiting = [] })
pool-IsForgotten = (record { asked = asked; unmarked = refl; running = pool-IsRunning }, tt)

waiting_one : ([] ++ chosen next.2) ++ chosen then_next.2 ≡ [] ++ 700 ∷ []
unfolding chosen Scheduling.turn Session.cancellation_requested ControlBlock.cancellation_requested
    clean_up Collector.dispose Collector.release_batch Queue.pull
waiting_one = refl

interleaved :
    Works setting
      (record { pool = pool; waiting = [] })
      ((((([] ++ disposed.1) ++ []) ++ []) ++ []) ++ [])
      (record { pool = (cancel_session 2 after_turn).0; waiting = [] ++ [] })
interleaved =
    works
      (works
        (works (works (works rests (disposes cleaning)) (looks 2 0 next.1 first_look))
          (looks 0 0 then_next.1 second_look))
        (serves 700 [] [] waiting_one serving))
      (calls (cancels 2))

Works-IsForgotten_example :
    IsAbsent 600 ((((([] ++ disposed.1) ++ []) ++ []) ++ []) ++ [])
    × IsForgotten 600 (record { pool = (cancel_session 2 after_turn).0; waiting = [] ++ [] })
Works-IsForgotten_example =
    Works-IsForgotten setting 600 (record { pool = pool; waiting = [] })
      (record { pool = (cancel_session 2 after_turn).0; waiting = [] ++ [] })
      ((((([] ++ disposed.1) ++ []) ++ []) ++ []) ++ []) pool-IsForgotten interleaved
