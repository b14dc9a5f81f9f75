-- ===== src/Tests/Endings.antt =====
-- CPPAFKThreadpool.cpp, the shutdown of a pool of two threads.
use asyncflow_cpp.Common.{◌≡◌, ◌⊎◌, refl, true, arith, Bool, Ptr}
use asyncflow_cpp.Queue
use asyncflow_cpp.Collector
use asyncflow_cpp.Collector.{Collector}
use asyncflow_cpp.Collector.Disposal.{IsCollector}
use asyncflow_cpp.Pool.Shutdown
use asyncflow_cpp.Pool.Shutdown.{
  State, Step, Reach, here, then, asks, waits, leaves, loads, create_threads, shutdown, wait,
  fetch_sub, load_cont,
}
use asyncflow_cpp.Pool.Shutdown.Steps.{IsClosing}
use asyncflow_cpp.Pool.Shutdown.Closing.{Reach-IsClosing}
use asyncflow_cpp.Pool.Shutdown.Returning.{IsOver, Advances, shutdown_returns}

abbrev every : Ptr → Bool
every p = true

new-IsCollector : IsCollector Collector.new
unfolding Collector.new Queue.new
new-IsCollector = record {
  data_plain = record { running = refl; no_min = refl; no_block = refl; no_wait = refl };
  wrappers_plain = record { running = refl; no_min = refl; no_block = refl; no_wait = refl };
  sessions_plain = record { running = refl; no_min = refl; no_block = refl; no_wait = refl };
}

abbrev two_threads : State
two_threads = create_threads 2 Collector.new

-- The caller asks and sleeps, and both threads leave their loops before either looks at the counter:
-- both will close.
abbrev ending : State
ending = load_cont 0 (load_cont 1 (fetch_sub 0 (fetch_sub 1 (wait (shutdown two_threads)))))

ending-Reach : Reach every two_threads ending
unfolding create_threads shutdown wait fetch_sub load_cont
ending-Reach =
    then
      (then
        (then (then (then (then here (asks refl)) (waits refl)) (leaves refl refl))
          (leaves refl refl))
        (loads refl))
      (loads refl)

both_close : (ending.closing ≡ 2) × (ending.caller ≡ Shutdown.asleep)
unfolding create_threads shutdown wait fetch_sub load_cont
both_close = (refl, refl)

Reach-IsClosing_example : IsClosing ending
Reach-IsClosing_example =
    Reach-IsClosing 2 Collector.new ending (omega arith) (omega arith) new-IsCollector ending-Reach

shutdown_returns_example : IsOver ending ⊎ Advances every ending
unfolding create_threads shutdown wait fetch_sub load_cont
shutdown_returns_example =
    shutdown_returns 2 Collector.new ending (omega arith) (omega arith) new-IsCollector ending-Reach
      (λ e. absurd (ground (arith, e)))
