-- ===== src/Pool/Shutdown.antt =====
-- CPPAFKThreadpool.cpp: `_shutdown` and the end of `tworker`. An atomic access, and a section under
-- `cvmutexTsh`, is one step; between two of them any other thread may run. Worker threads are
-- counted by how far they have come. One thread calls `shutdown`, once; other callers call nothing any
-- more once the shutdown is complete.
pub mod Steps
pub mod Closing
pub mod Returning
use asyncflow_cpp.Common.{
  ℕ, zero, suc, ◌+◌, ◌%◌, ◌≡◌, ◌==◌, Bool, true, false, if◌then◌else◌, Ptr, Outcome, done, ◌>>=◌,
}
use asyncflow_cpp.Collector
use asyncflow_cpp.Collector.{Collector}
use asyncflow_cpp.Collector.Disposal.{IsCollector}

-- `shutdownCont` has 16 bits.
abbrev pub cont_mod : ℕ
cont_mod = 65536

-- The thread that calls `shutdown`: it is to test `shutdownComplete`, sleeps, or is back.
pub data Caller : Type 0 where
  outside checking asleep returned : Caller

-- Threads in their loop, behind `fetch_sub`, before the section that closes, before `notify_one`.
pub record State : Type 0 where
  pub shutdown_cont : ℕ
  pub to_shutdown : Bool
  pub shutdown_complete : Bool
  pub gc : Collector
  pub caller : Caller
  pub running : ℕ
  pub loading : ℕ
  pub closing : ℕ
  pub notifying : ℕ

-- The constructor is done before `shutdown` can be called, so that each thread is counted by then.
-- `n` is what `hardware_concurrency` answers, where that is not 0.
unfoldable pub create_threads : ℕ → Collector → State
create_threads n gc = record {
  shutdown_cont = n % cont_mod;
  to_shutdown = false;
  shutdown_complete = false;
  gc = gc;
  caller = outside;
  running = n;
  loading = 0;
  closing = 0;
  notifying = 0;
}

unfoldable pub shutdown : State → State
shutdown s = record s { to_shutdown = true; caller = checking }

-- The predicate of `cvTsh.wait`, under the lock.
unfoldable pub wait : State → State
wait s = record s { caller = if s.shutdown_complete then returned else asleep }

-- The thread leaves its loop; `r` threads stay.
unfoldable pub fetch_sub : ℕ → State → State
fetch_sub r s = record s {
  shutdown_cont = (s.shutdown_cont + 65535) % cont_mod;
  running = r;
  loading = suc s.loading;
}

unfoldable pub load_cont : ℕ → State → State
load_cont l s =
    if s.shutdown_cont == 0
    then record s { loading = l; closing = suc s.closing }
    else record s { loading = l; notifying = suc s.notifying }

unfoldable pub close : (Ptr → Bool) → ℕ → State → Outcome State
close is_cancelled k s = do
  d ← Collector.dispose_all is_cancelled s.gc
  done (record s {
    shutdown_complete = true;
    gc = d.collector;
    closing = k;
    notifying = suc s.notifying;
  })

abbrev pub wake : Caller → Caller
wake outside = outside
wake checking = checking
wake asleep = checking
wake returned = returned

unfoldable pub notify_one : ℕ → State → State
notify_one k s = record s { caller = wake s.caller; notifying = k }

-- One step of one thread. While a thread is in its loop, and while callers flush or cancel sessions, the
-- collector may get anything.
pub data Step (is_cancelled : Ptr → Bool) (s : State) : State → Type 0 where
  works :
      {r : ℕ} (c : Collector)
      → s.running ≡ suc r
      → IsCollector c
      → Step is_cancelled s (record s { gc = c })
  calls :
      (c : Collector)
      → s.shutdown_complete ≡ false
      → IsCollector c
      → Step is_cancelled s (record s { gc = c })
  asks : s.caller ≡ outside → Step is_cancelled s (shutdown s)
  waits : s.caller ≡ checking → Step is_cancelled s (wait s)
  leaves : {r : ℕ} → s.to_shutdown ≡ true → s.running ≡ suc r → Step is_cancelled s (fetch_sub r s)
  loads : {l : ℕ} → s.loading ≡ suc l → Step is_cancelled s (load_cont l s)
  closes :
      {k : ℕ} {t : State}
      → s.closing ≡ suc k
      → close is_cancelled k s ≡ done t
      → Step is_cancelled s t
  notifies : {k : ℕ} → s.notifying ≡ suc k → Step is_cancelled s (notify_one k s)

pub data Reach (is_cancelled : Ptr → Bool) (s : State) : State → Type 0 where
  here : Reach is_cancelled s s
  then : {t u : State} → Reach is_cancelled s t → Step is_cancelled t u → Reach is_cancelled s u
