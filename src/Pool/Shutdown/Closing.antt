-- ===== src/Pool/Shutdown/Closing.antt =====
-- CPPAFKThreadpool.cpp: whichever way the threads interleave at shutdown, the last one closes.
use mathlib.Core.Path.{subst}
use asyncflow_cpp.Common.{
  ℕ, ◌<◌, zero, suc, ◌≡◌, ◌==◌, ◌∙◌, done-inj, ◌⊎◌, inl, inr, refl, sym, true, false, [], arith,
  Bool, Ptr, done, ◌>>=◌,
}
use asyncflow_cpp.Queue.{Queue}
use asyncflow_cpp.Collector.{Collector}
use asyncflow_cpp.Collector.Disposal.{IsPlain, IsCollector, dispose_all_lem, with_items}
use asyncflow_cpp.Pool.Shutdown.{
  State, Step, Reach, works, calls, create_threads, cont_mod, asks, waits, leaves, loads, closes,
  notifies, here, then, load_cont, close,
}
use asyncflow_cpp.Pool.Shutdown.Steps.{
  IsClosing, works-IsClosing, calls-IsClosing, create_threads-IsClosing, shutdown-IsClosing,
  wait-IsClosing, fetch_sub-IsClosing, notify_one-IsClosing,
}

pub zero-or-more : (n : ℕ) → (n ≡ 0) ⊎ ((r : ℕ) × (n ≡ suc r))
zero-or-more zero = inl refl
zero-or-more (suc n) = inr (n, refl)

emptied-IsPlain : {q : Queue Ptr} → IsPlain q → IsPlain (with_items q [])
emptied-IsPlain v = record {
  running = v.running;
  no_min = v.no_min;
  no_block = v.no_block;
  no_wait = v.no_wait;
}

load_cont-IsClosing :
    (l : ℕ) (s : State) → s.loading ≡ suc l → IsClosing s → IsClosing (load_cont l s)
unfolding load_cont
load_cont-IsClosing l s e v = elim (zero-or-more s.running) [
  | inl z ↦
      let zero_cont : (s.shutdown_cont == 0) ≡ true = ground (arith, v.counted, z) in
      rw (zero_cont, load_cont)
        (record {
          counted = v.counted;
          small = v.small;
          plain = v.plain;
          asked = v.asked;
          last = inl (omega arith);
          over = v.over;
          idle = inr z;
          heard = v.heard;
          back = v.back;
        })
  | inr (r, n) ↦
      let more : (s.shutdown_cont == 0) ≡ false = ground (arith, v.counted, n) in
      rw (more, load_cont)
        (record {
          counted = v.counted;
          small = v.small;
          plain = v.plain;
          asked = v.asked;
          last = inl (omega (arith, n));
          over = v.over;
          idle = v.idle;
          heard = inr (inr (omega arith));
          back = v.back;
        })
]

-- The state behind the section that closes.
abbrev pub closed : ℕ → State → State
closed k s = record s {
  shutdown_complete = true;
  gc = record s.gc {
    user_data_collection = with_items s.gc.user_data_collection [];
    wrapper_collection = with_items s.gc.wrapper_collection [];
    killed_sessions = with_items s.gc.killed_sessions [];
  };
  closing = k;
  notifying = suc s.notifying;
}

pub close-closed :
    (is_cancelled : Ptr → Bool) (k : ℕ) (s : State)
    → IsCollector s.gc
    → close is_cancelled k s ≡ done (closed k s)
unfolding close
close-closed is_cancelled k s v = rw (dispose_all_lem is_cancelled s.gc v, ◌>>=◌)

closed-IsClosing : (k : ℕ) (s : State) → s.closing ≡ suc k → IsClosing s → IsClosing (closed k s)
closed-IsClosing k s e v = record {
  counted = v.counted;
  small = v.small;
  plain = record {
    data_plain = emptied-IsPlain v.plain.data_plain;
    wrappers_plain = emptied-IsPlain v.plain.wrappers_plain;
    sessions_plain = emptied-IsPlain v.plain.sessions_plain;
  };
  asked = v.asked;
  last = inr refl;
  over = inr (stopped, record { no_data = refl; no_wrappers = refl; no_sessions = refl });
  idle = inr stopped;
  heard = inr (inr (omega arith));
  back = inr refl;
}
  where
    stopped : s.running ≡ 0
    stopped = elim v.idle [ inl z ↦ absurd (omega (arith, e, z)) | inr z ↦ z ]

Step-IsClosing :
    {is_cancelled : Ptr → Bool} {s t : State} → Step is_cancelled s t → IsClosing s → IsClosing t
Step-IsClosing {s = s} (works c e w) v = works-IsClosing s c e w v
Step-IsClosing {s = s} (calls c e w) v = calls-IsClosing s c e w v
Step-IsClosing {s = s} (asks e) v = shutdown-IsClosing s e v
Step-IsClosing {s = s} (waits e) v = wait-IsClosing s e v
Step-IsClosing {s = s} (leaves {r} a e) v = fetch_sub-IsClosing r s a e v
Step-IsClosing {s = s} (loads {l} e) v = load_cont-IsClosing l s e v
Step-IsClosing {is_cancelled} {s} (closes {k} e c) v =
    let same = done-inj (closed k s) _ (sym (close-closed is_cancelled k s v.plain) ∙ c) in
    subst IsClosing same (closed-IsClosing k s e v)
Step-IsClosing {s = s} (notifies {k} e) v = notify_one-IsClosing k s e v

run-IsClosing :
    {is_cancelled : Ptr → Bool} {s t : State} → Reach is_cancelled s t → IsClosing s → IsClosing t
run-IsClosing here v = v
run-IsClosing (then r st) v = Step-IsClosing st (run-IsClosing r v)

-- In every state that a pool of 1 to 65535 threads, with a collector that can be emptied, gets to,
-- by steps of its threads, of one caller of `shutdown` and, until the shutdown is complete, of
-- callers that give the collector something, in any order: `shutdownCont` counts the threads in
-- their loop; a thread is left that will close until that is done; once it is done, no thread is in
-- its loop and the collector is empty; and a caller that sleeps then is still to be notified.
pub Reach-IsClosing :
    {is_cancelled : Ptr → Bool} (n : ℕ) (gc : Collector) (s : State)
    → 0 < n
    → n < cont_mod
    → IsCollector gc
    → Reach is_cancelled (create_threads n gc) s
    → IsClosing s
Reach-IsClosing n gc s p h c r = run-IsClosing r (create_threads-IsClosing n gc p h c)
