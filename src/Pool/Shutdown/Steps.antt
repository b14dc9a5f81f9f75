-- ===== src/Pool/Shutdown/Steps.antt =====
-- CPPAFKThreadpool.cpp: what holds between the steps of a shutdown.
use asyncflow_cpp.Common.{
  ℕ, suc, ◌+◌, ◌<◌, ◌≡◌, ◌≢◌, ◌⊎◌, inl, inr, refl, ap, true, false, [], arith, Bool-cases,
}
use asyncflow_cpp.Collector.{Collector}
use asyncflow_cpp.Collector.Disposal.{IsCollector}
use asyncflow_cpp.Pool.Shutdown.{
  State, Caller, outside, checking, asleep, returned, create_threads, shutdown, wait, fetch_sub,
  wake, notify_one, cont_mod,
}

-- Nothing is left to be deleted.
pub record IsEmptied (c : Collector) : Type 0 where
  pub no_data : c.user_data_collection.its_q ≡ []
  pub no_wrappers : c.wrapper_collection.its_q ≡ []
  pub no_sessions : c.killed_sessions.its_q ≡ []

-- The counter counts the threads in their loop; one that will close is left until it is complete;
-- complete, no thread is in its loop and the collector is empty; a sleeper will be notified.
pub record IsClosing (s : State) : Type 0 where
  pub counted : s.shutdown_cont ≡ s.running
  pub small : s.running < cont_mod
  pub plain : IsCollector s.gc
  pub asked : (s.caller ≡ outside) ⊎ (s.to_shutdown ≡ true)
  pub last : (0 < s.running + s.loading + s.closing) ⊎ (s.shutdown_complete ≡ true)
  pub over : (s.shutdown_complete ≡ false) ⊎ ((s.running ≡ 0) × IsEmptied s.gc)
  pub idle : (s.closing ≡ 0) ⊎ (s.running ≡ 0)
  pub heard : (s.caller ≢ asleep) ⊎ ((s.shutdown_complete ≡ false) ⊎ (0 < s.notifying))
  pub back : (s.caller ≢ returned) ⊎ (s.shutdown_complete ≡ true)

pub create_threads-IsClosing :
    (n : ℕ) (gc : Collector)
    → 0 < n
    → n < cont_mod
    → IsCollector gc
    → IsClosing (create_threads n gc)
unfolding create_threads
create_threads-IsClosing n gc p h v = record {
  counted = omega (arith, h);
  small = h;
  plain = v;
  asked = inl refl;
  last = inl (omega (arith, p));
  over = inl refl;
  idle = inl refl;
  heard = inl (λ e. absurd (ground (arith, e)));
  back = inl (λ e. absurd (ground (arith, e)));
}

pub works-IsClosing :
    {r : ℕ} (s : State) (c : Collector)
    → s.running ≡ suc r
    → IsCollector c
    → IsClosing s
    → IsClosing (record s { gc = c })
works-IsClosing s c e w v = record {
  counted = v.counted;
  small = v.small;
  plain = w;
  asked = v.asked;
  last = v.last;
  over = elim v.over [ inl n ↦ inl n | inr (z, _) ↦ absurd (omega (arith, e, z)) ];
  idle = v.idle;
  heard = v.heard;
  back = v.back;
}

pub calls-IsClosing :
    (s : State) (c : Collector)
    → s.shutdown_complete ≡ false
    → IsCollector c
    → IsClosing s
    → IsClosing (record s { gc = c })
calls-IsClosing s c e w v = record {
  counted = v.counted;
  small = v.small;
  plain = w;
  asked = v.asked;
  last = v.last;
  over = inl e;
  idle = v.idle;
  heard = v.heard;
  back = v.back;
}

pub shutdown-IsClosing : (s : State) → s.caller ≡ outside → IsClosing s → IsClosing (shutdown s)
unfolding shutdown
shutdown-IsClosing s e v = record {
  counted = v.counted;
  small = v.small;
  plain = v.plain;
  asked = inr refl;
  last = v.last;
  over = v.over;
  idle = v.idle;
  heard = inl (λ e. absurd (ground (arith, e)));
  back = inl (λ e. absurd (ground (arith, e)));
}

pub wait-IsClosing : (s : State) → s.caller ≡ checking → IsClosing s → IsClosing (wait s)
unfolding wait
wait-IsClosing s e v = record {
  counted = v.counted;
  small = v.small;
  plain = v.plain;
  asked = ground (arith, v.asked, e);
  last = v.last;
  over = v.over;
  idle = v.idle;
  heard = elim (Bool-cases s.shutdown_complete) [
    | inl t ↦ inl (λ h. absurd (ground (arith, t, h)))
    | inr f ↦ inr (inl f)
  ];
  back = elim (Bool-cases s.shutdown_complete) [
    | inl t ↦ inr t
    | inr f ↦ inl (λ h. absurd (ground (arith, f, h)))
  ];
}

pub fetch_sub-IsClosing :
    (r : ℕ) (s : State)
    → s.to_shutdown ≡ true
    → s.running ≡ suc r
    → IsClosing s
    → IsClosing (fetch_sub r s)
unfolding fetch_sub
fetch_sub-IsClosing r s a e v = record {
  counted = omega (arith, v.counted, v.small, e);
  small = omega (arith, v.small, e);
  plain = v.plain;
  asked = inr a;
  last = inl (omega arith);
  over = elim v.over [ inl n ↦ inl n | inr (z, _) ↦ absurd (omega (arith, e, z)) ];
  idle = elim v.idle [ inl z ↦ inl z | inr z ↦ absurd (omega (arith, e, z)) ];
  heard = v.heard;
  back = v.back;
}

pub notify_one-IsClosing :
    (k : ℕ) (s : State) → s.notifying ≡ suc k → IsClosing s → IsClosing (notify_one k s)
unfolding notify_one
notify_one-IsClosing k s e v = record {
  counted = v.counted;
  small = v.small;
  plain = v.plain;
  asked = elim v.asked [ inl o ↦ inl (ap wake o) | inr a ↦ inr a ];
  last = v.last;
  over = v.over;
  idle = v.idle;
  heard = inl (wake-awake s.caller);
  back = elim v.back [ inl n ↦ inl (λ h. n (wake-returned s.caller h)) | inr t ↦ inr t ];
}
  where
    wake-awake : (c : Caller) → wake c ≢ asleep
    wake-awake outside h = absurd (ground (arith, h))
    wake-awake checking h = absurd (ground (arith, h))
    wake-awake asleep h = absurd (ground (arith, h))
    wake-awake returned h = absurd (ground (arith, h))

    wake-returned : (c : Caller) → wake c ≡ returned → c ≡ returned
    wake-returned outside h = absurd (ground (arith, h))
    wake-returned checking h = absurd (ground (arith, h))
    wake-returned asleep h = absurd (ground (arith, h))
    wake-returned returned h = refl
