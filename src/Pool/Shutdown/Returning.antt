-- ===== src/Pool/Shutdown/Returning.antt =====
-- CPPAFKThreadpool.cpp, `_shutdown`: it comes back, and what is done by then.
use asyncflow_cpp.Common.{
  ℕ, suc, ◌+◌, ◌*◌, ◌<◌, ◌≡◌, ◌≢◌, ◌==◌, ◌⊎◌, inl, inr, refl, ap, true, arith, Bool, Ptr,
  Bool-cases,
}
use asyncflow_cpp.Collector.{Collector}
use asyncflow_cpp.Collector.Disposal.{IsCollector}
use asyncflow_cpp.Pool.Shutdown.{
  State, Caller, outside, checking, asleep, returned, Step, Reach, waits, leaves, loads, closes,
  notifies, create_threads, wait, fetch_sub, load_cont, wake, notify_one, cont_mod,
}
use asyncflow_cpp.Pool.Shutdown.Steps.{IsEmptied, IsClosing}
use asyncflow_cpp.Pool.Shutdown.Closing.{closed, close-closed, Reach-IsClosing, zero-or-more}

abbrev weight : Caller → ℕ
weight outside = 3
weight checking = 2
weight asleep = 1
weight returned = 0

-- Bounds the steps to come.
abbrev pub measure : State → ℕ
measure s = 5 * s.running + 4 * s.loading + 3 * s.closing + 2 * s.notifying + weight s.caller

-- A step of one thread towards the end.
abbrev pub Advances : (Ptr → Bool) → State → Type 0
Advances is_cancelled s = (t : State) × Step is_cancelled s t × measure t < measure s

advance_notify : {m : Ptr → Bool} (s : State) (k : ℕ) → s.notifying ≡ suc k → Advances m s
unfolding notify_one
advance_notify s k e = (notify_one k s, notifies e, omega (arith, e, weight-wake s.caller))
  where
    weight-wake : (c : Caller) → weight (wake c) < suc (suc (weight c))
    weight-wake outside = omega arith
    weight-wake checking = omega arith
    weight-wake asleep = omega arith
    weight-wake returned = omega arith

advance_close :
    {m : Ptr → Bool} (s : State) (k : ℕ) → s.closing ≡ suc k → IsClosing s → Advances m s
advance_close {m} s k e v = (closed k s, closes e (close-closed m k s v.plain), omega (arith, e))

advance_load : {m : Ptr → Bool} (s : State) (l : ℕ) → s.loading ≡ suc l → Advances m s
unfolding load_cont
advance_load s l e = (load_cont l s, loads e, shorter)
  where
    shorter : measure (load_cont l s) < measure s
    shorter = elim (Bool-cases (s.shutdown_cont == 0)) [
      | inl t ↦ rw (t, load_cont) (omega (arith, e))
      | inr f ↦ rw (f, load_cont) (omega (arith, e))
    ]

advance_leave :
    {m : Ptr → Bool} (s : State) (r : ℕ) → s.to_shutdown ≡ true → s.running ≡ suc r → Advances m s
unfolding fetch_sub
advance_leave s r a e = (fetch_sub r s, leaves a e, omega (arith, e))

advance_wait : {m : Ptr → Bool} (s : State) → s.caller ≡ checking → Advances m s
unfolding wait
advance_wait s e = (wait s, waits e, shorter)
  where
    shorter : measure (wait s) < measure s
    shorter = elim (Bool-cases s.shutdown_complete) [
      | inl t ↦ rw (t, wait) (omega (arith, ap weight e))
      | inr f ↦ rw (f, wait) (omega (arith, ap weight e))
    ]

advance_running :
    {m : Ptr → Bool} (s : State)
    → s.to_shutdown ≡ true
    → IsClosing s
    → Advances m s ⊎ ((s.running ≡ 0) × (s.loading ≡ 0) × (s.closing ≡ 0) × (s.notifying ≡ 0))
advance_running s a v = elim (zero-or-more s.running) [
  | inr (r, e) ↦ inl (advance_leave s r a e)
  | inl z ↦ elim (zero-or-more s.loading) [
    | inr (l, e) ↦ inl (advance_load s l e)
    | inl y ↦ elim (zero-or-more s.closing) [
      | inr (k, e) ↦ inl (advance_close s k e v)
      | inl x ↦ elim (zero-or-more s.notifying) [
        | inr (k, e) ↦ inl (advance_notify s k e)
        | inl w ↦ inr (z, y, x, w)
      ]
    ]
  ]
]

-- What `shutdown` promises its caller.
abbrev pub IsOver : State → Type 0
IsOver s = (s.caller ≡ returned) × (s.shutdown_complete ≡ true) × (s.running ≡ 0) × IsEmptied s.gc

over_lem : (s : State) → s.shutdown_complete ≡ true → IsClosing s → (s.running ≡ 0) × IsEmptied s.gc
over_lem s t v = elim v.over [ inl f ↦ absurd (ground (arith, t, f)) | inr o ↦ o ]

-- However the threads of a pool of 1 to 65535 threads and its callers, who call nothing else once the
-- shutdown is complete, interleave, once `shutdown` was called it is
-- either back, and then no thread is in its loop and the collector is empty; or some thread can
-- take a step by which fewer steps are left.
pub shutdown_returns :
    {is_cancelled : Ptr → Bool} (n : ℕ) (gc : Collector) (s : State)
    → 0 < n
    → n < cont_mod
    → IsCollector gc
    → Reach is_cancelled (create_threads n gc) s
    → s.caller ≢ outside
    → IsOver s ⊎ Advances is_cancelled s
shutdown_returns {is_cancelled} n gc s p h c r called = go s.caller refl
  where
    v : IsClosing s
    v = Reach-IsClosing n gc s p h c r

    asked : s.to_shutdown ≡ true
    asked = elim v.asked [ inl o ↦ absurd (called o) | inr a ↦ a ]

    go : (w : Caller) → s.caller ≡ w → IsOver s ⊎ Advances is_cancelled s
    go outside e = absurd (called e)
    go checking e = inr (advance_wait s e)
    go returned e =
        let complete : s.shutdown_complete ≡ true = elim v.back [
          | inl n ↦ absurd (n e)
          | inr t ↦ t
        ] in
        let (stopped, emptied) = over_lem s complete v in inl (e, complete, stopped, emptied)
    go asleep e = elim (advance_running s asked v) [
      | inl a ↦ inr a
      | inr (z, y, x, w) ↦ absurd (elim v.last [
        | inl some ↦ omega (arith, some, z, y, x)
        | inr t ↦ elim v.heard [
          | inl not_asleep ↦ not_asleep e
          | inr (inl f) ↦ ground (arith, t, f)
          | inr (inr more) ↦ omega (arith, more, w)
        ]
      ])
    ]
