-- ===== src/Pool/Cleaning.antt =====
-- CPPAFKThreadpool.cpp, threadFunc: a worker that lets the collector dispose.
use mathlib.Core.Path.{subst}
use asyncflow_cpp.Common.{
  ◌≡◌, refl, sym, ap, ◌∙◌, Bool, false, List, [], ◌∷◌, ◌++◌, arith, Ptr, Outcome, done, ◌>>=◌,
  bind-done, done-inj, Bool-cases, inl, inr,
}
use asyncflow_cpp.Collector
use asyncflow_cpp.Collector.{Collector, Disposed, Taken, cancelled_of}
use asyncflow_cpp.Session
use asyncflow_cpp.Session.{Session}
use asyncflow_cpp.Pool.{Pool}
use asyncflow_cpp.Pool.Turns.{IsRunning}
use asyncflow_cpp.Pool.Lifecycle.{IsAbsent}
use asyncflow_cpp.Pool.Worker.{is_marked, clean_up}

pub IsAbsent-append :
    (a : Ptr) (xs ys : List Ptr) → IsAbsent a xs → IsAbsent a ys → IsAbsent a (xs ++ ys)
IsAbsent-append a [] ys f g = g
IsAbsent-append a (x ∷ xs) ys f g = (f.0, IsAbsent-append a xs ys f.1 g)

cancelled_of-IsAbsent :
    (marked : Ptr → Bool) (a : Ptr) (xs : List Ptr)
    → marked a ≡ false
    → IsAbsent a (cancelled_of marked xs)
cancelled_of-IsAbsent marked a [] h = tt
cancelled_of-IsAbsent marked a (x ∷ xs) h = elim (Bool-cases (marked x)) [
  | inl yes_so ↦ rw yes_so (
    (λ same. absurd (ground (arith, yes_so, h, ap marked same))),
    cancelled_of-IsAbsent marked a xs h,
  )
  | inr not_so ↦ rw not_so (cancelled_of-IsAbsent marked a xs h)
]

three-done :
    (u w k : Outcome Taken) (out : Taken → Taken → Taken → Disposed) (d : Disposed)
    → (do x ← u; y ← w; z ← k; done (out x y z)) ≡ done d
    → (x y z : Taken) × (out x y z ≡ d)
three-done u w k out d e =
    let (x, _, e1) = bind-done u (λ x. do y ← w; z ← k; done (out x y z)) d e in
    let (y, _, e2) = bind-done w (λ y. do z ← k; done (out x y z)) d e1 in
    let (z, _, e3) = bind-done k (λ z. done (out x y z)) d e2 in
    (x, y, z, done-inj (out x y z) d e3)

dispose-IsAbsent :
    (marked : Ptr → Bool) (a : Ptr) (c : Collector) (d : Disposed)
    → marked a ≡ false
    → Collector.dispose marked c ≡ done d
    → IsAbsent a d.sessions
unfolding Collector.dispose
dispose-IsAbsent marked a c d h e =
    let release = Collector.release_batch Collector.data_releasing_batch_size in
    let out : Taken → Taken → Taken → Disposed = λ u w k. record {
      collector = record c {
        user_data_collection = u.0;
        wrapper_collection = w.0;
        killed_sessions = k.0;
      };
      user_data = u.1;
      wrappers = w.1;
      sessions = cancelled_of marked k.1;
    } in
    let (u, w, k, same) =
      three-done (release c.user_data_collection) (release c.wrapper_collection)
        (release c.killed_sessions) out d e in
    subst (λ r. IsAbsent a r.sessions) same (cancelled_of-IsAbsent marked a k.1 h)

module _ {C : Type 0} where
  -- What a disposal keeps; it deletes no session that is not marked.
  pub record Cleans (p q : Pool C) (freed : List Ptr) : Type 0 where
    pub same_store : q.store ≡ p.store
    pub same_sessions : q.all_sessions ≡ p.all_sessions
    pub keeps_running : IsRunning p → IsRunning q
    pub frees : (a : Ptr) → Session.is_cancelled (p.store a) ≡ false → IsAbsent a freed

  pub clean_up_lem :
      (p q : Pool C) (freed : List Ptr) → clean_up p ≡ done (q, freed) → Cleans p q freed
  unfolding clean_up
  clean_up_lem p q freed e = elim (Bool-cases p.gc.active) [
    | inl busy ↦
        let kept : clean_up p ≡ done (p, []) = simp busy in
        subst (λ r. Cleans p r.0 r.1) (done-inj (p, []) (q, freed) (sym kept ∙ e))
          (record {
            same_store = refl;
            same_sessions = refl;
            keeps_running = λ r. r;
            frees = λ a h. tt;
          })
    | inr free ↦
        let cleared : clean_up p ≡ (Collector.dispose (is_marked p) p.gc >>= left) = simp free in
        let (d, disposed, e') =
          bind-done (Collector.dispose (is_marked p) p.gc) left (q, freed) (sym cleared ∙ e) in
        let now = record p { gc = record (d.collector) { active = false } } in
        subst (λ r. Cleans p r.0 r.1) (done-inj (now, d.sessions) (q, freed) e')
          (record {
            same_store = refl;
            same_sessions = refl;
            keeps_running = λ r. record { some_cpu = r.some_cpu; agree = r.agree };
            frees = λ a h. dispose-IsAbsent (is_marked p) a p.gc d h disposed;
          })
  ]
    where
      left : Disposed → Outcome (Pool C × List Ptr)
      left d = done (record p { gc = record (d.collector) { active = false } }, d.sessions)
