-- ===== src/Pool/Everyone.antt =====
-- CPPAFKThreadpool.cpp, _pauseAll and _resumeAll: a method of every session, one after the other.
use native.Mathlib.Decide.{ℕ_discrete}
use mathlib.Core.Path.{fun_ext}
use mathlib.Core.Option
use asyncflow_cpp.Common.{
  ℕ, ◌≡◌, ◌==◌, refl, ap, ◌∙◌, Bool, true, false, List, [], ◌∷◌, arith, if◌then◌else◌, Ptr, Option,
  none, some,
}
use asyncflow_cpp.Registry.{find}
use asyncflow_cpp.Session
use asyncflow_cpp.Session.{Session}
use asyncflow_cpp.Pool.{Pool}
use asyncflow_cpp.Pool.Control.{pause_at, resume_at, each}
use asyncflow_cpp.Pool.Views.{Flags, flags, view, flags-write}
use asyncflow_cpp.Pool.Keeping.{paused_flags, resumed_flags}
use asyncflow_cpp.Pool.Specification.{set_paused}

abbrev pub is_in : Ptr → List (ℕ × Ptr) → Bool
is_in b [] = false
is_in b ((_, a) ∷ m) = if a == b then true else is_in b m

find-is_in : (k : ℕ) (b : Ptr) (m : List (ℕ × Ptr)) → find k m ≡ some b → is_in b m ≡ true
find-is_in k b [] e = absurd (ground (arith, e))
find-is_in k b ((j, a) ∷ m) e = elim (ℕ_discrete j k) [
  | yes here ↦ ground (arith, here, e)
  | no there ↦ ground (arith, there, e, find-is_in k b m)
]

-- A change that is made twice is made once.
twice :
    (h : Flags → Flags) (x y : Flags) (u w : Bool)
    → ((z : Flags) → h (h z) ≡ h z)
    → y ≡ (if u then h x else x)
    → (if w then h y else y) ≡ (if (if u then true else w) then h x else x)
twice h x y true true i e = ap h e ∙ i x
twice h x y true false i e = e
twice h x y false true i e = ap h e
twice h x y false false i e = e

module _ {C : Type 0} where
  abbrev pub Changes : (Ptr → Pool C → Pool C) → (Flags → Flags) → Type 0
  Changes f h =
      (a : Ptr) (p : Pool C)
      → ((f a p).all_sessions ≡ p.all_sessions)
        × ((b : Ptr)
            → flags ((f a p).store b)
              ≡ (if a == b then h (flags (p.store b)) else flags (p.store b)))

  each-Changes :
      (f : Ptr → Pool C → Pool C) (h : Flags → Flags) (ms : List (ℕ × Ptr)) (p : Pool C)
      → Changes f h
      → ((x : Flags) → h (h x) ≡ h x)
      → ((each f ms p).all_sessions ≡ p.all_sessions)
        × ((b : Ptr)
            → flags ((each f ms p).store b)
              ≡ (if is_in b ms then h (flags (p.store b)) else flags (p.store b)))
  unfolding each
  each-Changes f h [] p c i = (refl, λ b. refl)
  each-Changes f h ((j, a) ∷ ms) p c i =
      let (same, rest) = each-Changes f h ms (f a p) c i in
      let (kept, first) = c a p in
      (
        same ∙ kept,
        λ b.
            rest b
            ∙ twice h (flags (p.store b)) (flags ((f a p).store b)) (a == b) (is_in b ms) i
                (first b),
      )

  -- Every registered session is changed, and no other.
  pub view-each :
      (f : Ptr → Pool C → Pool C) (h : Flags → Flags) (p : Pool C)
      → Changes f h
      → ((x : Flags) → h (h x) ≡ h x)
      → ((each f p.all_sessions p).all_sessions ≡ p.all_sessions)
        × (view (each f p.all_sessions p) ≡ (λ k. Option.map h (view p k)))
  view-each f h p c i =
      let (same, now) = each-Changes f h p.all_sessions p c i in
      (same, fun_ext λ k. rw same (go k (find k p.all_sessions) refl now))
    where
      go :
          (k : ℕ) (o : Option Ptr)
          → find k p.all_sessions ≡ o
          → ((b : Ptr)
              → flags ((each f p.all_sessions p).store b)
                ≡ (if is_in b p.all_sessions then h (flags (p.store b)) else flags (p.store b)))
          → Option.map (λ a. flags ((each f p.all_sessions p).store a)) (find k p.all_sessions)
            ≡ Option.map h (view p k)
      go k none e now = rw e refl
      go k (some b) e now = rw e (
          ap some (
            now b
            ∙ ap (λ x. if x then h (flags (p.store b)) else flags (p.store b))
                (find-is_in k b p.all_sessions e)))

  pub pause_at-Changes : Changes pause_at (set_paused true)
  unfolding pause_at
  pause_at-Changes a p = (
    refl,
    λ b.
        flags-write a b (Session.pause (p.store a)) (set_paused true) p.store
          (paused_flags (p.store a)),
  )

  pub resume_at-Changes : Changes resume_at (set_paused false)
  unfolding resume_at
  resume_at-Changes a p = (
    refl,
    λ b.
        flags-write a b (Session.resume (p.store a)) (set_paused false) p.store
          (resumed_flags (p.store a)),
  )
