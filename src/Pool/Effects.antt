-- ===== src/Pool/Effects.antt =====
-- CPPAFKThreadpool.cpp: what pausing, resuming, cancelling and the other methods do to what is seen.
use native.Mathlib.Decide.{ℕ_discrete}
use mathlib.Core.Path.{fun_ext}
use mathlib.Core.Option
use asyncflow_cpp.Common.{
  ℕ, ◌≡◌, ◌==◌, refl, ap, sym, ◌∙◌, Bool, true, false, arith, if◌then◌else◌, Ptr, Option, none,
  some,
}
use asyncflow_cpp.Registry.{find}
use asyncflow_cpp.Session
use asyncflow_cpp.Session.{Session}
use asyncflow_cpp.Composing
use asyncflow_cpp.Composing.{Flushed, QueueGarbage}
use asyncflow_cpp.Pool.{Pool, write}
use asyncflow_cpp.Pool.Store.{erase-IsDistinct}
use asyncflow_cpp.Pool.Sessions.{in_session}
use asyncflow_cpp.Pool.Control.{
  pause_session, resume_session, cancel_session, pause_at, resume_at, each,
}
use asyncflow_cpp.Pool.Views.{
  Flags, View, change, flags, view, view_of, view-write, view-kept, view-erase, erase-IsKeyed,
}
use asyncflow_cpp.Pool.Keeping.{IsKeeping, paused_flags, resumed_flags}
use asyncflow_cpp.Pool.Everyone.{Changes, view-each}
use asyncflow_cpp.Pool.Specification.{is_some, set_paused, IsSound}

module _ {C : Type 0} where
  change_absent :
      (id : ℕ) (f : Flags → Flags) (p : Pool C)
      → find id p.all_sessions ≡ none
      → view p ≡ change id f (view p)
  change_absent id f p e = fun_ext λ k. elim (ℕ_discrete id k) [
    | yes same ↦
        let gone : find k p.all_sessions ≡ none = ap (λ j. find j p.all_sessions) (sym same) ∙ e in
        rw (gone) (ground arith)
    | no other ↦ ground (arith, other)
  ]

  gone_absent :
      (id : ℕ) (p : Pool C)
      → find id p.all_sessions ≡ none
      → view p ≡ (λ k. if id == k then none else view p k)
  gone_absent id p e = fun_ext λ k. elim (ℕ_discrete id k) [
    | yes same ↦
        let gone : find k p.all_sessions ≡ none = ap (λ j. find j p.all_sessions) (sym same) ∙ e in
        rw (gone) (ground arith)
    | no other ↦ ground (arith, other)
  ]

  -- A step whose answer says whether the session was found.
  abbrev pub Does : (Pool C × Bool) → ℕ → Pool C → View → Type 0
  Does r id p w = IsSound r.0 × (view r.0 ≡ w) × (r.1 ≡ is_some (view p id))

  pub pause_session-Does :
      (id : ℕ) (p : Pool C)
      → IsSound p
      → Does (pause_session id p) id p (change id (set_paused true) (view p))
  unfolding pause_session pause_at
  pause_session-Does id p v = go (find id p.all_sessions) refl
    where
      go :
          (o : Option Ptr)
          → find id p.all_sessions ≡ o
          → Does (pause_session id p) id p (change id (set_paused true) (view p))
      go none e = rw (e, pause_session) (v, change_absent id (set_paused true) p e, refl)
      go (some a) e =
          rw (e, pause_session)
            (
              record { distinct = v.distinct; keyed = v.keyed },
              view-write id a (Session.pause (p.store a)) (set_paused true) p.store p.all_sessions
                  v.distinct e (paused_flags (p.store a)),
              refl,
            )

  pub resume_session-Does :
      (id : ℕ) (p : Pool C)
      → IsSound p
      → Does (resume_session id p) id p (change id (set_paused false) (view p))
  unfolding resume_session resume_at
  resume_session-Does id p v = go (find id p.all_sessions) refl
    where
      go :
          (o : Option Ptr)
          → find id p.all_sessions ≡ o
          → Does (resume_session id p) id p (change id (set_paused false) (view p))
      go none e = rw (e, resume_session) (v, change_absent id (set_paused false) p e, refl)
      go (some a) e =
          rw (e, resume_session)
            (
              record { distinct = v.distinct; keyed = v.keyed },
              view-write id a (Session.resume (p.store a)) (set_paused false) p.store p.all_sessions
                  v.distinct e (resumed_flags (p.store a)),
              refl,
            )

  pub cancel_session-Does :
      (id : ℕ) (p : Pool C)
      → IsSound p
      → Does (cancel_session id p) id p (λ k. if id == k then none else view p k)
  unfolding cancel_session
  cancel_session-Does id p v = go (find id p.all_sessions) refl
    where
      once :
          (f : Flags → Flags) (b : Bool) (o : Option Flags)
          → (if b then none else (if b then Option.map f o else o)) ≡ (if b then none else o)
      once f true o = refl
      once f false o = refl

      go :
          (o : Option Ptr)
          → find id p.all_sessions ≡ o
          → Does (cancel_session id p) id p (λ k. if id == k then none else view p k)
      go none e = rw (e, cancel_session) (v, gone_absent id p e, refl)
      go (some a) e =
          let s = Composing.cancel (p.store a) in
          let m = p.all_sessions in
          let other = view-write id a s (λ f. flags s) p.store m v.distinct e refl in
          rw (e, cancel_session)
            (
              record {
                distinct = erase-IsDistinct id m v.distinct;
                keyed = erase-IsKeyed id m v.keyed;
              },
              view-erase id (write a s p.store) m v.keyed
                  ∙ ap (λ w k. if id == k then none else w k) other
                  ∙ (fun_ext λ k. once (λ f. flags s) (id == k) (view_of p.store m k)),
              refl,
            )

  -- A method of one session that leaves its flags alone.
  pub in_session_seen :
      (id : ℕ) (f : Session C → Session C × Bool) (p : Pool C)
      → IsKeeping f
      → IsSound p
      → IsSound (in_session id f p).0 × (view (in_session id f p).0 ≡ view p)
  unfolding in_session
  in_session_seen id f p k v = go (find id p.all_sessions) refl
    where
      go :
          (o : Option Ptr)
          → find id p.all_sessions ≡ o
          → IsSound (in_session id f p).0 × (view (in_session id f p).0 ≡ view p)
      go none e = rw (e, in_session) (v, refl)
      go (some a) e =
          rw (e, in_session)
            (
              record { distinct = v.distinct; keyed = v.keyed },
              view-kept a (f (p.store a)).0 p.store p.all_sessions (k (p.store a)),
            )

  pub each_seen :
      (f : Ptr → Pool C → Pool C) (b : Bool) (p : Pool C)
      → Changes f (set_paused b)
      → IsSound p
      → IsSound (each f p.all_sessions p)
        × (view (each f p.all_sessions p) ≡ (λ k. Option.map (set_paused b) (view p k)))
  each_seen f b p c v =
      let (same, seen) = view-each f (set_paused b) p c (λ x. refl) in
      (record { distinct = rw same v.distinct; keyed = rw same v.keyed }, seen)
