-- ===== src/Pool/Casting.antt =====
-- CPPAFKThreadpool.cpp, castObjectForSession: items that are cast to a session one after the other.
use mathlib.Core.Path.{subst}
use asyncflow_cpp.Common.{
  ℕ, ◌≡◌, ◌≢◌, refl, ap, sym, ◌∙◌, Bool, List, [], ◌∷◌, arith, Ptr, ptr_item, some,
}
use asyncflow_cpp.Registry.{find}
use asyncflow_cpp.Composing
use asyncflow_cpp.Composing.{Flushed}
use asyncflow_cpp.Composing.Posting.{posted, Answered}
use asyncflow_cpp.Pool.{Pool, write}
use asyncflow_cpp.Pool.Store.{write_self}
use asyncflow_cpp.Pool.Sessions.{cast_object_for_session, in_session}

module _ {C : Type 0} where
  -- Items cast to a session one after the other.
  abbrev pub cast : ℕ → List Ptr → Pool C → Pool C
  cast id [] p = p
  cast id (x ∷ xs) p = cast id xs (cast_object_for_session id x p).0

  abbrev pub Takes : ℕ → List Ptr → Bool → Pool C → Type 0
  Takes id [] answer p = Unit
  Takes id (x ∷ xs) answer p =
      ((cast_object_for_session id x p).1 ≡ answer)
      × Takes id xs answer (cast_object_for_session id x p).0

  pub cast_one :
      (id : ℕ) (a x : Ptr) (p : Pool C)
      → id ≢ 0
      → find id p.all_sessions ≡ some a
      → cast_object_for_session id x p ≡ (
        record p { store = write a (Composing.post_data x (p.store a)).0 p.store },
        (Composing.post_data x (p.store a)).1,
      )
  unfolding cast_object_for_session in_session
  cast_one id a x p n e = rw (e, in_session) (ground (arith, n))

  pub cast_lem :
      (b : Bool) (id : ℕ) (a : Ptr) (xs : List Ptr) (p : Pool C)
      → id ≢ 0
      → find id p.all_sessions ≡ some a
      → Answered b xs (p.store a)
      → Takes id xs b p
        × ((cast id xs p).store a ≡ posted xs (p.store a))
        × ((cast id xs p).gc ≡ p.gc)
  cast_lem b id a [] p n e h = (tt, refl, refl)
  cast_lem b id a (x ∷ xs) p n e h =
      let next = record p { store = write a (Composing.post_data x (p.store a)).0 p.store } in
      let stored = write_self a (Composing.post_data x (p.store a)).0 p.store in
      let (others, store, gc) =
        cast_lem b id a xs next n e (subst (Answered b xs) (sym stored) h.1) in
      subst
        (λ r.
          ((r.1 ≡ b) × Takes id xs b r.0)
          × ((cast id xs r.0).store a ≡ posted xs (Composing.post_data x (p.store a)).0)
          × ((cast id xs r.0).gc ≡ p.gc))
        (sym (cast_one id a x p n e)) ((h.0, others), store ∙ ap (posted xs) stored, gc)
