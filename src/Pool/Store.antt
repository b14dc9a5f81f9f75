-- ===== src/Pool/Store.antt =====
-- CPPAFKThreadpool.hpp: the store of session objects, and the map of identifiers.
use native.Mathlib.Decide.{ℕ_discrete}
use asyncflow_cpp.Common.{ℕ, ◌≡◌, ◌≢◌, List, [], ◌∷◌, arith, Ptr, some}
use asyncflow_cpp.Registry.{find, erase}
use asyncflow_cpp.Session.{Session}
use asyncflow_cpp.Pool.{write}

abbrev pub IsNew : Ptr → List (ℕ × Ptr) → Type 0
IsNew a [] = Unit
IsNew a ((_, b) ∷ m) = (b ≢ a) × IsNew a m

-- No two identifiers share a session.
abbrev pub IsDistinct : List (ℕ × Ptr) → Type 0
IsDistinct [] = Unit
IsDistinct ((_, a) ∷ m) = IsNew a m × IsDistinct m

pub find-IsNew :
    (b : Ptr) (id : ℕ) (a : Ptr) (m : List (ℕ × Ptr)) → IsNew b m → find id m ≡ some a → b ≢ a
find-IsNew b id a [] d e = absurd (ground (arith, e))
find-IsNew b id a ((j, c) ∷ m) d e = elim (ℕ_discrete j id) [
  | yes here ↦ λ f. d.0 (ground (arith, here, e, f))
  | no there ↦ find-IsNew b id a m d.1 (ground (arith, there, e))
]

pub erase-IsNew : (b : Ptr) (id : ℕ) (m : List (ℕ × Ptr)) → IsNew b m → IsNew b (erase id m)
erase-IsNew b id [] d = tt
erase-IsNew b id ((j, c) ∷ m) d = ground (arith, d, erase-IsNew b id m d.1)

pub erase-IsDistinct : (id : ℕ) (m : List (ℕ × Ptr)) → IsDistinct m → IsDistinct (erase id m)
erase-IsDistinct id [] d = tt
erase-IsDistinct id ((j, c) ∷ m) d =
    ground (arith, d, erase-IsNew c id m d.0, erase-IsDistinct id m d.1)

module _ {C : Type 0} where
  pub write_self : (a : Ptr) (s : Session C) (store : Ptr → Session C) → write a s store a ≡ s
  write_self a s store = ground arith

  pub write_other :
      (a b : Ptr) (s : Session C) (store : Ptr → Session C) → b ≢ a → write a s store b ≡ store b
  write_other a b s store n = ground (arith, n)
