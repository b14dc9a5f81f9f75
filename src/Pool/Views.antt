-- ===== src/Pool/Views.antt =====
-- CPPAFKThreadpool.cpp: what a caller sees of the sessions: under which identifiers they are registered,
-- which of them are paused, and which are asked to stop. Addresses, order and counts are forgotten.
use native.Mathlib.Decide.{ℕ_discrete}
use mathlib.Core.Path.{fun_ext}
use mathlib.Core.Option
use asyncflow_cpp.Common.{
  ℕ, ◌≡◌, ◌≢◌, ◌==◌, refl, ap, sym, ◌∙◌, Bool, List, [], ◌∷◌, arith, if◌then◌else◌, Ptr, Option,
  none, some,
}
use asyncflow_cpp.Registry.{find, erase, insert}
use asyncflow_cpp.Registry.Laws.{find-insert}
use asyncflow_cpp.Session
use asyncflow_cpp.Session.{Session}
use asyncflow_cpp.Pool.{Pool, write}
use asyncflow_cpp.Pool.Store.{IsNew, IsDistinct, find-IsNew, write_self, write_other}

pub record Flags : Type 0 where
  pub paused : Bool
  pub asked : Bool

abbrev pub View : Type 0
View = ℕ → Option Flags

abbrev pub change : ℕ → (Flags → Flags) → View → View
change id f w k = if id == k then Option.map f (w k) else w k

-- No identifier stands twice in the map.
abbrev pub IsKeyed : List (ℕ × Ptr) → Type 0
IsKeyed [] = Unit
IsKeyed ((j, _) ∷ m) = (find j m ≡ none) × IsKeyed m

pub find-erase :
    (id k : ℕ) (m : List (ℕ × Ptr))
    → IsKeyed m
    → find k (erase id m) ≡ (if id == k then none else find k m)
find-erase id k [] u = ground arith
find-erase id k ((j, a) ∷ m) u = elim (ℕ_discrete j id) [
  | yes here ↦ ground (arith, here, u.0)
  | no there ↦ ground (arith, there, find-erase id k m u.1)
]

pub erase-IsKeyed : (id : ℕ) (m : List (ℕ × Ptr)) → IsKeyed m → IsKeyed (erase id m)
erase-IsKeyed id [] u = tt
erase-IsKeyed id ((j, a) ∷ m) u = ground (arith, u, find-erase id j m u.1, erase-IsKeyed id m u.1)

pub insert-IsKeyed : (id : ℕ) (a : Ptr) (m : List (ℕ × Ptr)) → IsKeyed m → IsKeyed (insert id a m)
insert-IsKeyed id a [] u = (refl, tt)
insert-IsKeyed id a ((j, b) ∷ m) u = elim (ℕ_discrete j id) [
  | yes here ↦ ground (arith, here, u)
  | no there ↦ ground (arith, there, find-insert id j a m, insert-IsKeyed id a m u.1, u)
]

insert-IsNew :
    (b : Ptr) (id : ℕ) (a : Ptr) (m : List (ℕ × Ptr)) → a ≢ b → IsNew b m → IsNew b (insert id a m)
insert-IsNew b id a [] n d = (n, tt)
insert-IsNew b id a ((j, c) ∷ m) n d = ground (arith, n, d, insert-IsNew b id a m n d.1)

pub insert-IsDistinct :
    (id : ℕ) (a : Ptr) (m : List (ℕ × Ptr)) → IsNew a m → IsDistinct m → IsDistinct (insert id a m)
insert-IsDistinct id a [] n d = (tt, tt)
insert-IsDistinct id a ((j, c) ∷ m) n d =
    ground
      (arith, n, d, insert-IsNew c id a m (λ e. n.0 (sym e)) d.0, insert-IsDistinct id a m n.1 d.1)

-- A session has one identifier.
pub find_once :
    (id k : ℕ) (a : Ptr) (m : List (ℕ × Ptr))
    → IsDistinct m
    → find id m ≡ some a
    → find k m ≡ some a
    → k ≡ id
find_once id k a [] d e f = absurd (ground (arith, e))
find_once id k a ((j, b) ∷ m) d e f = elim (ℕ_discrete j id) [
  | yes here ↦ elim (ℕ_discrete j k) [
    | yes same ↦ omega (arith, here, same)
    | no other ↦
        absurd (find-IsNew b k a m d.0 (ground (arith, other, f)) (ground (arith, here, e)))
  ]
  | no there ↦ elim (ℕ_discrete j k) [
    | yes same ↦
        absurd (find-IsNew b id a m d.0 (ground (arith, there, e)) (ground (arith, same, f)))
    | no other ↦ find_once id k a m d.1 (ground (arith, there, e)) (ground (arith, other, f))
  ]
]

module _ {C : Type 0} where
  abbrev pub flags : Session C → Flags
  flags s = record { paused = Session.is_paused s; asked = Session.cancellation_requested s }

  abbrev pub view_of : (Ptr → Session C) → List (ℕ × Ptr) → View
  view_of store m id = Option.map (λ a. flags (store a)) (find id m)

  abbrev pub view : Pool C → View
  view p = view_of p.store p.all_sessions

  flags_self :
      (a b : Ptr) (s : Session C) (store : Ptr → Session C)
      → b ≡ a
      → flags (write a s store b) ≡ flags s
  flags_self a b s store e = ap (λ c. flags (write a s store c)) e ∙ ap flags (write_self a s store)

  pub flags-write :
      (a b : Ptr) (s : Session C) (f : Flags → Flags) (store : Ptr → Session C)
      → flags s ≡ f (flags (store a))
      → flags (write a s store b) ≡ (if a == b then f (flags (store b)) else flags (store b))
  flags-write a b s f store h = elim (ℕ_discrete a b) [
    | yes same ↦
        flags_self a b s store (sym same)
        ∙ h
        ∙ ap (λ c. f (flags (store c))) same
        ∙ ground (arith, same)
    | no other ↦ ap flags (write_other a b s store (λ e. other (sym e))) ∙ ground (arith, other)
  ]

  -- One session is written: its entry alone changes.
  pub view-write :
      (id : ℕ) (a : Ptr) (s : Session C) (f : Flags → Flags) (store : Ptr → Session C)
      (m : List (ℕ × Ptr))
      → IsDistinct m
      → find id m ≡ some a
      → flags s ≡ f (flags (store a))
      → view_of (write a s store) m ≡ change id f (view_of store m)
  view-write id a s f store m d e h = fun_ext λ k. go k (find k m) refl
    where
      go :
          (k : ℕ) (o : Option Ptr)
          → find k m ≡ o
          → view_of (write a s store) m k ≡ change id f (view_of store m) k
      go k none g = rw g (ground arith)
      go k (some b) g = elim (ℕ_discrete id k) [
        | yes same ↦
            let at : b ≡ a = ground (arith, same, e, g) in
            let new : flags (write a s store b) ≡ f (flags (store b)) =
              flags_self a b s store at ∙ h ∙ ap (λ c. f (flags (store c))) (sym at) in
            rw (g, new) (ground (arith, same))
        | no other ↦
            let away : b ≢ a = λ at. other (sym (find_once id k a m d e (g ∙ ap some at))) in
            rw (g, ap flags (write_other a b s store away)) (ground (arith, other))
      ]

  -- What a method does to a session whose flags it leaves alone is not seen.
  pub view-kept :
      (a : Ptr) (s : Session C) (store : Ptr → Session C) (m : List (ℕ × Ptr))
      → flags s ≡ flags (store a)
      → view_of (write a s store) m ≡ view_of store m
  view-kept a s store m h = fun_ext λ k. ap (λ g. Option.map g (find k m)) (fun_ext λ b. go b)
    where
      go : (b : Ptr) → flags (write a s store b) ≡ flags (store b)
      go b = elim (ℕ_discrete a b) [
        | yes same ↦ flags_self a b s store (sym same) ∙ h ∙ ap (λ c. flags (store c)) same
        | no other ↦ ap flags (write_other a b s store (λ e. other (sym e)))
      ]

  -- A session that leaves the map.
  pub view-erase :
      (id : ℕ) (store : Ptr → Session C) (m : List (ℕ × Ptr))
      → IsKeyed m
      → view_of store (erase id m) ≡ (λ k. if id == k then none else view_of store m k)
  view-erase id store m u = fun_ext λ k. rw (find-erase id k m u) (ground arith)

  -- A session that is new to the map.
  pub view-insert :
      (id : ℕ) (a : Ptr) (s : Session C) (store : Ptr → Session C) (m : List (ℕ × Ptr))
      → IsNew a m
      → view_of (write a s store) (insert id a m)
        ≡ (λ k. if id == k then some (flags s) else view_of store m k)
  view-insert id a s store m n = fun_ext λ k. rw (find-insert id k a m) (go k (find k m) refl)
    where
      go :
          (k : ℕ) (o : Option Ptr)
          → find k m ≡ o
          → Option.map (λ b. flags (write a s store b)) (if id == k then some a else find k m)
            ≡ (if id == k then some (flags s) else view_of store m k)
      go k none g = rw g (rw (← flags_self a a s store refl) (ground arith))
      go k (some b) g =
          let away : b ≢ a = λ e. find-IsNew a k b m n g (sym e) in
          let old = ap flags (write_other a b s store away) in
          rw g (elim (ℕ_discrete id k) [
            | yes same ↦ rw (← flags_self a a s store refl) (ground (arith, same))
            | no other ↦ rw (← old) (ground (arith, other))
          ])

  -- Nobody sees an object that is not in the map.
  pub view-new :
      (a : Ptr) (s : Session C) (store : Ptr → Session C) (m : List (ℕ × Ptr))
      → IsNew a m
      → view_of (write a s store) m ≡ view_of store m
  view-new a s store m n = fun_ext λ k. go k (find k m) refl
    where
      go :
          (k : ℕ) (o : Option Ptr)
          → find k m ≡ o
          → view_of (write a s store) m k ≡ view_of store m k
      go k none g = rw g refl
      go k (some b) g =
          rw g (
            ap (λ r. some (flags r))
              (write_other a b s store (λ e. find-IsNew a k b m n g (sym e))))
