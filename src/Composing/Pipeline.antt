-- ===== src/Composing/Pipeline.antt =====
-- CPPAFKComposingSession.cpp, `select`: what the routines make of an item.
use native.Mathlib.Decide.{ℕ_discrete}
use asyncflow_cpp.Common.{
  ◌==◌, ◌≡◌, refl, true, false, List, [], ◌∷◌, ◌++◌, arith, if◌then◌else◌, Ptr, ptr_item, some,
  done, ◌>>=◌, append_assoc, append-nil,
}
use asyncflow_cpp.ControlBlock
use asyncflow_cpp.ControlBlock.{ControlBlock}
use asyncflow_cpp.Session.{lambda_only}
use asyncflow_cpp.Composing.Turn.{UserCode, apply, run_unit, run_units, if_item}

-- The routines one after the other, each on what the one before it made.
abbrev pub composed : (Ptr → Ptr → Ptr) → List Ptr → Ptr → Ptr
composed f [] x = x
composed f (u ∷ us) x = composed f us (f u x)

-- The items that a routine replaced by another one, oldest first.
abbrev pub replaced : (Ptr → Ptr → Ptr) → List Ptr → Ptr → List Ptr
replaced f [] x = []
replaced f (u ∷ us) x = (if f u x == x then [] else if_item x) ++ replaced f us (f u x)

-- The last routine on the item that was posted, the others for nothing.
abbrev pub last_alone : (Ptr → Ptr → Ptr) → List Ptr → Ptr → Ptr → Ptr
last_alone f [] x y = y
last_alone f (u ∷ us) x y = last_alone f us x (f u x)

-- A routine that makes `y` of the item and changes the control block by `g`.
pub moves :
    (g : ControlBlock → ControlBlock) (cblk : ControlBlock) (x y : Ptr) (log : List Ptr)
    → apply true
        (some (λ _ c. (g c, y)))
        (record { cblk = cblk; r0 = x; result = x; collected = log })
      ≡ done (record {
        cblk = g cblk;
        r0 = y;
        result = y;
        collected = log ++ (if y == x then [] else if_item x);
      })
unfolding apply
moves g cblk x y log = elim (ℕ_discrete y x) [
  | yes e ↦ ground (arith, e, append-nil log)
  | no ne ↦ ground (arith, ne)
]

module _ {C : Type 0} (code : UserCode C) (f : Ptr → Ptr → Ptr) where
  -- The unit at `u` is a lambda that makes `f u x` of `x` and leaves the control block alone.
  abbrev pub Runs : Type 0
  Runs = (u : Ptr) → code.run_l u ≡ some (λ x cblk. (cblk, f u x))

  run_from :
      (us : List Ptr) (cblk : ControlBlock) (x : Ptr) (log : List Ptr)
      → Runs
      → ControlBlock.cancellation_requested cblk ≡ false
      → run_units code lambda_only true us
          (record { cblk = cblk; r0 = x; result = x; collected = log })
        ≡ done (
          record {
            cblk = cblk;
            r0 = composed f us x;
            result = composed f us x;
            collected = log ++ replaced f us x;
          },
          false,
        )
  unfolding run_units run_unit apply
  run_from [] cblk x log h c = rw (append-nil log)
  run_from (u ∷ us) cblk x log h c =
      let rest = if f u x == x then [] else if_item x in
      rw (h u, run_unit)
        (rw (moves (λ c. c) cblk x (f u x) log, ◌>>=◌)
          (rw (c, run_units)
            (rw (← append_assoc log rest (replaced f us (f u x)))
              (run_from us cblk (f u x) (log ++ rest) h c))))

  run_apart :
      (us : List Ptr) (cblk : ControlBlock) (x y : Ptr)
      → Runs
      → ControlBlock.cancellation_requested cblk ≡ false
      → run_units code lambda_only false us
          (record { cblk = cblk; r0 = x; result = y; collected = [] })
        ≡ done (record { cblk = cblk; r0 = x; result = last_alone f us x y; collected = [] }, false)
  unfolding run_units run_unit apply
  run_apart [] cblk x y h c = refl
  run_apart (u ∷ us) cblk x y h c =
      rw (h u, run_unit) (rw (c, run_units) (run_apart us cblk x (f u x) h c))

  -- With automatic deletion, where the routines are lambdas, leave the control block alone and
  -- nobody has asked to cancel, the routines are composed: each works on what the one before made,
  -- the last result is the item's, and the item that a routine replaced goes to the collector, once
  -- for each replacement.
  pub run_units-composed :
      (us : List Ptr) (cblk : ControlBlock) (x : Ptr)
      → Runs
      → ControlBlock.cancellation_requested cblk ≡ false
      → run_units code lambda_only true us
          (record { cblk = cblk; r0 = x; result = x; collected = [] })
        ≡ done (
          record {
            cblk = cblk;
            r0 = composed f us x;
            result = composed f us x;
            collected = replaced f us x;
          },
          false,
        )
  run_units-composed us cblk x h c = run_from us cblk x [] h c

  -- Without automatic deletion every routine works on the item that was posted: only the last one
  -- counts, and nothing goes to the collector.
  pub run_units_last :
      (us : List Ptr) (cblk : ControlBlock) (x : Ptr)
      → Runs
      → ControlBlock.cancellation_requested cblk ≡ false
      → run_units code lambda_only false us
          (record { cblk = cblk; r0 = x; result = x; collected = [] })
        ≡ done (record { cblk = cblk; r0 = x; result = last_alone f us x x; collected = [] }, false)
  run_units_last us cblk x h c = run_apart us cblk x x h c
