-- ===== src/Session/Handlers.antt =====
-- CPPAFKThreadpoolSession.cpp: replacing handlers while a session runs.
use asyncflow_cpp.Common.{
  ◌+◌, ◌≤◌, ◌≡◌, refl, List, [], ◌∷◌, arith, Option, none, some, if◌then◌else◌,
}
use asyncflow_cpp.Session.{Hot, new_hot, slot, store, switch}

-- One place is read and the other written.
pub record IsPaired {ℓ} {H : Type ℓ} (h : Hot H) : Type 0 where
  pub in_range : h.index_r ≤ 1
  pub apart : h.index_r + h.index_w ≡ 1

pub data Op {ℓ} (H : Type ℓ) : Type ℓ where
  stores : H → Op H
  switches : Op H

-- The handler in use, and the one that waits, by the history alone: what is stored waits, the last
-- one alone, and comes into use at the next switch.
pub record View (H : Type 0) : Type 0 where
  pub current : H
  pub pending : Option H

module _ {H : Type 0} where
  pub step : Op H → Hot H → Hot H
  step (stores v) h = store v h
  step switches h = (switch h).0

  pub run : List (Op H) → Hot H → Hot H
  run [] h = h
  run (o ∷ os) h = run os (step o h)

  abbrev spec_step : Op H → View H → View H
  spec_step (stores v) w = record w { pending = some v }
  spec_step switches w = elim w.pending [
    | none ↦ w
    | some v ↦ record { current = v; pending = none }
  ]

  abbrev pub spec : List (Op H) → View H → View H
  spec [] w = w
  spec (o ∷ os) w = spec os (spec_step o w)

  abbrev pub view : Hot H → View H
  view h = record {
    current = slot h h.index_r;
    pending = if h.reload then some (slot h h.index_w) else none;
  }

  step-IsPaired : (o : Op H) (h : Hot H) → IsPaired h → IsPaired (step o h)
  unfolding step store switch
  step-IsPaired (stores v) h p = ground arith
  step-IsPaired switches h p = ground arith

  step-view : (o : Op H) (h : Hot H) → IsPaired h → view (step o h) ≡ spec_step o (view h)
  unfolding step store switch
  step-view (stores v) h p = ground arith
  step-view switches h p = ground arith

  run-view : (os : List (Op H)) (h : Hot H) → IsPaired h → view (run os h) ≡ spec os (view h)
  unfolding run
  run-view [] h p = refl
  run-view (o ∷ os) h p = rw (← step-view o h p) (run-view os (step o h) (step-IsPaired o h p))

  -- After any stores and switches in any order, the handler that is read is the last one stored
  -- before the last switch that found one, or the empty one: a store never changes the handler in
  -- use, and of several stores between two switches the last one counts.
  pub run-new-view :
      (empty : H) (os : List (Op H))
      → view (run os (new_hot empty)) ≡ spec os (record { current = empty; pending = none })
  unfolding new_hot
  run-new-view empty os = run-view os (new_hot empty) (ground arith)
