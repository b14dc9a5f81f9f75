-- ===== src/Session/Slots.antt =====
-- CPPAFKThreadpoolSession.cpp: two places for a handler, one to read and one to write, which change
-- parts between two items. The class has three such triples, for routines, summary and cancellation.
use asyncflow_cpp.Common.{ℕ, ◌%◌, ◌==◌, Bool, true, false, if◌then◌else◌, add64}

pub record Hot {ℓ} (H : Type ℓ) : Type ℓ where
  pub primary : H
  pub secondary : H
  pub index_r : ℕ
  pub index_w : ℕ
  pub reload : Bool

module _ {ℓ} {H : Type ℓ} where
  -- CPPAFK_HRI_PRIMARY is 0 and CPPAFK_HRI_SECONDARY is 1; no other index occurs.
  unfoldable pub new_hot : H → Hot H
  new_hot empty = record {
    primary = empty;
    secondary = empty;
    index_r = 1;
    index_w = 0;
    reload = false;
  }

  abbrev pub slot : Hot H → ℕ → H
  slot h i = if i == 0 then h.primary else h.secondary

  -- The setters.
  unfoldable pub store : H → Hot H → Hot H
  store v h =
      if h.index_w == 0
      then record h { primary = v; reload = true }
      else record h { secondary = v; reload = true }

  unfoldable pub switch : Hot H → Hot H × Bool × ℕ
  switch h =
      if h.reload
      then (
        record h {
          index_w = add64 h.index_w 1 % 2;
          index_r = add64 h.index_r 1 % 2;
          reload = false;
        },
        true,
        add64 h.index_r 1 % 2,
      )
      else (h, false, h.index_r)
