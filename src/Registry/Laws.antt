-- ===== src/Registry/Laws.antt =====
-- CPPAFKBase.cpp: looking up what was registered, and two ways to lose the registry.
use asyncflow_cpp.Common.{
  ℕ, ◌≡◌, ◌≢◌, refl, true, false, List, [], ◌∷◌, arith, if◌then◌else◌, ◌==◌, Ptr, null, none, some,
  done, stuck, undefined,
}
use asyncflow_cpp.Registry.{
  Registry, find, insert, is_alive, register_ctrl_block, new_ctrl_block, forget_all_ctrl_blocks,
  forget_ctrl_block_at, forget_ctrl_block, get_control_block_with_id,
}

pub find-insert :
    (k j : ℕ) (p : Ptr) (m : List (ℕ × Ptr))
    → find j (insert k p m) ≡ (if k == j then some p else find j m)
find-insert k j p [] = refl
find-insert k j p ((i, r) ∷ m) = ground (arith, find-insert k j p m)

-- A block that was made under an identifier is found under it, and every other identifier finds
-- what it found before; the lock is free again.
pub get-new :
    (id j : ℕ) (fresh : Ptr) (r : Registry)
    → fresh ≢ null
    → r.locked ≡ false
    → (s : Registry) × (new_ctrl_block id fresh r ≡ done s)
      × (s.locked ≡ false)
      × (find j s.blocks ≡ (if id == j then some fresh else find j r.blocks))
unfolding new_ctrl_block
get-new id j fresh r n l = (
  record r { alive = fresh ∷ r.alive; blocks = insert id fresh r.blocks; locked = false },
  ground arith,
  refl,
  find-insert id j fresh r.blocks,
)

-- Looking up an identifier that is not registered answers null and leaves the lock locked, so that
-- every later call that needs it waits for ever.
pub missing_id_locks :
    (id j : ℕ) (p : Ptr) (r : Registry)
    → r.locked ≡ false
    → find id r.blocks ≡ none
    → p ≢ null
    → (s : Registry) × (get_control_block_with_id id r ≡ done (s, null))
      × (get_control_block_with_id j s ≡ stuck)
      × (forget_ctrl_block j s ≡ stuck)
      × (forget_all_ctrl_blocks s ≡ stuck)
      × (register_ctrl_block j p s ≡ stuck)
      × (forget_ctrl_block_at p s ≡ stuck)
unfolding get_control_block_with_id forget_ctrl_block forget_all_ctrl_blocks register_ctrl_block
    forget_ctrl_block_at
missing_id_locks id j p r l m n = (
  record r { locked = true },
  ground (arith, l, m),
  refl,
  refl,
  refl,
  ground (arith, n),
  ground (arith, n),
)

-- Forgetting a block by its address keeps its entry: the identifier still leads to the deleted
-- block, and forgetting it by identifier deletes it a second time.
pub forget_by_address_dangles :
    (id : ℕ) (fresh : Ptr) (r : Registry)
    → fresh ≢ null
    → r.locked ≡ false
    → is_alive fresh r.alive ≡ false
    → (s t : Registry) × (new_ctrl_block id fresh r ≡ done s)
      × (forget_ctrl_block_at fresh s ≡ done t)
      × (find id t.blocks ≡ some fresh)
      × (is_alive fresh t.alive ≡ false)
      × (forget_ctrl_block id t ≡ undefined)
unfolding new_ctrl_block forget_ctrl_block_at forget_ctrl_block
forget_by_address_dangles id fresh r n l d = (
  record r { alive = fresh ∷ r.alive; blocks = insert id fresh r.blocks; locked = false },
  record r { blocks = insert id fresh r.blocks; locked = false },
  ground (arith, n, l),
  ground (arith, n, l),
  ground (arith, find-insert id id fresh r.blocks),
  d,
  ground (arith, find-insert id id fresh r.blocks, d),
)
