-- ===== src/Registry.antt =====
-- CPPAFKBase.cpp: the control blocks that an object knows by identifier. The mutex `lkNonLocal` is a
-- flag, since one method leaves it locked; a call that finds it locked is stuck. `alive` are the
-- addresses of blocks that were made and not deleted; a second deletion is undefined behaviour.
pub mod Laws
use asyncflow_cpp.Common.{
  ℕ, ◌==◌, Bool, true, false, List, [], ◌∷◌, ◌++◌, if◌then◌else◌, Ptr, null, ptr_item, Option, none,
  some, Outcome, done, stuck, undefined, ◌>>=◌,
}

pub record Registry : Type 0 where
  pub its_num_id : ℕ
  pub blocks : List (ℕ × Ptr)
  pub alive : List Ptr
  pub locked : Bool

abbrev pub find : ℕ → List (ℕ × Ptr) → Option Ptr
find k [] = none
find k ((j, p) ∷ m) = if j == k then some p else find k m

-- `itsCtrlBlocks[k]=p`
abbrev pub insert : ℕ → Ptr → List (ℕ × Ptr) → List (ℕ × Ptr)
insert k p [] = (k, p) ∷ []
insert k p ((j, r) ∷ m) = if j == k then (k, p) ∷ m else (j, r) ∷ insert k p m

abbrev pub erase : ℕ → List (ℕ × Ptr) → List (ℕ × Ptr)
erase k [] = []
erase k ((j, r) ∷ m) = if j == k then m else (j, r) ∷ erase k m

abbrev pub is_alive : Ptr → List Ptr → Bool
is_alive p [] = false
is_alive p (r ∷ rs) = if r == p then true else is_alive p rs

abbrev pub kill : Ptr → List Ptr → List Ptr
kill p [] = []
kill p (r ∷ rs) = if r == p then rs else r ∷ kill p rs

unfoldable pub delete : Ptr → Registry → Outcome Registry
delete p r = if is_alive p r.alive then done (record r { alive = kill p r.alive }) else undefined

unfoldable pub lock : Registry → Outcome Registry
lock r = if r.locked then stuck else done (record r { locked = true })

unfoldable pub unlock : Registry → Registry
unlock r = record r { locked = false }

-- `id` is the block's getSessionId().
unfoldable pub register_ctrl_block : ℕ → Ptr → Registry → Outcome Registry
unfolding lock unlock
register_ctrl_block id cblk r =
    if ptr_item.truthy cblk
    then (do l ← lock r; done (unlock (record l { blocks = insert id cblk l.blocks })))
    else done r

-- `fresh` is the address that `new` yields, and `id` the session's identifier.
unfoldable pub new_ctrl_block : ℕ → Ptr → Registry → Outcome Registry
unfolding register_ctrl_block
new_ctrl_block id fresh r = register_ctrl_block id fresh (record r { alive = fresh ∷ r.alive })

delete_all : List (ℕ × Ptr) → Registry → Outcome Registry
unfolding delete
delete_all [] r = done r
delete_all ((k, p) ∷ m) r = do d ← delete p r; delete_all m d

unfoldable pub forget_all_ctrl_blocks : Registry → Outcome Registry
unfolding lock unlock delete_all
forget_all_ctrl_blocks r = do
  l ← lock r
  d ← delete_all l.blocks l
  done (unlock (record d { blocks = [] }))

-- By address: the block is deleted, and its entry stays.
unfoldable pub forget_ctrl_block_at : Ptr → Registry → Outcome Registry
unfolding lock unlock delete
forget_ctrl_block_at cb r =
    if ptr_item.truthy cb then (do l ← lock r; d ← delete cb l; done (unlock d)) else done r

erase_found : ℕ → Option Ptr → Registry → Outcome Registry
unfolding delete
erase_found id none r = done r
erase_found id (some cb) r = delete cb (record r { blocks = erase id r.blocks })

unfoldable pub forget_ctrl_block : ℕ → Registry → Outcome Registry
unfolding lock unlock erase_found
forget_ctrl_block id r = do l ← lock r; e ← erase_found id (find id l.blocks) l; done (unlock e)

-- The branch that finds no block returns without unlocking.
found_or_null : Option Ptr → Registry → Registry × Ptr
unfolding unlock
found_or_null none r = (r, null)
found_or_null (some p) r = (unlock r, p)

unfoldable pub get_control_block_with_id : ℕ → Registry → Outcome (Registry × Ptr)
unfolding lock found_or_null
get_control_block_with_id blk_id r = do l ← lock r; done (found_or_null (find blk_id l.blocks) l)
