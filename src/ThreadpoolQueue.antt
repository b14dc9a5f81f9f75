-- ===== src/ThreadpoolQueue.antt =====
-- CPPAFKThreadpoolQueue.hpp: the queue of a session before its routines are known. An item is a
-- pointer; a thread that takes one while more are left occupies the queue under its id.
pub mod Occupancy
use asyncflow_cpp.Common.{
  ℕ, ◌==◌, Bool, true, false, not, ◌&&◌, List, [], ◌∷◌, ◌++◌, if◌then◌else◌, ltb, length,
  uint64_max, sign_bit, Ptr, null, Outcome, done, undefined, ◌>>=◌, suc, add64,
}
use asyncflow_cpp.Queue
use asyncflow_cpp.Queue.{Queue}

pub record QStatus : Type 0 where
  pub empty : Bool
  pub endbatch : Bool
  pub called : Bool
  pub validrv : Bool

unfoldable pub new_status : QStatus
new_status = record { empty = false; endbatch = false; called = false; validrv = false }

-- `occupant` is a std::int64_t, which no constructor sets.
pub record TpQueue : Type 0 where
  pub queue : Queue Ptr
  pub open queue use *
  pub deq_indexes : List ℕ
  pub occupant : ℕ

abbrev pub minus_one : ℕ
minus_one = uint64_max

unfoldable pub new : ℕ → TpQueue
unfolding Queue.new
new garbage = record { queue = Queue.new false; deq_indexes = []; occupant = garbage }

-- `occupant>=0 && occupant!=itsid`
abbrev pub is_taken : ℕ → ℕ → Bool
is_taken occupant itsid = ltb occupant sign_bit && not (occupant == itsid)

-- The queue, the item or null, the item's index and the status, all as a call leaves them.
pub record Got : Type 0 where
  pub state : TpQueue
  pub item : Ptr
  pub item_index : ℕ
  pub qstat : QStatus

abbrev pub set_items : TpQueue → List Ptr → TpQueue
set_items q items = record q { queue = record (q.queue) { its_q = items } }

abbrev pub is_nil {ℓ} : {A : Type ℓ} → List A → Bool
is_nil [] = true
is_nil (_ ∷ _) = false

-- The two deques are popped together.
pop_both : ℕ → TpQueue → QStatus → List Ptr → List ℕ → Outcome Got
pop_both itsid q qstat [] indexes = done (record {
  state = record q { occupant = minus_one };
  item = null;
  item_index = minus_one;
  qstat = record qstat { empty = true };
})
pop_both itsid q qstat (x ∷ rest) [] = undefined
pop_both itsid q qstat (x ∷ rest) (i ∷ indexes) = done (record {
  state = record (set_items q rest) {
    deq_indexes = indexes;
    occupant = if is_nil rest then minus_one else itsid;
  };
  item = x;
  item_index = i;
  qstat = record qstat { empty = is_nil rest; validrv = true };
})

unfoldable pub pull_and_occupy_with_id : ℕ → TpQueue → QStatus → Outcome Got
unfolding pop_both
pull_and_occupy_with_id itsid q qstat =
    if is_taken q.occupant itsid
    then done (record {
      state = q;
      item = null;
      item_index = minus_one;
      qstat = record qstat { empty = is_nil q.its_q; validrv = false };
    })
    else pop_both itsid q qstat q.its_q q.deq_indexes

-- A null item counts as failure.
unfoldable pub pull : TpQueue → Outcome (TpQueue × Ptr × Bool)
unfolding pull_and_occupy_with_id new_status
pull q = do
  g ← pull_and_occupy_with_id minus_one q new_status
  done (g.state, g.item, not (g.item == null))

unfoldable pub unoccupy_with_id : ℕ → TpQueue → TpQueue
unoccupy_with_id itsid q = if q.occupant == itsid then record q { occupant = minus_one } else q

unfoldable pub unoccupy : TpQueue → TpQueue
unoccupy q = record q { occupant = minus_one }

unfoldable pub cast_object : Ptr → ℕ → TpQueue → TpQueue × Bool
cast_object item index q = (
  record (set_items q (q.its_q ++ item ∷ [])) { deq_indexes = q.deq_indexes ++ index ∷ [] },
  true,
)

pub call_object : Ptr → ℕ → TpQueue → TpQueue × Bool
call_object item index q = (q, false)

number_from : ℕ → List Ptr → List ℕ
number_from t [] = []
number_from t (x ∷ xs) = t ∷ number_from (add64 t 1) xs

-- The indexes are noted, and the items go to a method of Queue that refuses them.
unfoldable pub cast_vector : List Ptr → ℕ → TpQueue → TpQueue × Bool
unfolding number_from Queue.cast_vector
cast_vector items index q =
    let (queue', r) = Queue.cast_vector items q.queue in
    (record q { queue = queue'; deq_indexes = q.deq_indexes ++ number_from 0 items }, r)

pub call_vector : List Ptr → ℕ → TpQueue → TpQueue × Bool
call_vector items index q = (q, false)

unfoldable pub reset : TpQueue → TpQueue
unfolding Queue.reset
reset q = record q { queue = Queue.reset q.queue; deq_indexes = [] }
