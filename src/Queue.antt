-- ===== src/Queue.antt =====
-- CPPAFKQueue.hpp: the FIFO queue with size limits. The mutex `lock` makes each method, and each
-- locked part of `pull`, one step; a condition variable is its predicate flag. Sizes are words:
-- `itsQ.size()` is unsigned, so a comparison with it is unsigned, and one of two limits is signed.
pub mod Limits
pub mod Fifo
pub mod Locking
use asyncflow_cpp.Common.{
  ℕ, ◌+◌, ◌%◌, ◌==◌, Bool, true, false, List, [], ◌∷◌, ◌++◌, if◌then◌else◌, ltb, leb, slt, sle,
  length, int64_max, word_mod, Item,
}

pub record Queue {ℓ} (A : Type ℓ) : Type ℓ where
  pub cond_pred_r : Bool
  pub cond_pred_w : Bool
  pub blocking_r : Bool
  pub blocking_w : Bool
  pub paused : Bool
  pub max_q_size : ℕ
  pub min_q_size : ℕ
  pub its_q : List A

-- How far a call of `pull` has come: it failed at once, sleeps on `cvR`, or is about to take.
pub data Phase : Type 0 where
  refused waiting ready : Phase

-- A call of `pull` that no other thread interrupts: it returns, or it sleeps.
pub data Pull {ℓ} (A : Type ℓ) : Type ℓ where
  returned : Queue A → A → Bool → Pull A
  asleep : Queue A → Pull A

module _ {ℓ} {A : Type ℓ} where
  unfoldable pub init : Queue A → Queue A
  init q = record q {
    min_q_size = 0;
    max_q_size = int64_max;
    paused = false;
    blocking_r = false;
    blocking_w = false;
    cond_pred_r = false;
    cond_pred_w = false;
  }

  -- The constructors; the one with no argument passes `false`.
  unfoldable pub new : Bool → Queue A
  new blk_r = record {
    cond_pred_r = false;
    cond_pred_w = false;
    blocking_r = blk_r;
    blocking_w = false;
    paused = false;
    max_q_size = int64_max;
    min_q_size = 0;
    its_q = [];
  }

  release_readers : Queue A → Queue A
  release_readers q = if q.blocking_r then record q { cond_pred_r = true } else q

  -- What a writer sees between the two assignments of `condPredW` is not kept.
  unfoldable pub release_all : Queue A → Queue A
  unfolding release_readers
  release_all q = record (release_readers q) { cond_pred_w = false }

  unfoldable pub reset : Queue A → Queue A
  unfolding release_all init
  reset q = init (release_all (record q { its_q = [] }))

  unfoldable pub set_max_q_size : ℕ → Queue A → Queue A × Bool
  set_max_q_size size q =
      if slt size q.min_q_size then (q, false) else (record q { max_q_size = size }, true)

  unfoldable pub set_min_q_size : ℕ → Queue A → Queue A × Bool
  set_min_q_size size q =
      if slt q.max_q_size size then (q, false) else (record q { min_q_size = size }, true)

  -- The operations that this version refuses.
  unfoldable pub queue_from_queue : Queue A → Queue A → Queue A × Bool
  queue_from_queue otherq q = (q, false)

  pub prepend_queue : Queue A → Queue A → Queue A × Bool
  prepend_queue otherq q = (q, false)

  pub prepend : A → Queue A → Queue A × Bool
  prepend obj q = (q, false)

  pub cast_queue : Queue A → Queue A → Queue A × Bool
  cast_queue otherq q = (q, false)

  unfoldable pub cast_vector : List A → Queue A → Queue A × Bool
  cast_vector items q = (q, false)

  pub call_queue : Queue A → Queue A → Queue A × Bool
  call_queue otherq q = (q, false)

  pub call_object : A → Queue A → Queue A × Bool
  call_object item q = (q, false)

  pub call_vector : List A → Queue A → Queue A × Bool
  call_vector items q = (q, false)

  notify_reader : Queue A → Queue A
  notify_reader q = if q.blocking_r then record q { cond_pred_r = true } else q

  unfoldable pub cast_object : A → Queue A → Queue A × Bool
  unfolding notify_reader
  cast_object item q =
      if leb ((length q.its_q + 1) % word_mod) q.max_q_size
      then (notify_reader (record q { blocking_w = false; its_q = q.its_q ++ item ∷ [] }), true)
      else (q, false)

  -- `pull` up to the wait: the test of `paused`, then, where reads block, that of the size.
  unfoldable pub pull_enter : Queue A → Queue A × Phase
  pull_enter q =
      if q.paused
      then (q, refused)
      else if q.blocking_r
      then (if sle (length q.its_q) q.min_q_size
          then (record q { cond_pred_r = false }, waiting)
          else (record q { cond_pred_r = true }, ready))
      else (q, ready)

  -- The predicate of `cvR.wait`, at each wake-up.
  unfoldable pub pull_wake : Queue A → Queue A × Phase
  pull_wake q =
      if ltb q.min_q_size (length q.its_q)
      then (record q { cond_pred_r = true }, ready)
      else (record q { cond_pred_r = false }, waiting)

  notify_writer : Queue A → Queue A
  notify_writer q = if q.blocking_w then record q { cond_pred_w = true } else q

  pop_front : ⦃item : Item A⦄ → Queue A → List A → Queue A × A × Bool
  unfolding notify_writer
  pop_front ⦃item⦄ q [] = (q, item.default, false)
  pop_front q (x ∷ rest) = (notify_writer (record q { its_q = rest }), x, true)

  -- The last part of `pull`, under the lock. (`front` is not called on an empty queue: the test
  -- is strict.)
  unfoldable pub pull_take : ⦃item : Item A⦄ → Queue A → Queue A × A × Bool
  unfolding pop_front
  pull_take ⦃item⦄ q =
      if ltb q.min_q_size (length q.its_q) then pop_front q q.its_q else (q, item.default, false)

  after_enter : ⦃item : Item A⦄ → Queue A × Phase → Pull A
  after_enter ⦃item⦄ (q, refused) = returned q item.default false
  after_enter (q, waiting) = asleep q
  after_enter (q, ready) = let (q', x, success) = pull_take q in returned q' x success

  unfoldable pub pull : ⦃item : Item A⦄ → Queue A → Pull A
  unfolding after_enter pull_enter pull_take
  pull q = after_enter (pull_enter q)

  pub size : Queue A → ℕ
  size q = length q.its_q

  pub is_empty : Queue A → Bool
  is_empty q = length q.its_q == 0

  pub is_blocking_read : Queue A → Bool
  is_blocking_read q = q.blocking_r

  pub is_blocking_write : Queue A → Bool
  is_blocking_write q = q.blocking_w

  pub pause : Queue A → Queue A
  pause q = record q { paused = true }

  pub resume : Queue A → Queue A
  resume q = record q { paused = false }

  unfoldable pub purge : Queue A → Queue A
  unfolding release_all
  purge q = release_all q
