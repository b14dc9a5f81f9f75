-- ===== src/Batching.antt =====
-- CPPAFKBatchingQueue.hpp, with the wrapper of a batch from CPPAFKBase.hpp: a FIFO queue of batches
-- that hands out single items. Each method is one step, as in Queue. `tempWBQ` is never null
-- between the constructor and the destructor.
mod Parts
unfoldable pub use Parts.*
pub mod Wf
pub mod Contents
pub mod Extraction
pub mod Steps
use asyncflow_cpp.Common.{
  ℕ, ◌==◌, Bool, true, false, List, [], ◌∷◌, ◌++◌, ◌||◌, if◌then◌else◌, ltb, slt, length, int64_max,
  uint64_max, add64, sub64, Item, Outcome, done, stuck, undefined, ◌>>=◌,
}
use asyncflow_cpp.Queue
use asyncflow_cpp.Queue.{Queue}

module _ {ℓ} {A : Type ℓ} where
  -- `_reset`; `blockingR` is kept.
  unfoldable pub init : Batching A → Batching A
  unfolding clear_relax_q
  init b = clear_relax_q (record b {
    batch_limit_upper = uint64_max;
    batch_limit_lower = 0;
    net_count = 0;
    queue = record (b.queue) {
      paused = false;
      min_q_size = 0;
      max_q_size = int64_max;
      cond_pred_r = false;
      cond_pred_w = false;
    };
  })

  unfoldable pub new : Bool → Batching A
  unfolding Queue.new new_wrap
  new blk_r = record {
    queue = Queue.new blk_r;
    batch_limit_upper = uint64_max;
    batch_limit_lower = 0;
    net_count = 0;
    temp = new_wrap [];
    its_bq = [];
    relaxing = [];
  }

  unfoldable pub set_max_q_size : ℕ → Batching A → Batching A × Bool
  set_max_q_size size b = (b, false)

  unfoldable pub set_min_q_size : ℕ → Batching A → Batching A × Bool
  set_min_q_size size b = (b, false)

  unfoldable pub set_upper_batch_limit : ℕ → Batching A → Batching A × Bool
  set_upper_batch_limit limit b =
      if ltb limit b.batch_limit_lower
      then (b, false)
      else (record b { batch_limit_upper = limit }, true)

  unfoldable pub set_lower_batch_limit : ℕ → Batching A → Batching A × Bool
  set_lower_batch_limit limit b =
      if ltb b.batch_limit_upper limit
      then (b, false)
      else (record b { batch_limit_lower = limit }, true)

  -- The loop of `purge`: with `blockingW` it locks `lock` again under its own guard.
  purge_loop : Bool → List (Wrap A) → Outcome (List (Wrap A))
  purge_loop blocking_w [] = done []
  purge_loop blocking_w (w ∷ ws) = if blocking_w then stuck else purge_loop blocking_w ws

  pub purge_readers : Batching A → Batching A
  purge_readers b =
      if b.blocking_r then record b { queue = record (b.queue) { cond_pred_r = true } } else b

  unfoldable pub purge : Batching A → Outcome (Batching A)
  unfolding purge_loop purge_readers
  purge b = do
    rest ← purge_loop b.blocking_w b.its_bq
    done (record (purge_readers b) { its_bq = rest; net_count = 0 })

  unfoldable pub reset : Batching A → Outcome (Batching A)
  unfolding init purge
  reset b = do
    p ← purge b
    done (
        init (record p {
          batch_limit_upper = uint64_max;
          batch_limit_lower = 0;
          temp = record (p.temp) { many = [] };
        }))

  pub relax : Batching A → Batching A
  relax b = clear_relax_q b

  -- `discarded` is set behind the lock: the writer still holds the pointer until then.
  unfoldable pub cast_object : A → Batching A → Batching A × Bool
  unfolding clear_relax_q new_wrap
  cast_object item b =
      let c = clear_relax_q b in
      (
        record c {
          its_bq = c.its_bq ++ record (new_wrap (item ∷ [])) { discarded = true } ∷ [];
          net_count = add64 c.net_count 1;
        },
        true,
      )

  unfoldable pub cast_vector : List A → Batching A → Batching A × Bool
  cast_vector items b = (b, false)

  pub call_object : A → Batching A → Batching A × Bool
  call_object item b = (b, false)

  pub call_vector : List A → Batching A → Batching A × Bool
  call_vector items b = (b, false)

  pub candidate_count : Batching A → ℕ
  candidate_count b = length (b.temp.many)

  unfoldable pub cast_object_to_batch : ⦃item : Item A⦄ → A → Batching A → Batching A × Bool
  unfolding clear_relax_q
  cast_object_to_batch ⦃item⦄ obj b =
      let c = clear_relax_q b in
      if item.truthy obj
      then (record c { temp = record (c.temp) { many = c.temp.many ++ obj ∷ [] } }, true)
      else (c, false)

  -- The limits of a batch are compared with `many.size()`, so as unsigned numbers.
  abbrev pub violates : Batching A → Bool
  violates b =
      ltb (length (b.temp.many)) b.batch_limit_lower
      || ltb b.batch_limit_upper (length (b.temp.many))

  push_batch : Batching A → Batching A × Bool
  unfolding new_wrap
  push_batch c =
      if ltb 0 (length (c.temp.many))
      then (
        record c {
          its_bq = c.its_bq ++ c.temp ∷ [];
          net_count = add64 c.net_count (length (c.temp.many));
          temp = new_wrap [];
        },
        true,
      )
      else (c, false)

  unfoldable pub commit_batch : Bool → Batching A → Batching A × Bool
  unfolding clear_relax_q push_batch
  commit_batch force b =
      let c = clear_relax_q b in
      if force then push_batch c else if violates c then (c, false) else push_batch c

  unfoldable pub reset_batch : Batching A → Batching A × Bool
  unfolding clear_relax_q
  reset_batch b =
      let c = clear_relax_q b in
      if ltb 0 (length (c.temp.many))
      then (record c { temp = record (c.temp) { many = [] } }, true)
      else (c, false)

  unfoldable pub pause : Batching A → Batching A
  unfolding clear_relax_q
  pause b = let c = clear_relax_q b in record c { queue = record (c.queue) { paused = true } }

  unfoldable pub resume : Batching A → Batching A
  unfolding clear_relax_q
  resume b = let c = clear_relax_q b in record c { queue = record (c.queue) { paused = false } }

  pub batch_count : Batching A → Batching A × ℕ
  batch_count b = let c = clear_relax_q b in (c, length c.its_bq)

  unfoldable pub size : Batching A → Batching A × ℕ
  unfolding clear_relax_q
  size b = let c = clear_relax_q b in (c, c.net_count)

  pub is_empty : Batching A → Batching A × Bool
  is_empty b = let c = clear_relax_q b in (c, length c.its_bq == 0)

-- A call of `pull` that no other thread interrupts: it returns, or sleeps on `cvR`.
pub data Pull {ℓ} (A : Type ℓ) : Type ℓ where
  returned : Batching A → A → Bool → Pull A
  asleep : Batching A → Pull A

module _ {ℓ} {A : Type ℓ} where
  -- A batch that is used up leaves the queue for `itsRelaxingQ`, its writer released.
  retire : Batching A → Wrap A → List (Wrap A) → Batching A
  retire c w ws = record c {
    its_bq = ws;
    relaxing =
        c.relaxing ++ (if w.wait_until_read then record w { cond_pred_w = true } else w) ∷ [];
  }

  take_item : ⦃item : Item A⦄ → Batching A → Wrap A → List A → List (Wrap A) → Pull A
  unfolding retire
  take_item ⦃item⦄ c w [] ws = returned c item.default false
  take_item c w (x ∷ []) ws =
      returned (retire (record c { net_count = sub64 c.net_count 1 }) (record w { many = [] }) ws) x
        true
  take_item c w (x ∷ y ∷ xs) ws =
      returned
        (record c { net_count = sub64 c.net_count 1; its_bq = record w { many = y ∷ xs } ∷ ws }) x
        true

  pub take_front : ⦃item : Item A⦄ → Batching A → List (Wrap A) → Outcome (Pull A)
  unfolding take_item
  take_front c [] = undefined
  take_front c (w ∷ ws) = done (take_item c w w.many ws)

  unfoldable pub pull : ⦃item : Item A⦄ → Batching A → Outcome (Pull A)
  unfolding clear_relax_q take_front
  pull ⦃item⦄ b =
      let c = clear_relax_q b in
      if c.paused
      then done (returned c item.default false)
      else if slt c.min_q_size c.net_count
      then take_front c c.its_bq
      else if c.blocking_r
      then done (asleep (record c { queue = record (c.queue) { cond_pred_r = false } }))
      else done (returned c item.default false)

  -- The rest of `pull` behind `cvR.wait`, at each wake-up: it takes nothing.
  unfoldable pub pull_woken : ⦃item : Item A⦄ → Batching A → Pull A
  pull_woken ⦃item⦄ b =
      if slt b.min_q_size b.net_count
      then returned (record b { queue = record (b.queue) { cond_pred_r = true } }) item.default
          false
      else asleep (record b { queue = record (b.queue) { cond_pred_r = false } })
