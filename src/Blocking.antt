-- ===== src/Blocking.antt =====
-- CPPAFKThreadpool.hpp, CPPAFKBatchingQueue2 and CPPAFKBatchingQueue3: batching queues whose used-up
-- batches wait in `deferred` until their writer is released.
pub mod Deferral
use asyncflow_cpp.Common.{
  ℕ, Bool, true, false, List, [], ◌∷◌, ◌++◌, if◌then◌else◌, add64, sub64, Item, Option, none, some,
}
use asyncflow_cpp.Batching
use asyncflow_cpp.Batching.{Batching, Wrap, new_wrap}

pub record Blocking {ℓ} (A : Type ℓ) : Type ℓ where
  pub batching : Batching A
  pub open batching use *
  pub deferred : List (Wrap A)

abbrev pub set_deferred {ℓ} : {A : Type ℓ} → List (Wrap A) → Blocking A → Blocking A
set_deferred ws b = record b { deferred = ws }

-- What pullAndBatchStatus leaves: the queue, the item or T(), and its two flags.
pub record Got {ℓ} (A : Type ℓ) : Type ℓ where
  pub state : Blocking A
  pub item : A
  pub end_batch : Bool
  pub success : Bool

module _ {ℓ} {A : Type ℓ} where
  unfoldable pub new : Bool → Blocking A
  unfolding Batching.new
  new blk_w = record {
    batching = record blank { queue = record (blank.queue) { blocking_w = blk_w } };
    deferred = [];
  }
    where
      blank : Batching A
      blank = Batching.new false

  drop_first : List (Wrap A) → List (Wrap A)
  drop_first [] = []
  drop_first (w ∷ ws) = ws

  -- The front is popped, but the pointer that is returned is another variable, which is null.
  unfoldable pub pull_deferred : Blocking A → Blocking A × Option (Wrap A)
  unfolding drop_first
  pull_deferred b = (set_deferred (drop_first b.deferred) b, none)

  discard : Wrap A → Wrap A
  discard w = record w { cond_pred_w = true; discarded = true }

  discard_all : List (Wrap A) → List (Wrap A)
  unfolding discard
  discard_all [] = []
  discard_all (w ∷ ws) = discard w ∷ discard_all ws

  -- The wrappers go to the collector, in order.
  unfoldable pub flush : Blocking A → Blocking A × List (Wrap A)
  unfolding discard_all
  flush b = (set_deferred [] b, discard_all b.deferred)

  -- A batch that is used up.
  retire : Wrap A → Blocking A → Blocking A
  retire w b = if b.blocking_w then set_deferred (b.deferred ++ w ∷ []) b else record b {
    batching = record (b.batching) {
      relaxing = b.relaxing ++ record w { cond_pred_w = true } ∷ [];
    };
  }

  set_bq : List (Wrap A) → ℕ → Blocking A → Blocking A
  set_bq ws n b = record b { batching = record (b.batching) { its_bq = ws; net_count = n } }

  take_item : ⦃item : Item A⦄ → Blocking A → Bool → Bool → Wrap A → List A → List (Wrap A) → Got A
  unfolding retire set_bq
  take_item ⦃item⦄ b before after w [] ws = record {
    state = b;
    item = item.default;
    end_batch = false;
    success = before;
  }
  take_item b before after w (x ∷ []) ws = record {
    state = retire (record w { many = [] }) (set_bq ws (sub64 b.net_count 1) b);
    item = x;
    end_batch = true;
    success = after;
  }
  take_item b before after w (x ∷ y ∷ xs) ws = record {
    state = set_bq (record w { many = y ∷ xs } ∷ ws) (sub64 b.net_count 1) b;
    item = x;
    end_batch = false;
    success = after;
  }

  take_front : ⦃item : Item A⦄ → Blocking A → Bool → Bool → List (Wrap A) → Got A
  unfolding take_item
  take_front ⦃item⦄ b before after [] = record {
    state = b;
    item = item.default;
    end_batch = false;
    success = before;
  }
  take_front b before after (w ∷ ws) = take_item b before after w w.many ws

  -- Of CPPAFKBatchingQueue2. `success` is the caller's variable, which only a success writes.
  unfoldable pub pull_and_batch_status : ⦃item : Item A⦄ → Bool → Blocking A → Got A
  unfolding take_front
  pull_and_batch_status ⦃item⦄ success b = elim b.deferred [
    | [] ↦ take_front b success true b.its_bq
    | w ∷ ws ↦ record { state = b; item = item.default; end_batch = false; success = success }
  ]

  -- Of CPPAFKBatchingQueue3, which hides it: batches that wait do not stop it, and `success` is
  -- never written.
  unfoldable pub pull_and_batch_status3 : ⦃item : Item A⦄ → Bool → Blocking A → Got A
  unfolding take_front
  pull_and_batch_status3 success b = take_front b success success b.its_bq

  push_wrap : List A → Blocking A → Blocking A
  unfolding new_wrap
  push_wrap many b = record b {
    batching = record (b.batching) {
      its_bq = b.its_bq ++ new_wrap many ∷ [];
      net_count = add64 b.net_count 1;
    };
  }

  unfoldable pub cast_object : A → Blocking A → Blocking A × Bool
  unfolding push_wrap
  cast_object item b = (push_wrap (item ∷ []) b, true)

  -- `netCount` grows by one for the whole vector.
  unfoldable pub cast_vector : List A → Blocking A → Blocking A × Bool
  unfolding push_wrap
  cast_vector items b = (push_wrap items b, true)

  pub call_object : A → Blocking A → Blocking A × Bool
  call_object item b = (b, false)

  pub call_vector : List A → Blocking A → Blocking A × Bool
  call_vector items b = (b, false)

  relax_released : Wrap A → Blocking A → Blocking A
  relax_released w b = record b {
    batching = record (b.batching) {
      relaxing = b.relaxing ++ record w { cond_pred_w = true } ∷ [];
    };
  }

  -- Of both classes.
  unfoldable pub release_first : Blocking A → Blocking A
  unfolding relax_released
  release_first b = elim b.deferred [ [] ↦ b | w ∷ ws ↦ set_deferred ws (relax_released w b) ]

  release_loop : List (Wrap A) → Blocking A → Blocking A
  unfolding relax_released
  release_loop [] b = set_deferred [] b
  release_loop (w ∷ ws) b = release_loop ws (relax_released w b)

  unfoldable pub release_all : Blocking A → Blocking A
  unfolding release_loop
  release_all b = release_loop b.deferred b

  unfoldable pub size : Blocking A → Blocking A × ℕ
  unfolding Batching.size
  size b = let (c, n) = Batching.size b.batching in (record b { batching = c }, n)
