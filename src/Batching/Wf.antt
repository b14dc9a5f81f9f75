-- ===== src/Batching/Wf.antt =====
-- CPPAFKBatchingQueue.hpp: the invariant of the batching queue, kept by every call, and that no
-- call of it waits for ever or touches an empty deque.
use asyncflow_cpp.Common.{
  ℕ, suc, ◌+◌, ◌≤◌, ◌<◌, ◌≡◌, ◌≢◌, refl, Bool, true, false, List, [], ◌∷◌, ◌++◌, arith, ap, length,
  length-append, All, All-append, sign_bit, Item, Outcome, done, append-nil, Bool-cases, inl, inr,
  ltb, append_assoc,
}
use asyncflow_cpp.Batching.{
  Wrap, Batching, Pull, returned, new_wrap, clear_relax_q, cast_object, cast_object_to_batch,
  push_batch, commit_batch, take_item, take_front,
}

-- The items that wait in the committed batches, in the order in which they are handed out.
abbrev pub batches {ℓ} : {A : Type ℓ} → List (Wrap A) → List A
batches [] = []
batches (w ∷ ws) = w.many ++ batches ws

abbrev pub items {ℓ} : {A : Type ℓ} → Batching A → List A
items b = batches b.its_bq

abbrev pub HasItems {ℓ} : {A : Type ℓ} → Wrap A → Type ℓ
HasItems w = w.many ≢ []

-- `netCount` is the number of items in committed batches, none of which is empty, and with the
-- open batch they are at most `n`; the limits are in order, and those of Queue are unset.
pub record IsWf {ℓ} {A : Type ℓ} (n : ℕ) (b : Batching A) : Type ℓ where
  pub counted : b.net_count ≡ length (items b)
  pub nonempty : All HasItems b.its_bq
  pub bounded : length (items b) + length (b.temp.many) ≤ n
  pub ordered : b.batch_limit_lower ≤ b.batch_limit_upper
  pub no_min : b.min_q_size ≡ 0
  pub no_block : b.blocking_w ≡ false

module _ {ℓ} {A : Type ℓ} where
  pub batches-append : (ws vs : List (Wrap A)) → batches (ws ++ vs) ≡ batches ws ++ batches vs
  batches-append [] vs = refl
  batches-append (w ∷ ws) vs =
      rw (batches-append ws vs, append_assoc w.many (batches ws) (batches vs))

module _ {A : Type 0} where
  pub IsWf-mono : {n m : ℕ} (b : Batching A) → n ≤ m → IsWf n b → IsWf m b
  IsWf-mono b h v = record {
    counted = v.counted;
    nonempty = v.nonempty;
    bounded = omega (arith, v.bounded);
    ordered = v.ordered;
    no_min = v.no_min;
    no_block = v.no_block;
  }

  pub clear_relax_q-IsWf : {n : ℕ} (b : Batching A) → IsWf n b → IsWf n (clear_relax_q b)
  unfolding clear_relax_q
  clear_relax_q-IsWf b v = record {
    counted = v.counted;
    nonempty = v.nonempty;
    bounded = v.bounded;
    ordered = v.ordered;
    no_min = v.no_min;
    no_block = v.no_block;
  }

  pub length-items-append :
      (b : Batching A) (w : Wrap A)
      → length (batches (b.its_bq ++ w ∷ [])) ≡ length (items b) + length w.many
  length-items-append b w =
      rw (
        batches-append b.its_bq (w ∷ []),
        length-append (items b) (w.many ++ []),
        append-nil w.many,
      )

  pub cast_object-IsWf :
      (x : A) {n : ℕ} (b : Batching A)
      → suc n < sign_bit
      → IsWf n b
      → IsWf (suc n) (cast_object x b).0
  unfolding cast_object clear_relax_q new_wrap
  cast_object-IsWf x b h v =
      let added = length-items-append b (record (new_wrap (x ∷ [])) { discarded = true }) in
      record {
        counted = omega (arith, added, v.counted, v.bounded);
        nonempty = All-append HasItems b.its_bq _ v.nonempty ((λ e. cc), tt);
        bounded = omega (arith, added, v.bounded);
        ordered = v.ordered;
        no_min = v.no_min;
        no_block = v.no_block;
      }

  push_batch-IsWf : {n : ℕ} (b : Batching A) → n < sign_bit → IsWf n b → IsWf n (push_batch b).0
  unfolding push_batch new_wrap
  push_batch-IsWf b h v = elim (Bool-cases (ltb 0 (length (b.temp.many)))) [
    | inr none_open ↦ rw (none_open, push_batch) v
    | inl some_open ↦
        let added = length-items-append b (b.temp) in
        rw (some_open, push_batch)
          (record {
            counted = omega (arith, added, v.counted, v.bounded);
            nonempty =
                All-append HasItems b.its_bq _ v.nonempty ((λ e. ground (arith, ap length e)), tt);
            bounded = omega (arith, added, v.bounded);
            ordered = v.ordered;
            no_min = v.no_min;
            no_block = v.no_block;
          })
  ]

  pub commit_batch-IsWf :
      (force : Bool) {n : ℕ} (b : Batching A)
      → n < sign_bit
      → IsWf n b
      → IsWf n (commit_batch force b).0
  unfolding commit_batch
  commit_batch-IsWf force b h v =
      let c = clear_relax_q b in
      let v' = clear_relax_q-IsWf b v in ground (arith, v', push_batch-IsWf c h v')

  pub cast_object_to_batch-IsWf :
      ⦃item : Item A⦄ (x : A) {n : ℕ} (b : Batching A)
      → IsWf n b
      → IsWf (suc n) (cast_object_to_batch x b).0
  unfolding cast_object_to_batch clear_relax_q
  cast_object_to_batch-IsWf ⦃item⦄ x b v = elim (Bool-cases (item.truthy x)) [
    | inl t ↦
        rw (t, cast_object_to_batch)
          (record {
            counted = v.counted;
            nonempty = v.nonempty;
            bounded = omega (arith, length-append (b.temp.many) (x ∷ []), v.bounded);
            ordered = v.ordered;
            no_min = v.no_min;
            no_block = v.no_block;
          })
    | inr f ↦
        rw (f, cast_object_to_batch)
          (IsWf-mono (clear_relax_q b) (omega arith) (clear_relax_q-IsWf b v))
  ]

  -- What `pull` hands out when a committed item waits: the oldest one.
  abbrev pub Hands : ℕ → Batching A → Outcome (Pull A) → Type 0
  Hands n b r =
      (x : A) × (b' : Batching A) × (r ≡ done (returned b' x true))
      × (items b ≡ x ∷ items b')
      × (b'.temp ≡ b.temp)
      × (b'.queue ≡ b.queue)
      × IsWf n b'

  pub take_front-Hands :
      ⦃item : Item A⦄ {n : ℕ} (b : Batching A) (ws : List (Wrap A))
      → b.its_bq ≡ ws
      → n < sign_bit
      → IsWf n b
      → 0 < length (items b)
      → Hands n b (take_front b ws)
  unfolding take_front
  take_front-Hands b [] e h v p = absurd (ground (arith, ap batches e))
  take_front-Hands {n} b (w ∷ ws) e h v p = go w.many refl
    where
      full : All HasItems (w ∷ ws)
      full = rw e at v.nonempty

      held : items b ≡ w.many ++ batches ws
      held = ap batches e

      go : (xs : List A) → w.many ≡ xs → Hands n b (done (take_item b w xs ws))
      go [] e' = absurd (full.0 e')
      go (x ∷ []) e' = (
        x,
        _,
        refl,
        ground (arith, e', held),
        refl,
        refl,
        record {
          counted = ground (arith, e', held, v.counted, v.bounded);
          nonempty = full.1;
          bounded = ground (arith, e', held, v.bounded);
          ordered = v.ordered;
          no_min = v.no_min;
          no_block = v.no_block;
        },
      )
      go (x ∷ y ∷ xs) e' = (
        x,
        _,
        refl,
        ground (arith, e', held),
        refl,
        refl,
        record {
          counted = ground (arith, e', held, v.counted, v.bounded);
          nonempty = ((λ e. cc), full.1);
          bounded = ground (arith, e', held, v.bounded);
          ordered = v.ordered;
          no_min = v.no_min;
          no_block = v.no_block;
        },
      )
