-- ===== src/Queue/Limits.antt =====
-- CPPAFKQueue.hpp: the size limits, as invariant of any sequence of calls, and what each branch of
-- an insertion and of an extraction does within them.
use asyncflow_cpp.Common.{
  ℕ, ◌≤◌, ◌<◌, ◌≡◌, refl, ◌⊎◌, inl, inr, Bool, true, false, List, [], ◌∷◌, ◌++◌, arith, ap, length,
  length-append, word_mod, sign_bit, Item, All, Bool-cases, inl, inr,
}
use native.Mathlib.Decide.{dec_lt}
use asyncflow_cpp.Queue.{
  Queue, returned, asleep, new, reset, set_max_q_size, set_min_q_size, cast_object, pull_enter,
  pull_wake, pull_take, pull, pause, resume, purge, pop_front,
}

-- The limits are not negative and in order, and the size is within `CPPAFKQSize_t`.
pub record IsWf {ℓ} {A : Type ℓ} (q : Queue A) : Type 0 where
  pub limits : q.min_q_size ≤ q.max_q_size
  pub max_positive : q.max_q_size < sign_bit
  pub size_fits : length q.its_q < sign_bit

pub data Op {ℓ} (A : Type ℓ) : Type ℓ where
  cast : A → Op A
  enter wake take stop go purges resets : Op A
  max_to min_to : ℕ → Op A

-- The arguments that are words, where the new lower limit is not negative.
abbrev pub IsLegal {ℓ} : {A : Type ℓ} → Op A → Type 0
IsLegal (max_to n) = n < word_mod
IsLegal (min_to n) = n < sign_bit
IsLegal _ = Unit

module _ {ℓ} {A : Type ℓ} ⦃item : Item A⦄ where
  pub step : Op A → Queue A → Queue A
  step (cast x) q = (cast_object x q).0
  step enter q = (pull_enter q).0
  step wake q = (pull_wake q).0
  step take q = (pull_take q).0
  step stop q = pause q
  step go q = resume q
  step purges q = purge q
  step resets q = reset q
  step (max_to n) q = (set_max_q_size n q).0
  step (min_to n) q = (set_min_q_size n q).0

  pub run : List (Op A) → Queue A → Queue A
  run [] q = q
  run (o ∷ os) q = run os (step o q)

  cast_object-IsWf : (x : A) (q : Queue A) → IsWf q → IsWf (cast_object x q).0
  unfolding cast_object
  cast_object-IsWf x q v = ground (arith, length-append q.its_q (x ∷ []))

  pop_front-IsWf : (q : Queue A) (xs : List A) → q.its_q ≡ xs → IsWf q → IsWf (pop_front q xs).0
  unfolding pop_front
  pop_front-IsWf q [] e v = v
  pop_front-IsWf q (x ∷ xs) e v = ground (arith, ap length e)

  pull_take-IsWf : (q : Queue A) → IsWf q → IsWf (pull_take q).0
  unfolding pull_take
  pull_take-IsWf q v = ground (arith, pop_front-IsWf q q.its_q refl v)

  step-IsWf : (o : Op A) (q : Queue A) → IsLegal o → IsWf q → IsWf (step o q)
  unfolding step pull_enter pull_wake pause resume purge reset set_max_q_size set_min_q_size
  step-IsWf (cast x) q h v = cast_object-IsWf x q v
  step-IsWf enter q h v = ground arith
  step-IsWf wake q h v = ground arith
  step-IsWf take q h v = pull_take-IsWf q v
  step-IsWf stop q h v = ground arith
  step-IsWf go q h v = ground arith
  step-IsWf purges q h v = ground arith
  step-IsWf resets q h v = ground arith
  step-IsWf (max_to n) q h v = ground arith
  step-IsWf (min_to n) q h v = ground arith

  run-IsWf : (os : List (Op A)) (q : Queue A) → All IsLegal os → IsWf q → IsWf (run os q)
  unfolding run
  run-IsWf [] q h v = v
  run-IsWf (o ∷ os) q h v = run-IsWf os (step o q) h.1 (step-IsWf o q h.0 v)

  -- After any calls on a new queue, in which no lower limit that is set is negative, the limits
  -- are 0 ≤ lower ≤ upper < 2 ^ 63 and the size is below 2 ^ 63.
  pub run-new-IsWf : (b : Bool) (os : List (Op A)) → All IsLegal os → IsWf (run os (new b))
  unfolding new
  run-new-IsWf b os h = run-IsWf os (new b) h (ground arith)

module _ {A : Type 0} ⦃item : Item A⦄ where
  -- Within the limits `castObject` answers true exactly when the size is below the upper limit; it
  -- then appends the item, unblocks writes and keeps both limits, and otherwise changes nothing.
  pub cast_object_within :
      (x : A) (q : Queue A)
      → IsWf q
      → (((length q.its_q < q.max_q_size)
            × ((cast_object x q).1 ≡ true)
            × ((cast_object x q).0.its_q ≡ q.its_q ++ x ∷ [])
            × ((cast_object x q).0.blocking_w ≡ false)
            × ((cast_object x q).0.min_q_size ≡ q.min_q_size)
            × ((cast_object x q).0.max_q_size ≡ q.max_q_size))
          ⊎ ((q.max_q_size ≤ length q.its_q) × (cast_object x q ≡ (q, false))))
  unfolding cast_object
  cast_object_within x q v = ground arith

  pull_take-front :
      (q : Queue A)
      → IsWf q
      → q.min_q_size < length q.its_q
      → ((pull_take q).2 ≡ true) × (q.its_q ≡ (pull_take q).1 ∷ (pull_take q).0.its_q)
  unfolding pull_take
  pull_take-front q v h = go q.its_q refl
    where
      go :
          (xs : List A)
          → q.its_q ≡ xs
          → ((pull_take q).2 ≡ true) × (q.its_q ≡ (pull_take q).1 ∷ (pull_take q).0.its_q)
      go [] e = absurd (omega (arith, ap length e))
      go (x ∷ xs) e = ground arith

  abbrev pub Takes : Queue A → Type 0
  Takes q = (x : A) × (q' : Queue A) × (pull q ≡ returned q' x true) × (q.its_q ≡ x ∷ q'.its_q)

  pull-Takes : (q : Queue A) → IsWf q → q.paused ≡ false → q.min_q_size < length q.its_q → Takes q
  unfolding pull
  pull-Takes q v h e =
      ((pull_take r).1, (pull_take r).0, ground (arith, front), ground (arith, front))
    where
      r : Queue A
      r = (pull_enter q).0

      front : ((pull_take r).2 ≡ true) × (r.its_q ≡ (pull_take r).1 ∷ (pull_take r).0.its_q)
      front = pull_take-front r (ground arith) (ground arith)

  -- The four cases of a call of `pull` within the limits. A paused queue refuses it and stays as it
  -- was. One that is not paused hands out its oldest item if it holds more items than the lower
  -- limit; otherwise it fails and stays as it was, or sleeps where reads block, with its items kept.
  pub pull_within :
      (q : Queue A)
      → IsWf q
      → (((q.paused ≡ true) × (pull q ≡ returned q item.default false))
          ⊎ (((q.paused ≡ false) × (q.min_q_size < length q.its_q) × Takes q)
              ⊎ (((q.paused ≡ false)
                    × (length q.its_q ≤ q.min_q_size)
                    × (q.blocking_r ≡ false)
                    × (pull q ≡ returned q item.default false))
                  ⊎ ((q.paused ≡ false)
                      × (length q.its_q ≤ q.min_q_size)
                      × (q.blocking_r ≡ true)
                      × (pull q ≡ asleep (record q { cond_pred_r = false }))))))
  unfolding pull
  pull_within q v = elim (dec_lt q.min_q_size (length q.its_q)) [
    | yes more ↦ elim (Bool-cases q.paused) [
      | inl p ↦ inl (p, ground arith)
      | inr p ↦ inr (inl (p, more, pull-Takes q v p more))
    ]
    | no few ↦ ground arith
  ]

  -- A negative lower limit is accepted by `setMinQSize` on a queue within the limits, and a call
  -- of `pull` then fails at once: it takes no item, however many the queue holds, and does not
  -- sleep until one is there.
  pub negative_limit_shuts :
      (q : Queue A) (n : ℕ)
      → IsWf q
      → sign_bit ≤ n
      → n < word_mod
      → ((set_min_q_size n q).1 ≡ true)
        × ((pull (set_min_q_size n q).0 ≡ returned (set_min_q_size n q).0 item.default false)
            ⊎ (pull (set_min_q_size n q).0
                ≡ returned
                    (record (set_min_q_size n q).0 { cond_pred_r = true })
                    item.default
                    false))
  unfolding pull set_min_q_size
  negative_limit_shuts q n v neg word = ground arith
