-- ===== src/Pool/Partition.antt =====
-- CPPAFKThreadpool.cpp, reassignProcs: how the sessions are shared out among the processors.
use native.Mathlib.Decide.{ℕ_discrete}
use native.Mathlib.Nat.{div-add-mod, zero-mul, suc-mul}
use asyncflow_cpp.Common.{
  ℕ, zero, suc, ◌+◌, ◌-◌, ◌*◌, ◌/◌, ◌%◌, ◌≤◌, ◌<◌, ◌≡◌, ◌≢◌, ◌⊎◌, refl, ap, sym, List, [], ◌∷◌,
  ◌++◌, arith, length, replicate, All, done, ltb, if◌then◌else◌, inl, inr,
}
use asyncflow_cpp.Pool.{Config, Range}
use asyncflow_cpp.Pool.Scheduling.{ranges_for, wrapped_ranges, even_ranges, no_range}

-- The numbers from `lb` on, and those of a list of ranges.
abbrev pub count_from : ℕ → ℕ → List ℕ
count_from lb zero = []
count_from lb (suc n) = lb ∷ count_from (suc lb) n

abbrev pub indexes : List Range → List ℕ
indexes [] = []
indexes (r ∷ rs) = count_from r.low_bound r.count ++ indexes rs

count_from-add :
    (lb n c m k : ℕ) → c ≡ lb + n → k ≡ n + m → count_from lb n ++ count_from c m ≡ count_from lb k
count_from-add lb zero c m k f e =
    let same : c ≡ lb = omega (arith, f) in let all : k ≡ m = omega (arith, e) in rw (same, all)
count_from-add lb (suc n) c m k f e =
    let more : k ≡ suc (n + m) = omega (arith, e) in
    rw more (ap (◌∷◌ lb) (count_from-add (suc lb) n c m (n + m) (omega (arith, f)) refl))

even_indexes :
    (share residue lb n k : ℕ)
    → residue ≤ n
    → k ≡ n * share + residue
    → indexes (even_ranges share residue lb n) ≡ count_from lb k
unfolding even_ranges
even_indexes share residue lb zero k h e =
    let none : k ≡ 0 = omega (arith, e, h, zero-mul share) in rw none
even_indexes share residue lb (suc n) k h e =
    let count = share + (if ltb 0 residue then 1 else 0) in
    let rest = n * share + (residue - 1) in
    rw (even_indexes share (residue - 1) (lb + count) n rest (omega arith) refl)
      (count_from-add lb count (lb + count) rest k refl (ground (arith, e, suc-mul n share)))

-- The counts differ by one at most.
abbrev pub IsEven : ℕ → Range → Type 0
IsEven share r = (share ≤ r.count) × (r.count ≤ share + 1)

even_ranges-IsEven : (share residue lb n : ℕ) → All (IsEven share) (even_ranges share residue lb n)
unfolding even_ranges
even_ranges-IsEven share residue lb zero = tt
even_ranges-IsEven share residue lb (suc n) =
    (ground arith, even_ranges-IsEven share (residue - 1) _ n)

wrapped_counts :
    (required proc n : ℕ)
    → required ≢ 0
    → All (λ r. (r.count ≡ 1) × (r.low_bound < required)) (wrapped_ranges required proc n)
unfolding wrapped_ranges
wrapped_counts required proc zero h = tt
wrapped_counts required proc (suc n) h =
    ((refl, omega arith), wrapped_counts required (suc proc) n h)

pub length-even : (share residue lb n : ℕ) → length (even_ranges share residue lb n) ≡ n
unfolding even_ranges
length-even share residue lb zero = refl
length-even share residue lb (suc n) = ap suc (length-even share (residue - 1) _ n)

pub length-wrapped : (required proc n : ℕ) → length (wrapped_ranges required proc n) ≡ n
unfolding wrapped_ranges
length-wrapped required proc zero = refl
length-wrapped required proc (suc n) = ap suc (length-wrapped required (suc proc) n)

pub length-replicate : {A : Type 0} (n : ℕ) (a : A) → length (replicate n a) ≡ n
length-replicate zero a = refl
length-replicate (suc n) a = ap suc (length-replicate n a)

-- With a required count that is at least the number of threads, in the configuration that the loops
-- are given, each thread has a range, the ranges together are the numbers below that count, each
-- once and in order, and their lengths differ by one at most.
pub ranges_for_partition :
    (tpc : Config)
    → 0 < tpc.actual_threads_count
    → tpc.actual_threads_count ≤ tpc.required_threads_count
    → (rs : List Range) × (ranges_for tpc ≡ done rs)
      × (length rs ≡ tpc.actual_threads_count)
      × (indexes rs ≡ count_from 0 tpc.required_threads_count)
      × All (IsEven (tpc.required_threads_count / tpc.actual_threads_count)) rs
unfolding ranges_for
ranges_for_partition tpc p h = (
  _,
  ground (arith, p, h),
  length-even share residue 0 actual,
  even_indexes share residue 0 actual required (omega (arith, p))
      (sym (div-add-mod required actual)),
  even_ranges-IsEven share residue 0 actual,
)
  where
    required : ℕ
    required = tpc.required_threads_count

    actual : ℕ
    actual = tpc.actual_threads_count

    share : ℕ
    share = required / actual

    residue : ℕ
    residue = required % actual

indexes-nothing : (n : ℕ) → indexes (replicate n no_range) ≡ []
indexes-nothing zero = refl
indexes-nothing (suc n) = indexes-nothing n

-- With fewer sessions than processors, but at least one, each processor has the number of one
-- session; with none, the ranges are empty.
pub ranges_for_few :
    (tpc : Config)
    → tpc.required_threads_count < tpc.actual_threads_count
    → (rs : List Range) × (ranges_for tpc ≡ done rs)
      × (length rs ≡ tpc.actual_threads_count)
      × (((tpc.required_threads_count ≡ 0) × (indexes rs ≡ []))
          ⊎ All (λ r. (r.count ≡ 1) × (r.low_bound < tpc.required_threads_count)) rs)
unfolding ranges_for
ranges_for_few tpc h = elim (ℕ_discrete tpc.required_threads_count 0) [
  | yes z ↦ (
    _,
    ground (arith, z),
    length-replicate tpc.actual_threads_count no_range,
    inl (z, indexes-nothing tpc.actual_threads_count),
  )
  | no nz ↦ (
    _,
    ground (arith, nz, h),
    length-wrapped tpc.required_threads_count 0 tpc.actual_threads_count,
    inr (wrapped_counts tpc.required_threads_count 0 tpc.actual_threads_count nz),
  )
]
