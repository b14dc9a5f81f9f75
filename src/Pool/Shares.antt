-- ===== src/Pool/Shares.antt =====
-- CPPAFKThreadpool.cpp, reassignProcs: that it writes a range for every processor.
use native.Mathlib.Decide.{ℕ_discrete, dec_lt}
use native.Mathlib.Nat.{le-div_iff_mul-le}
use asyncflow_cpp.Common.{
  ℕ, zero, suc, ◌≤◌, ◌<◌, ◌≡◌, ◌≢◌, ◌⊎◌, ◌/◌, ◌%◌, inl, inr, refl, sym, ◌∙◌, List, [], ◌∷◌, arith,
  length, replicate, get_elem?, Ptr, none, some, done, ◌>>=◌,
}
use asyncflow_cpp.Pool.{Pool, Config, Range}
use asyncflow_cpp.Pool.Scheduling.{
  ranges_for, wrapped_ranges, even_ranges, overwrite, reassign_procs, resize, no_range,
}
use asyncflow_cpp.Pool.Partition.{length-even, length-wrapped, length-replicate}

-- Whether processor 0 has anything to do.
abbrev pub Busy : Config → List Range → Type 0
Busy tpc [] = ⊥
Busy tpc (r ∷ rs) =
    ((tpc.required_threads_count ≡ 0) × (r.count ≡ 0))
    ⊎ ((tpc.required_threads_count ≢ 0) × (r.count ≢ 0))

replicate-Busy :
    (tpc : Config) (n : ℕ)
    → 0 < n
    → tpc.required_threads_count ≡ 0
    → Busy tpc (replicate n no_range)
replicate-Busy tpc zero h z = absurd (omega (arith, h))
replicate-Busy tpc (suc n) h z = inl (z, refl)

wrapped_ranges-Busy :
    (tpc : Config) (n : ℕ)
    → 0 < n
    → tpc.required_threads_count ≢ 0
    → Busy tpc (wrapped_ranges tpc.required_threads_count 0 n)
unfolding wrapped_ranges
wrapped_ranges-Busy tpc zero h z = absurd (omega (arith, h))
wrapped_ranges-Busy tpc (suc n) h z = inr (z, λ e. omega (arith, e))

even_ranges-Busy :
    (tpc : Config) (share residue n : ℕ)
    → 0 < n
    → tpc.required_threads_count ≢ 0
    → 1 ≤ share
    → Busy tpc (even_ranges share residue 0 n)
unfolding even_ranges
even_ranges-Busy tpc share residue zero h z q = absurd (omega (arith, h))
even_ranges-Busy tpc share residue (suc n) h z q = inr (z, λ e. omega (arith, e, q))

ranges_for_total :
    (tpc : Config)
    → 0 < tpc.actual_threads_count
    → (rs : List Range) × (ranges_for tpc ≡ done rs)
      × (length rs ≡ tpc.actual_threads_count)
      × Busy tpc rs
unfolding ranges_for
ranges_for_total tpc h = elim (ℕ_discrete tpc.required_threads_count 0) [
  | yes z ↦ (
    _,
    ground (arith, z),
    length-replicate tpc.actual_threads_count no_range,
    replicate-Busy tpc _ h z,
  )
  | no nz ↦ elim (dec_lt tpc.required_threads_count tpc.actual_threads_count) [
    | yes few ↦ (
      _,
      ground (arith, nz, few),
      length-wrapped tpc.required_threads_count 0 tpc.actual_threads_count,
      wrapped_ranges-Busy tpc _ h nz,
    )
    | no many ↦ (
      even_ranges (required / actual) (required % actual) 0 actual,
      ground (arith, nz, many, h),
      length-even (required / actual) (required % actual) 0 actual,
      even_ranges-Busy tpc (required / actual) (required % actual) actual h nz
          ((le-div_iff_mul-le h).1 (omega (arith, many))),
    )
  ]
]
  where
    required : ℕ
    required = tpc.required_threads_count

    actual : ℕ
    actual = tpc.actual_threads_count

overwrite_lem : (rs vs : List Range) → length rs ≡ length vs → overwrite rs vs ≡ done rs
unfolding overwrite
overwrite_lem [] [] e = refl
overwrite_lem [] (v ∷ vs) e = absurd (omega (arith, e))
overwrite_lem (r ∷ rs) [] e = absurd (omega (arith, e))
overwrite_lem (r ∷ rs) (v ∷ vs) e = rw (overwrite_lem rs vs (omega (arith, e)))

pub get_elem-none : (xs : List Ptr) (i : ℕ) → get_elem? xs i ≡ none → length xs ≤ i
get_elem-none [] i e = omega arith
get_elem-none (x ∷ xs) zero e = absurd (ground (arith, e))
get_elem-none (x ∷ xs) (suc i) e = omega (arith, get_elem-none xs i e)

pub get_elem-some : (xs : List Ptr) (i : ℕ) (a : Ptr) → get_elem? xs i ≡ some a → i < length xs
get_elem-some [] i a e = absurd (ground (arith, e))
get_elem-some (x ∷ xs) zero a e = omega arith
get_elem-some (x ∷ xs) (suc i) a e = omega (arith, get_elem-some xs i a e)

module _ {C : Type 0} where
  pub resize_lem :
      (p : Pool C) → length ((resize p).vect_proc2_bounds) ≡ p.tpcfg.actual_threads_count
  unfolding resize
  resize_lem p = ground (arith, length-replicate p.tpcfg.actual_threads_count no_range)

  abbrev pub reassigned : Pool C → ℕ → List Range → Pool C
  reassigned p k rs = record p {
    tpcfg = record (p.tpcfg) { required_threads_count = k };
    vect_proc2_bounds = rs;
  }

  pub reassign_procs_lem :
      (tpc : Config) (k : ℕ) (p : Pool C)
      → 0 < p.num_cpus
      → length p.vect_proc2_bounds ≡ p.num_cpus
      → (rs : List Range) × (reassign_procs tpc k p ≡ done (reassigned p k rs))
        × (length rs ≡ p.num_cpus)
        × Busy tpc rs
  unfolding reassign_procs
  reassign_procs_lem tpc k p h l =
      let (rs, total, len, busy) =
        ranges_for_total (record tpc { actual_threads_count = p.num_cpus }) h in
      (rs, rw (total, ◌>>=◌) (rw (overwrite_lem rs p.vect_proc2_bounds (len ∙ sym l))), len, busy)
