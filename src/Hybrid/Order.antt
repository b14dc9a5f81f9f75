-- ===== src/Hybrid/Order.antt =====
-- CPPAFKThreadpool.hpp, CPPAFKThreadpoolQueueHyb: the order of items, and what it loses.
use asyncflow_cpp.Common.{
  ℕ, zero, suc, ◌<◌, ◌≡◌, refl, true, false, List, [], ◌∷◌, ◌++◌, arith, ap, length, length-append,
  replicate, sign_bit, Ptr, ptr_item, Option, none, some, ◌∙◌,
}
use asyncflow_cpp.Batching
use asyncflow_cpp.Batching.{Batching}
use asyncflow_cpp.Batching.Wf.{IsWf, items, cast_object-IsWf}
use asyncflow_cpp.Batching.Contents.{items-cast_object}
use asyncflow_cpp.Blocking.{Blocking}
use asyncflow_cpp.Hybrid.{Hybrid, Spec, reg, size, blocking_size, cast_object, cast_vector}

-- The blocking queue, where there is one, counts no item.
abbrev pub IsIdle : Option (Blocking Ptr) → Type 0
IsIdle none = Unit {0}
IsIdle (some b) = b.net_count ≡ 0

-- Every item came by `castObject`: `qmapper` has one entry for each, and the batching queue meets
-- its invariant, is not paused, and does not block reads.
pub record IsOrdered (n : ℕ) (h : Hybrid) : Type 0 where
  pub wf : IsWf n h.reg_q
  pub running : h.reg_q.paused ≡ false
  pub mapped : h.qmapper ≡ replicate (length (items h.reg_q)) (reg, 1)
  pub idle : IsIdle h.blk_q

replicate-snoc {ℓ} : {A : Type ℓ} (n : ℕ) (a : A) → replicate n a ++ a ∷ [] ≡ replicate (suc n) a
replicate-snoc zero a = refl
replicate-snoc (suc n) a = ap (◌∷◌ a) (replicate-snoc n a)

mapped_more :
    (m : List (Spec × ℕ)) (k n : ℕ)
    → m ≡ replicate k (reg, 1)
    → n ≡ suc k
    → m ++ (reg, 1) ∷ [] ≡ replicate n (reg, 1)
mapped_more m k n e f = rw (e, f) (replicate-snoc k (reg, 1))

-- Posting an item keeps the invariant, answers true, and puts the item last.
pub cast_object-IsOrdered :
    (x : Ptr) (k : ℕ) {n : ℕ} (h : Hybrid)
    → suc n < sign_bit
    → IsOrdered n h
    → IsOrdered (suc n) (cast_object x k h).0
      × (items (cast_object x k h).0.reg_q ≡ items h.reg_q ++ x ∷ [])
      × ((cast_object x k h).1 ≡ true)
unfolding cast_object Batching.clear_relax_q
cast_object-IsOrdered x k h lt v = (
  record {
    wf = cast_object-IsWf x h.reg_q lt v.wf;
    running = v.running;
    mapped =
        mapped_more h.qmapper (length (items h.reg_q)) _ v.mapped
          (ap length (items-cast_object x h.reg_q) ∙ length-snoc (items h.reg_q) x);
    idle = v.idle;
  },
  items-cast_object x h.reg_q,
  refl,
)
  where
    length-snoc : (xs : List Ptr) (y : Ptr) → length (xs ++ y ∷ []) ≡ suc (length xs)
    length-snoc xs y = omega (arith, length-append xs (y ∷ []))

-- A vector is lost, though the answer is true: the items of the queue stay as they were, while
-- `qmapper` counts the vector's items too.
pub cast_vector_loses :
    (x : Ptr) (xs : List Ptr) (k : ℕ) (h : Hybrid)
    → ((cast_vector (x ∷ xs) k h).1 ≡ true)
      × (items (cast_vector (x ∷ xs) k h).0.reg_q ≡ items h.reg_q)
      × ((size (cast_vector (x ∷ xs) k h).0).1 ≡ (size h).1)
      × ((cast_vector (x ∷ xs) k h).0.qmapper ≡ h.qmapper ++ (reg, length (x ∷ xs)) ∷ [])
unfolding cast_vector size blocking_size
cast_vector_loses x xs k h = (refl, refl, ground arith, refl)
