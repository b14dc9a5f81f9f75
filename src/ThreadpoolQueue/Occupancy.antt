-- ===== src/ThreadpoolQueue/Occupancy.antt =====
-- CPPAFKThreadpoolQueue.hpp: who may take an item, and the two deques side by side.
use asyncflow_cpp.Common.{
  ℕ, ◌<◌, ◌≡◌, ◌≢◌, refl, true, false, List, [], ◌∷◌, ◌++◌, arith, ap, length, length-append, All,
  sign_bit, Ptr, null, Outcome, done, ◌>>=◌, Bool-cases, inl, inr, ◌⊎◌, ◌∙◌, if◌then◌else◌,
}
use asyncflow_cpp.ThreadpoolQueue.{
  TpQueue, QStatus, Got, new_status, minus_one, is_taken, is_nil, pop_both, pull_and_occupy_with_id,
  cast_object, cast_vector, number_from, set_items,
}

-- Each item has its index.
abbrev pub IsPaired : TpQueue → Type 0
IsPaired q = length q.its_q ≡ length q.deq_indexes

-- Another thread occupies the queue: its id is not negative, and not the caller's.
abbrev pub IsOthers : TpQueue → ℕ → Type 0
IsOthers q itsid = (q.occupant < sign_bit) × (q.occupant ≢ itsid)

-- A call while another thread occupies the queue takes nothing and changes nothing. Otherwise it takes
-- nothing of an empty queue, which it leaves to nobody, or the oldest item with its own index, and
-- keeps the queue while items are left.
abbrev pub Serves : TpQueue → ℕ → Outcome Got → Type 0
Serves q itsid r =
    (g : Got) × (r ≡ done g)
    × IsPaired g.state
    × ((IsOthers q itsid
          × (g.qstat.validrv ≡ false)
          × (g.item ≡ null)
          × (g.qstat.empty ≡ is_nil q.its_q)
          × (g.state ≡ q))
        ⊎ ((¬ IsOthers q itsid)
              × (q.its_q ≡ [])
              × (g.qstat.validrv ≡ false)
              × (g.item ≡ null)
              × (g.qstat.empty ≡ true)
              × (g.state ≡ record q { occupant = minus_one })
            ⊎ (¬ IsOthers q itsid)
              × (g.qstat.validrv ≡ true)
              × (q.its_q ≡ g.item ∷ g.state.its_q)
              × (q.deq_indexes ≡ g.item_index ∷ g.state.deq_indexes)
              × (g.qstat.empty ≡ is_nil g.state.its_q)
              × (g.state.occupant ≡ (if is_nil g.state.its_q then minus_one else itsid))))

pop_both-Serves :
    (itsid : ℕ) (q : TpQueue) (qs : QStatus) (xs : List Ptr) (is : List ℕ)
    → q.its_q ≡ xs
    → q.deq_indexes ≡ is
    → qs.validrv ≡ false
    → IsPaired q
    → ¬ IsOthers q itsid
    → Serves q itsid (pop_both itsid q qs xs is)
unfolding pop_both
pop_both-Serves itsid q qs [] is e f v p n = (_, refl, p, inr (inl (n, e, v, refl, refl, refl)))
pop_both-Serves itsid q qs (x ∷ xs) [] e f v p n = absurd (omega (arith, ap length e, ap length f))
pop_both-Serves itsid q qs (x ∷ xs) (i ∷ is) e f v p n =
    (_, refl, omega (arith, ap length e, ap length f), inr (inr (n, refl, e, f, refl, refl)))

-- While every item has its index, a call of pullAndOccupyWithId on a status that holds no item
-- returns and keeps the pairing. Where another thread occupies the queue, it takes nothing and
-- changes nothing; otherwise it takes the oldest item with its own index, and the queue is then the
-- caller's if items are left, and else nobody's; of an empty queue it takes nothing, and leaves it to
-- nobody.
pub pull_and_occupy-Serves :
    (itsid : ℕ) (q : TpQueue) (qs : QStatus)
    → qs.validrv ≡ false
    → IsPaired q
    → Serves q itsid (pull_and_occupy_with_id itsid q qs)
unfolding pull_and_occupy_with_id
pull_and_occupy-Serves itsid q qs v p = elim (Bool-cases (is_taken q.occupant itsid)) [
  | inl t ↦
      rw (t, pull_and_occupy_with_id)
        (_, refl, p, inl ((ground (arith, t)), refl, refl, refl, refl))
  | inr t ↦
      rw (t, pull_and_occupy_with_id)
        (pop_both-Serves itsid q qs q.its_q q.deq_indexes refl refl v p (λ o. ground (arith, t, o)))
]

-- What the calls of pullAndOccupyWithId by several threads leave.
abbrev pub run_calls : List ℕ → TpQueue → Outcome TpQueue
run_calls [] q = done q
run_calls (i ∷ is) q = do g ← pull_and_occupy_with_id i q new_status; run_calls is g.state

-- The queue and the caller's view behind a successful call.
abbrev pub served : ℕ → TpQueue → Ptr → List Ptr → ℕ → List ℕ → Got
served i q x xs k ks = record {
  state = record (set_items q xs) {
    deq_indexes = ks;
    occupant = if is_nil xs then minus_one else i;
  };
  item = x;
  item_index = k;
  qstat = record new_status { empty = is_nil xs; validrv = true };
}

pub serve_front :
    (i : ℕ) (q : TpQueue) (x : Ptr) (xs : List Ptr) (k : ℕ) (ks : List ℕ)
    → is_taken q.occupant i ≡ false
    → q.its_q ≡ x ∷ xs
    → q.deq_indexes ≡ k ∷ ks
    → pull_and_occupy_with_id i q new_status ≡ done (served i q x xs k ks)
unfolding pull_and_occupy_with_id
serve_front i q x xs k ks t e f = simp (t, e, f) (pop i q x xs k ks)
  where
    pop :
        (i : ℕ) (q : TpQueue) (x : Ptr) (xs : List Ptr) (k : ℕ) (ks : List ℕ)
        → pop_both i q new_status (x ∷ xs) (k ∷ ks) ≡ done (served i q x xs k ks)
    pop i q x xs k ks = refl

other_waits :
    (i j : ℕ) (q : TpQueue)
    → i < sign_bit
    → q.occupant ≡ i
    → j ≢ i
    → (rest : List ℕ) → run_calls (j ∷ rest) q ≡ run_calls rest q
unfolding pull_and_occupy_with_id
other_waits i j q h o d rest =
    let taken : is_taken q.occupant j ≡ true = ground arith in rw (taken, pull_and_occupy_with_id)

-- While a thread with id `i` occupies the queue, no calls by threads with other ids, -1 included,
-- change it, and then `i` is served the oldest item with its index.
pub others_wait :
    (i : ℕ) (others : List ℕ) (q : TpQueue) (x : Ptr) (xs : List Ptr) (k : ℕ) (ks : List ℕ)
    → i < sign_bit
    → q.occupant ≡ i
    → q.its_q ≡ x ∷ xs
    → q.deq_indexes ≡ k ∷ ks
    → All (λ j. j ≢ i) others
    → (run_calls others q ≡ done q)
      × ((g : Got) × (pull_and_occupy_with_id i q new_status ≡ done g)
          × (g.item ≡ x)
          × (g.item_index ≡ k)
          × (g.state.its_q ≡ xs))
others_wait i [] q x xs k ks h o e f a =
    (refl, (served i q x xs k ks, serve_front i q x xs k ks (ground arith) e f, refl, refl, refl))
others_wait i (j ∷ js) q x xs k ks h o e f a =
    let (kept, rest) = others_wait i js q x xs k ks h o e f a.1 in
    (other_waits i j q h o a.0 js ∙ kept, rest)

-- The indexes of a vector are noted and its items refused: the vector is lost, and from then on
-- items get the indexes of others. An item posted with index `k` is handed out with index 0.
pub cast_vector_misaligns :
    (q : TpQueue) (y : Ptr) (ys : List Ptr) (n : ℕ) (x : Ptr) (k i : ℕ)
    → q.its_q ≡ []
    → q.deq_indexes ≡ []
    → q.occupant ≡ minus_one
    → ((cast_vector (y ∷ ys) n q).1 ≡ false)
      × ((cast_vector (y ∷ ys) n q).0.its_q ≡ [])
      × (g : Got) × (pull_and_occupy_with_id i
            (cast_object x k (cast_vector (y ∷ ys) n q).0).0
            new_status
          ≡ done g)
      × (g.item ≡ x)
      × (g.item_index ≡ 0)
      × (0 < length g.state.deq_indexes)
      × (g.state.its_q ≡ [])
unfolding cast_vector cast_object pull_and_occupy_with_id
cast_vector_misaligns q y ys n x k i e f o = (
  refl,
  e,
  served i posted x [] 0 (number_from 1 ys ++ k ∷ []),
  serve_front i posted x [] 0 _ (ground arith) (rw e) (rw f),
  refl,
  refl,
  omega (arith, length-append (number_from 1 ys) (k ∷ [])),
  refl,
)
  where
    posted : TpQueue
    posted = (cast_object x k (cast_vector (y ∷ ys) n q).0).0
