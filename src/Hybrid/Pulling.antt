-- ===== src/Hybrid/Pulling.antt =====
-- CPPAFKThreadpool.hpp, CPPAFKThreadpoolQueueHyb: what a reader is handed.
use asyncflow_cpp.Common.{
  ℕ, ◌<◌, ◌≡◌, refl, Bool, true, false, List, [], ◌∷◌, arith, ap, length, replicate, sign_bit, Ptr,
  null, ptr_item, Option, none, some, Outcome, done, ◌>>=◌, not, sym, slt, add64, if◌then◌else◌,
  inl, inr, ◌∙◌,
}
use asyncflow_cpp.Batching
use asyncflow_cpp.Batching.{Batching}
use asyncflow_cpp.Batching.Wf.{IsWf, items, clear_relax_q-IsWf}
use asyncflow_cpp.Batching.Extraction.{pull_cases}
use asyncflow_cpp.Blocking
use asyncflow_cpp.Blocking.{Blocking}
use asyncflow_cpp.ThreadpoolQueue.{QStatus, minus_one, is_taken, is_nil}
use asyncflow_cpp.Hybrid.{
  Hybrid, Spec, reg, Got, size, blocking_size, pull_and_occupy_with_id, take_next, take_reg,
  from_reg, settle, nothing, count_down, occupy,
}
use asyncflow_cpp.Hybrid.Order.{IsIdle, IsOrdered}

-- The batching queue hands out its oldest item.
reg_hands :
    {n : ℕ} (b : Batching Ptr) (x : Ptr) (xs : List Ptr)
    → n < sign_bit
    → IsWf n b
    → b.paused ≡ false
    → items b ≡ x ∷ xs
    → (b' : Batching Ptr) × (Batching.pull b ≡ done (Batching.Pull.returned b' x true))
      × (items b' ≡ xs)
      × (b'.queue ≡ b.queue)
      × IsWf n b'
reg_hands b x xs h v p e = elim (pull_cases b h v) [
  | inl (q, _) ↦ absurd (ground arith)
  | inr (inl (_, _, (y, b', r, front, _, same, wf))) ↦
      (b', ground (arith, r, front, e), ground (arith, front, e), same, wf)
  | inr (inr (inl (_, nil, _, _))) ↦ absurd (ground arith)
  | inr (inr (inr (_, nil, _, _))) ↦ absurd (ground arith)
]

-- The state behind an item from the batching queue.
abbrev taken : Hybrid → Batching Ptr → List (Spec × ℕ) → Ptr → QStatus → Got
taken h r rest x qs = record {
  state = record h { reg_q = r; qmapper = rest };
  item = x;
  item_index = 1;
  qstat = record qs { validrv = true };
}

abbrev Supplies : ℕ → List Ptr → Batching Ptr → Type 0
Supplies n xs r = (items r ≡ xs) × (r.paused ≡ false) × IsWf n r

take_reg_hands :
    {n : ℕ} (h : Hybrid) (x : Ptr) (xs : List Ptr) (rest : List (Spec × ℕ)) (qs : QStatus)
    → n < sign_bit
    → IsWf n h.reg_q
    → h.reg_q.paused ≡ false
    → items h.reg_q ≡ x ∷ xs
    → (r : Batching Ptr) × (take_reg h 1 rest qs ≡ done (taken h r rest x qs)) × Supplies n xs r
unfolding take_reg from_reg count_down Batching.size Batching.clear_relax_q
take_reg_hands h x xs rest qs lt v p e =
    let c = Batching.clear_relax_q h.reg_q in
    let (r, took, left, same, wf) = reg_hands c x xs lt (clear_relax_q-IsWf h.reg_q v) p e in
    let some : slt 0 h.reg_q.net_count ≡ true = ground (arith, v, ap length e) in
    (r, rw (some, take_reg) (rw (took, ◌>>=◌)), (left, ground (arith, same), wf))

-- Asking for the size of a queue whose blocking part counts nothing.
size-IsIdle :
    (h : Hybrid)
    → IsIdle h.blk_q
    → ((size h).1 ≡ add64 h.reg_q.net_count 0)
      × ((size h).0.reg_q ≡ Batching.clear_relax_q h.reg_q)
      × ((size h).0.qmapper ≡ h.qmapper)
      × IsIdle (size h).0.blk_q
unfolding size blocking_size Blocking.size Batching.size Batching.clear_relax_q
size-IsIdle h i = go h.blk_q refl i
  where
    go :
        (o : Option (Blocking Ptr))
        → h.blk_q ≡ o
        → IsIdle o
        → ((size h).1 ≡ add64 h.reg_q.net_count 0)
          × ((size h).0.reg_q ≡ Batching.clear_relax_q h.reg_q)
          × ((size h).0.qmapper ≡ h.qmapper)
          × IsIdle (size h).0.blk_q
    go none e i = ground arith
    go (some b) e i = ground arith

-- What a call of pullAndOccupyWithId leaves where `x` waits in front of `xs`.
abbrev pub HandsFirst : ℕ → ℕ → Bool → Ptr → List Ptr → Outcome Got → Type 0
HandsFirst n itsid called x xs r =
    (g : Got) × (r ≡ done g)
    × (g.item ≡ x)
    × (g.qstat.validrv ≡ true)
    × (g.qstat.called ≡ called)
    × (items g.state.reg_q ≡ xs)
    × (g.qstat.empty ≡ is_nil xs)
    × (g.state.occupant ≡ (if is_nil xs then minus_one else itsid))
    × IsOrdered n g.state

sized :
    {n : ℕ} (h : Hybrid) (xs : List Ptr)
    → n < sign_bit
    → IsIdle h.blk_q
    → h.qmapper ≡ replicate (length xs) (reg, 1)
    → Supplies n xs h.reg_q
    → IsOrdered n (size h).0 × (items (size h).0.reg_q ≡ xs) × (slt 0 (size h).1 ≡ not (is_nil xs))
unfolding Batching.clear_relax_q
sized {n} h xs lt i m (left, p, wf) = (
  record {
    wf = rw same (clear_relax_q-IsWf h.reg_q wf);
    running = rw same p;
    mapped = keeps ∙ m ∙ ap (λ k. replicate k (reg, 1)) (ap length (sym now));
    idle = still;
  },
  now,
  positive xs left,
)
  where
    open (size-IsIdle h i) use {«0» as count, «1» as same, «2» as keeps, «3» as still}

    now : items (size h).0.reg_q ≡ xs
    now = rw same left

    positive : (ys : List Ptr) → items h.reg_q ≡ ys → slt 0 (size h).1 ≡ not (is_nil ys)
    positive [] e = rw count (ground (arith, wf, ap length e))
    positive (y ∷ ys) e = rw count (ground (arith, wf, ap length e))

occupy-IsOrdered : (id : ℕ) {n : ℕ} (h : Hybrid) → IsOrdered n h → IsOrdered n (occupy id h)
unfolding occupy
occupy-IsOrdered id h v = record {
  wf = v.wf;
  running = v.running;
  mapped = v.mapped;
  idle = v.idle;
}

settle_first :
    {n : ℕ} (itsid : ℕ) (h : Hybrid) (r : Batching Ptr) (x : Ptr) (xs : List Ptr) (qs : QStatus)
    → n < sign_bit
    → IsIdle h.blk_q
    → Supplies n xs r
    → HandsFirst n itsid qs.called x xs
        (done (settle itsid (taken h r (replicate (length xs) (reg, 1)) x qs)))
unfolding settle
settle_first itsid h r x [] qs lt i supply =
    let h' = record h { reg_q = r; qmapper = [] } in
    let (ordered, left, last) = sized h' [] lt i refl supply in
    rw (last, settle)
      (_, refl, refl, refl, refl, left, refl, refl, occupy-IsOrdered minus_one _ ordered)
settle_first itsid h r x (y ∷ ys) qs lt i supply =
    let h' = record h { reg_q = r; qmapper = replicate (length (y ∷ ys)) (reg, 1) } in
    let (ordered, left, more) = sized h' (y ∷ ys) lt i refl supply in
    rw (more, settle)
      (_, refl, refl, refl, refl, left, refl, refl, occupy-IsOrdered itsid _ ordered)

-- Where every item came by `castObject` and no other thread occupies the queue, a call hands out the
-- oldest item, says whether more are left, leaves the queue to the caller's id if so and to nobody
-- otherwise, and keeps the invariant.
pub pull_and_occupy_first :
    {n : ℕ} (itsid : ℕ) (h : Hybrid) (x : Ptr) (xs : List Ptr) (qs : QStatus)
    → n < sign_bit
    → IsOrdered n h
    → is_taken h.occupant itsid ≡ false
    → items h.reg_q ≡ x ∷ xs
    → HandsFirst n itsid qs.called x xs (pull_and_occupy_with_id itsid h qs)
unfolding pull_and_occupy_with_id take_next
pull_and_occupy_first {n} itsid h x xs qs lt v free e =
    let (r, took, supply) =
      take_reg_hands h' x xs (replicate (length xs) (reg, 1)) qs' lt v.wf v.running e in
    rw (free, pull_and_occupy_with_id)
      (rw (mapped, pull_and_occupy_with_id)
        (rw took (settle_first itsid h' r x xs qs' lt v.idle supply)))
  where
    h' : Hybrid
    h' = record h { last_item = reg }

    qs' : QStatus
    qs' = record qs { endbatch = false; validrv = false }

    mapped : h.qmapper ≡ (reg, 1) ∷ replicate (length xs) (reg, 1)
    mapped = v.mapped ∙ ap (λ k. replicate k (reg, 1)) (ap length e)

-- With no item left, a call that no other thread's occupation stops returns null and says so.
pub pull_and_occupy_empty :
    {n : ℕ} (itsid : ℕ) (h : Hybrid) (qs : QStatus)
    → IsOrdered n h
    → is_taken h.occupant itsid ≡ false
    → items h.reg_q ≡ []
    → (g : Got) × (pull_and_occupy_with_id itsid h qs ≡ done g)
      × (g.item ≡ null)
      × (g.qstat.validrv ≡ false)
      × (g.qstat.empty ≡ true)
      × (g.state.reg_q ≡ h.reg_q)
unfolding pull_and_occupy_with_id nothing
pull_and_occupy_empty itsid h qs v free e =
    let mapped : h.qmapper ≡ [] = v.mapped ∙ ap (λ k. replicate k (reg, 1)) (ap length e) in
    rw (free, pull_and_occupy_with_id)
      (rw (mapped, pull_and_occupy_with_id) (_, refl, refl, refl, refl, refl))

-- What such a call leaves of a queue without items.
pub pull_and_occupy_still :
    {n : ℕ} (itsid : ℕ) (h : Hybrid) (qs : QStatus)
    → IsOrdered n h
    → is_taken h.occupant itsid ≡ false
    → items h.reg_q ≡ []
    → (g : Got) × (pull_and_occupy_with_id itsid h qs ≡ done g)
      × (g.qstat.validrv ≡ false)
      × (g.qstat.empty ≡ true)
      × IsOrdered n g.state
      × (g.state.occupant ≡ h.occupant)
      × (items g.state.reg_q ≡ [])
unfolding pull_and_occupy_with_id nothing
pull_and_occupy_still itsid h qs v free e =
    let mapped : h.qmapper ≡ [] = v.mapped ∙ ap (λ k. replicate k (reg, 1)) (ap length e) in
    rw (free, pull_and_occupy_with_id)
      (rw (mapped, pull_and_occupy_with_id)
        (
          _,
          refl,
          refl,
          refl,
          record { wf = v.wf; running = v.running; mapped = v.mapped; idle = v.idle },
          refl,
          e,
        ))
