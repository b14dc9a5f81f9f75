-- ===== src/Composing/Midway.antt =====
-- CPPAFKComposingSession.cpp, `select`: a routine asks for cancellation while an item is under way.
use asyncflow_cpp.Common.{
  ℕ, suc, ◌<◌, ◌≡◌, ◌==◌, refl, ap, ◌∙◌, Bool, true, false, List, [], ◌∷◌, ◌++◌, arith,
  if◌then◌else◌, sign_bit, Ptr, ptr_item, some, done, ◌>>=◌, append-nil, append_assoc, All,
}
use asyncflow_cpp.Batching.Wf.{items}
use asyncflow_cpp.ControlBlock
use asyncflow_cpp.ControlBlock.{ControlBlock}
use asyncflow_cpp.Hybrid
use asyncflow_cpp.Hybrid.{Hybrid}
use asyncflow_cpp.Session.{Session, lambda_only}
use asyncflow_cpp.Composing.{QueueGarbage}
use asyncflow_cpp.Composing.Turn.{
  Turn, UserCode, cancel_midway, collect, if_item, run_unit, run_units,
}
use asyncflow_cpp.Composing.Pipeline.{composed, replaced, moves}
use asyncflow_cpp.Composing.Flushing.{IsFlushable}
use asyncflow_cpp.Composing.Draining.{IsItem}
use asyncflow_cpp.Composing.Cancelling.{called_for}
use asyncflow_cpp.Composing.Interrupting.{cancel_midway_lem}
use asyncflow_cpp.Composing.Select.{ended, was_cancelled, round, rounds, select, serve_item, served}
use asyncflow_cpp.Composing.Serving.{
  IsAtWork-moved, IsAtWork, take_routines_none, unoccupy_lem, unoccupy-IsOrdered,
}
use asyncflow_cpp.Composing.Turns.{starts}
use asyncflow_cpp.ThreadpoolQueue.{is_taken, minus_one, new_status, QStatus}
use asyncflow_cpp.ThreadpoolQueue.Occupancy.{IsPaired}
use asyncflow_cpp.Hybrid.Order.{IsOrdered}
use asyncflow_cpp.Hybrid.Pulling.{pull_and_occupy_first}

module _ {C : Type 0} (code : UserCode C) (f : Ptr → Ptr → Ptr) where
  -- Units that leave the control block alone, and one that asks to stop.
  abbrev pub AreCalm : List Ptr → Type 0
  AreCalm us = All (λ u. code.run_l u ≡ some (λ x c. (c, f u x))) us

  abbrev pub Asks : Ptr → Type 0
  Asks u = code.run_l u ≡ some (λ x c. (ControlBlock.stop c, f u x))

  stop-requested :
      (c : ControlBlock) → ControlBlock.cancellation_requested (ControlBlock.stop c) ≡ true
  unfolding ControlBlock.cancellation_requested ControlBlock.stop
  stop-requested c = refl

  -- The routines behind the one that asks are not run.
  run_units_asked :
      (us vs : List Ptr) (u : Ptr) (cblk : ControlBlock) (x : Ptr) (log : List Ptr)
      → AreCalm us
      → Asks u
      → ControlBlock.cancellation_requested cblk ≡ false
      → run_units code lambda_only true
          (us ++ u ∷ vs)
          (record { cblk = cblk; r0 = x; result = x; collected = log })
        ≡ done (
          record {
            cblk = ControlBlock.stop cblk;
            r0 = composed f (us ++ u ∷ []) x;
            result = composed f (us ++ u ∷ []) x;
            collected = log ++ replaced f (us ++ u ∷ []) x;
          },
          true,
        )
  unfolding run_units run_unit
  run_units_asked [] vs u cblk x log h a c =
      rw (a, run_unit)
        (rw (moves ControlBlock.stop cblk x (f u x) log, ◌>>=◌)
          (rw (stop-requested cblk, run_units)
            (rw (append-nil (if f u x == x then [] else if_item x)))))
  run_units_asked (w ∷ us) vs u cblk x log h a c =
      let rest = if f w x == x then [] else if_item x in
      rw (h.0, run_unit)
        (rw (moves (λ d. d) cblk x (f w x) log, ◌>>=◌)
          (rw (c, run_units)
            (rw (← append_assoc log rest (replaced f (us ++ u ∷ []) (f w x)))
              (run_units_asked us vs u cblk (f w x) (log ++ rest) h.1 a c))))

-- The items of the session's one data queue are pointers, and its first queue is empty.
pub record IsDrainable {C : Type 0} (s : Session C) (xs : List Ptr) : Type 0 where
  pub real : All IsItem xs
  pub paired : IsPaired s.queue_zero
  pub zero_free : is_taken s.queue_zero.occupant minus_one ≡ false
  pub zero_nil : s.queue_zero.its_q ≡ []

module _ {C : Type 0} (code : UserCode C) (f : Ptr → Ptr → Ptr) where
  -- What the routines up to the one that asks make of the item.
  abbrev up_to : List Ptr → Ptr → List Ptr
  up_to us u = us ++ u ∷ []

  -- The session when the routine has asked.
  abbrev interrupted : List Ptr → Ptr → Turn C → Hybrid → Turn C
  interrupted us x t h = record t {
    state = record (t.state) { data_queues = h ∷ []; cblk = ControlBlock.stop t.state.cblk };
    user_data = t.user_data ++ replaced f us x;
  }

  serve_item_asked :
      {n : ℕ} (us vs : List Ptr) (u : Ptr) (qstat : QStatus) (x : Ptr) (t : Turn C) (h : Hybrid)
      → AreCalm code f us
      → Asks code f u
      → IsAtWork n (us ++ u ∷ vs) t.state h
      → serve_item code qstat x (us ++ u ∷ vs) t ≡ (do
        c ←
            cancel_midway
              (composed f (us ++ u ∷ []) x)
              (interrupted (us ++ u ∷ []) x t (Hybrid.unoccupy h))
        done (ended c was_cancelled))
  unfolding serve_item served collect
  serve_item_asked us vs u qstat x t h calm asks v = simp (v.one_queue, ran)
    where
      ran :
          run_units code t.state.runprio_ml t.state.autodelete
            (us ++ u ∷ vs)
            (record { cblk = t.state.cblk; r0 = x; result = x; collected = [] })
          ≡ done (
            record {
              cblk = ControlBlock.stop t.state.cblk;
              r0 = composed f (us ++ u ∷ []) x;
              result = composed f (us ++ u ∷ []) x;
              collected = replaced f (us ++ u ∷ []) x;
            },
            true,
          )
      ran =
          rw (v.lambdas, v.deletes)
            (run_units_asked code f us vs u t.state.cblk x [] calm asks v.not_asked)

  interrupted-IsFlushable :
      {m : ℕ} (us : List Ptr) (x : Ptr) (t : Turn C) (k : Hybrid) (xs : List Ptr)
      → IsDrainable t.state xs
      → IsOrdered m k
      → k.occupant ≡ minus_one
      → items k.reg_q ≡ xs
      → IsFlushable m (interrupted us x t k).state k
  interrupted-IsFlushable us x t k xs d o free e = record {
    one_queue = refl;
    ordered = o;
    free = ground (arith, free);
    data_items = rw e d.real;
    paired = d.paired;
    zero_free = d.zero_free;
    zero_items = rw d.zero_nil tt;
  }

  stop-id :
      (s : Session C) → called_for (record s { cblk = ControlBlock.stop s.cblk }) ≡ called_for s
  unfolding ControlBlock.stop ControlBlock.get_session_id
  stop-id s = refl

  -- What the collector gets for the item under way.
  abbrev pub made_until : List Ptr → Ptr → List Ptr
  made_until us x = replaced f us x ++ if_item (composed f us x)

  tidy :
      (b : Bool) (log : List Ptr) (us : List Ptr) (x : Ptr) (xs zs ys : List Ptr)
      → b ≡ true
      → zs ≡ []
      → ys ≡ xs
      → ((log ++ replaced f us x) ++ (if b then if_item (composed f us x) else []))
          ++ (if b then zs ++ (ys ++ []) else [])
        ≡ log ++ (made_until us x ++ xs)
  tidy b log us x xs zs ys d e g = rw (d, e, g) (simp (append_assoc, append-nil))

  -- What a turn leaves in which a routine asked for cancellation.
  abbrev pub Breaks : List Ptr → Ptr → List Ptr → Turn C → Turn C → Type 0
  Breaks us x xs t w =
      (ControlBlock.cancellation_requested w.state.cblk ≡ true)
      × (w.state.cancelled ≡ t.state.cancelled)
      × (w.user_data ≡ t.user_data ++ (made_until us x ++ xs))
      × ((k : Hybrid) × (w.state.data_queues ≡ k ∷ []) × (items k.reg_q ≡ []))
      × (w.calls ≡ t.calls ++ called_for t.state)

  round_asked :
      {n : ℕ} (g : QueueGarbage) (ii : ℕ) (us vs : List Ptr) (u : Ptr) (t : Turn C) (h : Hybrid)
      (x : Ptr) (xs : List Ptr)
      → n < sign_bit
      → AreCalm code f us
      → Asks code f u
      → IsAtWork n (us ++ u ∷ vs) t.state h
      → h.occupant ≡ minus_one
      → items h.reg_q ≡ x ∷ xs
      → IsDrainable t.state xs
      → (w : Turn C) × (round code g ii t ≡ done (ended w was_cancelled))
        × Breaks (us ++ u ∷ []) x xs t w
  unfolding round
  round_asked g ii us vs u t h x xs lt calm asks v free e d =
      let (got, pulled, first, valid, called, left, _, _, ordered) =
        pull_and_occupy_first ii h x xs new_status lt v.ordered (ground (arith, free)) e in
      let un = unoccupy_lem code f got.state in
      let k = Hybrid.unoccupy got.state in
      let at : Turn C = record t { state = record (t.state) { data_queues = got.state ∷ [] } } in
      let w = IsAtWork-moved (us ++ u ∷ vs) t.state h got.state v ordered in
      let asked = serve_item_asked us vs u got.qstat x at got.state calm asks w in
      let flushable =
        interrupted-IsFlushable (us ++ u ∷ []) x t k xs d
          (unoccupy-IsOrdered code f got.state ordered) un.0 (rw un.1 left) in
      let (c, j, broke, asking, unmarked, user, queue, nil, calls) =
        cancel_midway_lem (composed f (us ++ u ∷ []) x) (interrupted (us ++ u ∷ []) x t k) k lt
          flushable in
      let routines = take_routines_none code f g t.state v.settled in
      (
        c,
        simp (
          v.not_asked, v.not_flushed, routines, v.one_queue, pulled, valid, first, v.in_use, asked,
          broke,
        ),
        (
          asking,
          unmarked,
          user
              ∙ tidy t.state.autodelete t.user_data (us ++ u ∷ []) x xs t.state.queue_zero.its_q
                  (items k.reg_q) v.deletes d.zero_nil (rw un.1 left),
          (j, queue, nil),
          calls ∙ ap (λ cs. t.calls ++ cs) (stop-id t.state),
        ),
      )

  -- While an item is under way, a routine of a session at work (items deleted automatically, no
  -- summary, no expiration, no handler that waits to replace another, nobody has asked to cancel or
  -- flush) asks for cancellation; the routines before it left the control block alone. The session
  -- is neither paused nor stopped, the items in its one data queue, fewer than 2 ^ 63, came by
  -- `castObject`, nobody occupies that or its first queue, the first queue holds neither items nor
  -- indexes, and no item that waits is null. Then the turn returns; the routines behind that one
  -- are not run, and no other item is taken. The collector gets the item's replaced and last
  -- results and then the items that wait; no item is left in the data queue. The newest
  -- cancellation handler is called once, if there is one, and the request stands; but the session's
  -- mark for the collector stays as it was.
  pub select_asked :
      {n : ℕ} (g : QueueGarbage) (ii fuel : ℕ) (us vs : List Ptr) (u : Ptr) (t : Turn C)
      (h : Hybrid) (x : Ptr) (xs : List Ptr)
      → n < sign_bit
      → AreCalm code f us
      → Asks code f u
      → IsAtWork n (us ++ u ∷ vs) t.state h
      → h.occupant ≡ minus_one
      → items h.reg_q ≡ x ∷ xs
      → IsDrainable t.state xs
      → t.state.paused ≡ false
      → t.state.is_stopped ≡ false
      → (w : Turn C) × (select code g ii (suc fuel) t ≡ done (w, was_cancelled))
        × Breaks (us ++ u ∷ []) x xs t w
  unfolding rounds
  select_asked g ii fuel us vs u t h x xs lt calm asks v free e d p st =
      let (w, over, breaks) = round_asked g ii us vs u t h x xs lt calm asks v free e d in
      (
        w,
        starts code f g ii (suc fuel) (us ++ u ∷ vs) t h v p st d.zero_nil ∙ rw (over, ◌>>=◌),
        breaks,
      )
