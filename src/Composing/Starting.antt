-- ===== src/Composing/Starting.antt =====
-- CPPAFKComposingSession.cpp: a new session, from its first turn on. The routines that the setters
-- stored come into use in that turn, which brings the data queue; only then are items accepted.
use asyncflow_cpp.Common.{
  ℕ, suc, ◌≡◌, refl, ◌∙◌, true, false, List, [], ◌∷◌, arith, Ptr, null, none, done, ◌>>=◌,
  Bool-cases, inl, inr, sle,
}
use asyncflow_cpp.Batching
use asyncflow_cpp.Batching.Wf.{items}
use asyncflow_cpp.ControlBlock
use asyncflow_cpp.ThreadpoolQueue.{minus_one, new_status}
use asyncflow_cpp.Hybrid
use asyncflow_cpp.Hybrid.{Hybrid, Spec, CallMode, no_block, wait_for_first, wait_for_last}
use asyncflow_cpp.Hybrid.Order.{IsOrdered}
use asyncflow_cpp.Hybrid.Pulling.{pull_and_occupy_still}
use asyncflow_cpp.Session
use asyncflow_cpp.Session.{Session, slot, lambda_only, switch}
use asyncflow_cpp.Composing
use asyncflow_cpp.Composing.{QueueGarbage, post_data}
use asyncflow_cpp.Composing.Turn.{UserCode, Turn}
use asyncflow_cpp.Composing.Select.{has_none, ended, round, rounds, select, take_routines, wake_up}
use asyncflow_cpp.Composing.Serving.{IsAtWork}

new-IsOrdered : (a : ℕ) (b : Spec) (m : CallMode) → IsOrdered 0 (Hybrid.new a b m)
unfolding Hybrid.new Batching.new
new-IsOrdered a b no_block = ground arith
new-IsOrdered a b wait_for_first = ground arith
new-IsOrdered a b wait_for_last = ground arith

new_lem :
    (g : QueueGarbage) (m : CallMode)
    → ((Hybrid.new g.occupant g.last_item m).occupant ≡ g.occupant)
      × (items (Hybrid.new g.occupant g.last_item m).reg_q ≡ [])
unfolding Hybrid.new Batching.new
new_lem g m = (refl, refl)

module _ {C : Type 0} where
  -- A session that no turn has served: the routines `us` wait to be taken into use, and there is no
  -- data queue yet. Otherwise as in IsAtWork.
  pub record IsFresh (us : List Ptr) (s : Session C) : Type 0 where
    pub no_queue : s.data_queues ≡ []
    pub waits : s.routines_hnds.reload ≡ true
    pub bare : slot s.routines_hnds s.routines_hnds.index_r ≡ []
    pub next : slot s.routines_hnds (switch s.routines_hnds).2 ≡ us
    pub not_asked : ControlBlock.cancellation_requested s.cblk ≡ false
    pub not_flushed : s.cblk.flushed ≡ false
    pub not_paused : s.paused ≡ false
    pub not_stopped : s.is_stopped ≡ false
    pub unmarked : s.cancelled ≡ false
    pub lambdas : s.runprio_ml ≡ lambda_only
    pub deletes : s.autodelete ≡ true
    pub summary_settled : s.sum_hnds.reload ≡ false
    pub no_summary : slot s.sum_hnds s.sum_hnds.index_r ≡ null
    pub no_condition : s.excond ≡ none

  -- The session with its routines in use, and a new data queue.
  abbrev pub installed : QueueGarbage → Session C → Session C
  installed g s = record s {
    pq = [];
    routines_hnds = (switch s.routines_hnds).0;
    data_queues = Hybrid.new g.occupant g.last_item s.call_mode ∷ [];
  }

  take_routines_waiting :
      (g : QueueGarbage) (u : Ptr) (us : List Ptr) (s : Session C)
      → IsFresh (u ∷ us) s
      → take_routines g s ≡ (installed g s, (switch s.routines_hnds).2)
  unfolding take_routines Session.switch_routines_handlers switch Composing.reconfigure_dataqueues
      Session.reset_priority_queue
  take_routines_waiting g u us s v = rw (v.waits, take_routines) (ground arith)

  wake_up_fresh : (s : Session C) → s.paused ≡ false → s.data_queues ≡ [] → wake_up s ≡ s
  unfolding wake_up Session.adopt_data_from_zero_queue
  wake_up_fresh s p e = ground (arith, p, e)

  installed-IsAtWork :
      (g : QueueGarbage) (us : List Ptr) (s : Session C) (h : Hybrid)
      → IsFresh us s
      → IsOrdered 0 h
      → IsAtWork 0 us (record (installed g s) { data_queues = h ∷ [] }) h
  unfolding switch
  installed-IsAtWork g us s h v o = record {
    one_queue = refl;
    ordered = o;
    not_asked = v.not_asked;
    not_flushed = v.not_flushed;
    settled = ground (arith, v.waits);
    in_use = ground (arith, v.waits, v.next);
    lambdas = v.lambdas;
    deletes = v.deletes;
    summary_settled = v.summary_settled;
    summing = v.no_summary;
    no_condition = v.no_condition;
  }

  -- A session that serves its items, `xs`, in its next turn; those in the first queue are as in `s`.
  pub record IsReady (n : ℕ) (us xs : List Ptr) (s r : Session C) (h : Hybrid) : Type 0 where
    pub at_work : IsAtWork n us r h
    pub nobody : h.occupant ≡ minus_one
    pub holds : items h.reg_q ≡ xs
    pub running : r.paused ≡ false
    pub goes_on : r.is_stopped ≡ false
    pub unmarked : r.cancelled ≡ false
    pub early : r.queue_zero ≡ s.queue_zero

  module _ (code : UserCode C) where
    first_round :
        (g : QueueGarbage) (ii : ℕ) (u : Ptr) (us : List Ptr) (t : Turn C)
        → IsFresh (u ∷ us) t.state
        → g.occupant ≡ minus_one
        → (r : Session C) × (h : Hybrid) × (round code g ii t
            ≡ done (ended (record t { state = r }) has_none))
          × IsReady 0 (u ∷ us) [] t.state r h
    unfolding round
    first_round g ii u us t v free =
        let k = Hybrid.new g.occupant g.last_item t.state.call_mode in
        let o = new-IsOrdered g.occupant g.last_item t.state.call_mode in
        let made = new_lem g t.state.call_mode in
        let (got, pulled, invalid, empty, ordered, nobody, nil) =
          pull_and_occupy_still ii k new_status o (ground (arith, free, made.0)) made.1 in
        let routines = take_routines_waiting g u us t.state v in
        (
          record (installed g t.state) { data_queues = got.state ∷ [] },
          got.state,
          simp (v.not_asked, v.not_flushed, routines, pulled, invalid, empty),
          record {
            at_work = installed-IsAtWork g (u ∷ us) t.state got.state v ordered;
            nobody = nobody ∙ made.0 ∙ free;
            holds = nil;
            running = v.not_paused;
            goes_on = v.not_stopped;
            unmarked = v.unmarked;
            early = refl;
          },
        )

    first_starts :
        (g : QueueGarbage) (ii fuel : ℕ) (u : Ptr) (us : List Ptr) (t : Turn C)
        → IsFresh (u ∷ us) t.state
        → select code g ii fuel t ≡ rounds code g ii fuel t
    unfolding select
    first_starts g ii fuel u us t v =
        let awake = wake_up_fresh t.state v.not_paused v.no_queue in
        elim (Bool-cases (sle t.state.busy_count 0))
          as (λ _. select code g ii fuel t ≡ rounds code g ii fuel t) [
            | inl idle ↦ simp (awake, v.not_stopped, v.not_asked, v.no_condition, idle)
            | inr busy ↦ simp (awake, v.not_stopped, v.not_asked, busy)
          ]

    -- The first turn of a session takes its routines into use and brings it an empty data queue that
    -- nobody occupies. It takes no item, and items that were posted before stay where they were.
    pub first_turn :
        (g : QueueGarbage) (ii fuel : ℕ) (u : Ptr) (us : List Ptr) (t : Turn C)
        → IsFresh (u ∷ us) t.state
        → g.occupant ≡ minus_one
        → (r : Session C) × (h : Hybrid) × (select code g ii (suc fuel) t
            ≡ done (record t { state = r }, has_none))
          × IsReady 0 (u ∷ us) [] t.state r h
    unfolding rounds
    first_turn g ii fuel u us t v free =
        let (r, h, over, started) = first_round g ii u us t v free in
        (r, h, first_starts g ii (suc fuel) u us t v ∙ rw (over, ◌>>=◌), started)
