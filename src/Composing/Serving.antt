-- ===== src/Composing/Serving.antt =====
-- CPPAFKComposingSession.cpp, `select`: a turn takes every waiting item through the routines.
use asyncflow_cpp.Common.{
  ℕ, ◌<◌, ◌≡◌, refl, true, false, List, [], ◌∷◌, ◌++◌, arith, ◌&&◌, sign_bit, sub64, Ptr, null,
  Option, none, done, append_assoc, ptr_item,
}
use asyncflow_cpp.Batching.Wf.{items}
use asyncflow_cpp.ControlBlock
use asyncflow_cpp.ControlBlock.{ControlBlock}
use asyncflow_cpp.ThreadpoolQueue.{minus_one, new_status, QStatus}
use asyncflow_cpp.Hybrid
use asyncflow_cpp.Hybrid.{Hybrid}
use asyncflow_cpp.Hybrid.Order.{IsOrdered}
use asyncflow_cpp.Hybrid.Pulling.{pull_and_occupy_first}
use asyncflow_cpp.Session
use asyncflow_cpp.Session.{Session, slot, lambda_only, switch}
use asyncflow_cpp.Composing.{QueueGarbage}
use asyncflow_cpp.Composing.Turn.{UserCode, Turn, Run, run_units, if_item}
use asyncflow_cpp.Composing.Pipeline.{Runs, composed, replaced, run_units-composed}
use asyncflow_cpp.Composing.Summaries.{Summarises}
use asyncflow_cpp.Composing.Select.{again, round, serve_item, served, take_routines}

-- A session that serves: one data queue whose items came by `castObject`, its routines in use,
-- lambdas alone, items deleted automatically, the summary at `z`, no condition, and nobody asks for
-- anything.
pub record IsServing {C : Type 0} (z : Ptr) (n : ℕ) (us : List Ptr) (s : Session C) (h : Hybrid)
    : Type 0 where
  pub one_queue : s.data_queues ≡ h ∷ []
  pub ordered : IsOrdered n h
  pub not_asked : ControlBlock.cancellation_requested s.cblk ≡ false
  pub not_flushed : s.cblk.flushed ≡ false
  pub settled : s.routines_hnds.reload ≡ false
  pub in_use : slot s.routines_hnds s.routines_hnds.index_r ≡ us
  pub lambdas : s.runprio_ml ≡ lambda_only
  pub deletes : s.autodelete ≡ true
  pub summary_settled : s.sum_hnds.reload ≡ false
  pub summing : slot s.sum_hnds s.sum_hnds.index_r ≡ z
  pub no_condition : s.excond ≡ none

-- Such a session without a summary.
abbrev pub IsAtWork : {C : Type 0} → ℕ → List Ptr → Session C → Hybrid → Type 0
IsAtWork n us s h = IsServing null n us s h

-- The session with another data queue.
pub IsAtWork-moved :
    {C : Type 0} {z : Ptr} {n m : ℕ} (us : List Ptr) (s : Session C) (h k : Hybrid)
    → IsServing z n us s h
    → IsOrdered m k
    → IsServing z m us (record s { data_queues = k ∷ [] }) k
IsAtWork-moved us s h k v o = record {
  one_queue = refl;
  ordered = o;
  not_asked = v.not_asked;
  not_flushed = v.not_flushed;
  settled = v.settled;
  in_use = v.in_use;
  lambdas = v.lambdas;
  deletes = v.deletes;
  summary_settled = v.summary_settled;
  summing = v.summing;
  no_condition = v.no_condition;
}

module _ {C : Type 0} (code : UserCode C) (f : Ptr → Ptr → Ptr) where
  -- What goes to the collector for an item.
  abbrev pub made_with : (Ptr → List Ptr) → List Ptr → Ptr → List Ptr
  made_with m us x = replaced f us x ++ m (composed f us x)

  abbrev pub made_of : List Ptr → Ptr → List Ptr
  made_of us x = made_with if_item us x

  pub take_routines_none :
      (g : QueueGarbage) (s : Session C)
      → s.routines_hnds.reload ≡ false
      → take_routines g s ≡ (s, s.routines_hnds.index_r)
  unfolding take_routines Session.switch_routines_handlers switch
  take_routines_none g s r = ground (arith, r)

  -- The state behind an item.
  abbrev pub behind : (Ptr → List Ptr) → List Ptr → Ptr → Hybrid → Turn C → Turn C
  behind m us x h t = record t {
    state = record (t.state) { data_queues = h ∷ []; busy_count = sub64 t.state.busy_count 1 };
    user_data = t.user_data ++ made_with m us x;
  }

  -- Behind the routines, where nothing else is to do.
  abbrev counted : (Ptr → List Ptr) → Ptr → Turn C → Turn C
  counted m x t = record t {
    state = record (t.state) { busy_count = sub64 t.state.busy_count 1 };
    user_data = t.user_data ++ m x;
  }

  served_lem :
      {z : Ptr} (m : Ptr → List Ptr) (qstat : QStatus) (trp : Option C) (r : Run) (u : Turn C)
      → Summarises code z m
      → qstat.called ≡ false
      → trp ≡ none
      → ControlBlock.cancellation_requested r.cblk ≡ false
      → u.state.cblk.flushed ≡ false
      → u.state.sum_hnds.reload ≡ false
      → slot u.state.sum_hnds u.state.sum_hnds.index_r ≡ z
      → u.state.autodelete ≡ true
      → served code qstat trp r false u ≡ done (again (counted m r.result u))
  unfolding served
  served_lem m qstat trp r u sm q e c fl sr sn d =
      let summed = sm r.result u sr sn d in
      let nobody : qstat.endbatch && qstat.called ≡ false = ground (arith, q) in
      simp (c, fl, summed, nobody, e)

  serve_item_lem :
      {z : Ptr} (m : Ptr → List Ptr) {n : ℕ} (us : List Ptr) (qstat : QStatus) (x : Ptr)
      (t : Turn C) (h : Hybrid)
      → Runs code f
      → Summarises code z m
      → IsServing z n us t.state h
      → qstat.called ≡ false
      → serve_item code qstat x us t ≡ done (again (behind m us x (Hybrid.unoccupy h) t))
  unfolding serve_item
  serve_item_lem m us qstat x t h runs sm v q =
      let u = record t {
        state = record (t.state) { data_queues = Hybrid.unoccupy h ∷ [] };
        user_data = t.user_data ++ replaced f us x;
      } in
      let done_so =
        served_lem m qstat t.state.excond
          (record {
            cblk = t.state.cblk;
            r0 = composed f us x;
            result = composed f us x;
            collected = replaced f us x;
          })
          u sm q v.no_condition v.not_asked v.not_flushed v.summary_settled v.summing v.deletes in
      simp (v.one_queue, ran, done_so, append_assoc)
    where
      ran :
          run_units code t.state.runprio_ml t.state.autodelete us
            (record { cblk = t.state.cblk; r0 = x; result = x; collected = [] })
          ≡ done (
            record {
              cblk = t.state.cblk;
              r0 = composed f us x;
              result = composed f us x;
              collected = replaced f us x;
            },
            false,
          )
      ran = rw (v.lambdas, v.deletes) (run_units-composed code f us t.state.cblk x runs v.not_asked)

  -- The session with another data queue, and perhaps another count.
  pub at_work :
      {z : Ptr} {n : ℕ} (us : List Ptr) (s : Session C) (h h' : Hybrid) (k : ℕ)
      → IsServing z n us s h
      → IsOrdered n h'
      → IsServing z n us (record s { data_queues = h' ∷ []; busy_count = k }) h'
  at_work us s h h' k v o = record {
    one_queue = refl;
    ordered = o;
    not_asked = v.not_asked;
    not_flushed = v.not_flushed;
    settled = v.settled;
    in_use = v.in_use;
    lambdas = v.lambdas;
    deletes = v.deletes;
    summary_settled = v.summary_settled;
    summing = v.summing;
    no_condition = v.no_condition;
  }

  pub unoccupy-IsOrdered : {n : ℕ} (h : Hybrid) → IsOrdered n h → IsOrdered n (Hybrid.unoccupy h)
  unfolding Hybrid.unoccupy
  unoccupy-IsOrdered h v = record {
    wf = v.wf;
    running = v.running;
    mapped = v.mapped;
    idle = v.idle;
  }

  pub unoccupy_lem :
      (h : Hybrid)
      → ((Hybrid.unoccupy h).occupant ≡ minus_one) × ((Hybrid.unoccupy h).reg_q ≡ h.reg_q)
  unfolding Hybrid.unoccupy
  unoccupy_lem h = (refl, refl)

  pub round_next :
      {z : Ptr} (m : Ptr → List Ptr) {n : ℕ} (g : QueueGarbage) (ii : ℕ) (us : List Ptr)
      (t : Turn C) (h : Hybrid) (x : Ptr) (xs : List Ptr)
      → n < sign_bit
      → Runs code f
      → Summarises code z m
      → IsServing z n us t.state h
      → h.occupant ≡ minus_one
      → items h.reg_q ≡ x ∷ xs
      → (h' : Hybrid) × (round code g ii t ≡ done (again (behind m us x h' t)))
        × IsServing z n us (behind m us x h' t).state h'
        × (h'.occupant ≡ minus_one)
        × (items h'.reg_q ≡ xs)
  unfolding round
  round_next m g ii us t h x xs lt runs sm v free e =
      let (got, pulled, first, valid, called, left, _, _, ordered) =
        pull_and_occupy_first ii h x xs new_status lt v.ordered (ground (arith, free)) e in
      let u = record t { state = record (t.state) { data_queues = got.state ∷ [] } } in
      let w = at_work us t.state h got.state t.state.busy_count v ordered in
      let served_so = serve_item_lem m us got.qstat x u got.state runs sm w called in
      let routines = take_routines_none g t.state v.settled in
      let un = unoccupy_lem got.state in
      (
        Hybrid.unoccupy got.state,
        simp (
          v.not_asked, v.not_flushed, routines, v.one_queue, pulled, valid, first, v.in_use,
          served_so,
        ),
        at_work us t.state h (Hybrid.unoccupy got.state) _ v (unoccupy-IsOrdered got.state ordered),
        un.0,
        rw un.1 left,
      )
