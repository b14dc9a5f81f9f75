-- ===== src/Composing/Select.antt =====
-- CPPAFKComposingSession.cpp, `select`: a session's turn, which serves items until none is left or the
-- session ends. No other thread is in the session meanwhile.
use asyncflow_cpp.Common.{
  ℕ, zero, suc, ◌==◌, ◌&&◌, Bool, true, false, List, [], ◌∷◌, ◌++◌, if◌then◌else◌, sle, sub64, Ptr,
  null, ptr_item, Option, none, some, Outcome, done, stuck, ◌>>=◌,
}
use asyncflow_cpp.ControlBlock
use asyncflow_cpp.ControlBlock.{ControlBlock}
use asyncflow_cpp.ThreadpoolQueue.{QStatus, new_status}
use asyncflow_cpp.Hybrid
use asyncflow_cpp.Hybrid.{Hybrid}
use asyncflow_cpp.Session
use asyncflow_cpp.Session.{Session, slot}
use asyncflow_cpp.Composing
use asyncflow_cpp.Composing.{QueueGarbage}
use asyncflow_cpp.Composing.Turn.{
  UserCode, Turn, Run, run_units, collect, set_state, flush_turn_now, cancel_turn, cancel_midway,
  cancel_behind, expire, if_item,
}

-- eCPPAFKThreadpoolExecutionStatus, of which `select` returns these two.
pub data Status : Type 0 where
  has_none was_cancelled : Status

-- Behind a round of the loop: on to the next one, or out of the method.
pub data Round (C : Type 0) : Type 0 where
  again : Turn C → Round C
  ended : Turn C → Status → Round C

on_front : (Hybrid → Hybrid) → List Hybrid → List Hybrid
on_front f [] = []
on_front f (h ∷ hs) = f h ∷ hs

unoccupy_all : List Hybrid → List Hybrid
unfolding Hybrid.unoccupy
unoccupy_all [] = []
unoccupy_all (h ∷ hs) = Hybrid.unoccupy h ∷ unoccupy_all hs

module _ {C : Type 0} where
  change_front : (Hybrid → Hybrid) → Session C → Session C
  unfolding on_front
  change_front f s = record s { data_queues = on_front f s.data_queues }

  -- Routines that come into use bring new data queues.
  unfoldable pub take_routines : QueueGarbage → Session C → Session C × ℕ
  unfolding Session.switch_routines_handlers Composing.reconfigure_dataqueues
      Session.reset_priority_queue
  take_routines g s =
      let (n, switched, ind) = Session.switch_routines_handlers s in
      (
        if switched then Session.reset_priority_queue (Composing.reconfigure_dataqueues g n) else n,
        ind,
      )

  flush_asked : Turn C → Outcome (Turn C)
  unfolding flush_turn_now
  flush_asked t = if t.state.cblk.flushed then flush_turn_now t else done t

  -- A session that is paused goes on.
  unfoldable pub wake_up : Session C → Session C
  unfolding unoccupy_all Session.adopt_data_from_zero_queue
  wake_up s = Session.adopt_data_from_zero_queue (
      if s.paused then record s { paused = false; data_queues = unoccupy_all s.data_queues } else s)

module _ {C : Type 0} (code : UserCode C) where
  -- The summary of an item, or none. The summary's argument is collected whatever it returns.
  unfoldable pub summarise : Ptr → Turn C → Turn C
  unfolding Session.switch_summary_handlers collect
  summarise item t =
      let (s, switched, ind) = Session.switch_summary_handlers t.state in
      let handler = slot s.sum_hnds ind in
      if ptr_item.truthy handler
      then (let (cblk, result) = code.summary handler item s.cblk in
          collect
            (if s.autodelete
              then (if result == item then if_item item else if_item item ++ if_item result)
              else [])
            (set_state (record s { cblk = cblk }) t))
      else collect (if s.autodelete then if_item item else []) (set_state s t)

  -- The condition that was read before the routines ran, once the item is served.
  check_expiration : Option C → Turn C → Outcome (Round C)
  unfolding expire
  check_expiration none t = done (again t)
  check_expiration (some c) t =
      let sampled = code.set_sample t.state.busy_count c in
      let u = set_state (record (t.state) { excond = some sampled }) t in
      if code.some_conditions_met sampled
      then (do e ← expire u; done (ended e has_none))
      else done (again u)

  -- Behind the routines, where no one asked to cancel.
  finish : QStatus → Option C → Ptr → Turn C → Outcome (Round C)
  unfolding summarise check_expiration change_front Hybrid.release_blocked
  finish qstat trp result t =
      let u = summarise result t in
      let counted = record (u.state) { busy_count = sub64 u.state.busy_count 1 } in
      let s =
        if qstat.endbatch && qstat.called
        then change_front Hybrid.release_blocked counted
        else counted in
      check_expiration trp (set_state s u)

  -- A flush that was requested while the routines ran: it takes the item too, where items are deleted.
  flush_behind : Ptr → Turn C → Outcome (Turn C × Ptr)
  unfolding collect change_front flush_turn_now Hybrid.unoccupy
  flush_behind result t =
      if t.state.cblk.flushed
      then (do
        let c = collect (if t.state.autodelete then if_item result else []) t
        f ← flush_turn_now (set_state (change_front Hybrid.unoccupy c.state) c)
        done (f, if t.state.autodelete then null else result))
      else done (t, result)

  -- Behind the loop over the routines, which a request to cancel may have ended.
  unfoldable pub served : QStatus → Option C → Run → Bool → Turn C → Outcome (Round C)
  unfolding cancel_midway cancel_behind flush_behind finish change_front Hybrid.unoccupy
  served qstat trp r true u = do c ← cancel_midway r.result u; done (ended c was_cancelled)
  served qstat trp r false u =
      if ControlBlock.cancellation_requested r.cblk
      then (do c ← cancel_behind r.result (change_front Hybrid.unoccupy) u; done (ended c has_none))
      else (do (f, result) ← flush_behind r.result u; finish qstat trp result f)

  -- An item that was taken out, with the routines that are in use.
  unfoldable pub serve_item : QStatus → Ptr → List Ptr → Turn C → Outcome (Round C)
  unfolding collect change_front Hybrid.unoccupy
  serve_item qstat item units t = do
    let s = change_front Hybrid.unoccupy t.state
    (r, asked) ←
        run_units code s.runprio_ml s.autodelete units
          (record { cblk = s.cblk; r0 = item; result = item; collected = [] })
    let u = collect r.collected (set_state (record s { cblk = r.cblk }) t)
    served qstat s.excond r asked u

  got_item : QStatus → Ptr → List Ptr → Turn C → Outcome (Round C)
  got_item qstat item units t =
      if qstat.validrv
      then serve_item qstat item units t
      else if qstat.empty
      then done (ended t has_none)
      else done (again t)

  -- The first data queue, from which a round takes an item.
  serve_queue : ℕ → ℕ → Turn C → List Hybrid → Outcome (Round C)
  unfolding got_item new_status
  serve_queue ii ind t [] = done (ended t has_none)
  serve_queue ii ind t (h ∷ hs) = do
    got ← Hybrid.pull_and_occupy_with_id ii h new_status
    let u = set_state (record (t.state) { data_queues = got.state ∷ hs }) t
    got_item got.qstat got.item (slot t.state.routines_hnds ind) u

  unfoldable pub round : QueueGarbage → ℕ → Turn C → Outcome (Round C)
  unfolding cancel_turn flush_asked serve_queue
  round g ii t =
      if ControlBlock.cancellation_requested t.state.cblk
      then (do c ← cancel_turn t; done (ended c has_none))
      else (do
        f ← flush_asked t
        let (s, ind) = take_routines g f.state
        serve_queue ii ind (set_state s f) s.data_queues)

  -- `while(1)`; out of fuel is not coming back.
  unfoldable pub rounds : QueueGarbage → ℕ → ℕ → Turn C → Outcome (Turn C × Status)
  rounds g ii zero t = stuck
  rounds g ii (suc fuel) t = do
    r ← round g ii t
    elim r [ again u ↦ rounds g ii fuel u | ended u status ↦ done (u, status) ]

  -- A condition that is met before the loop, where the session has nothing under way.
  expired_before : Turn C → Option C → Turn C × Bool
  expired_before t none = (t, false)
  expired_before t (some c) =
      let sampled = code.set_sample t.state.busy_count c in
      (set_state (record (t.state) { excond = some sampled }) t, code.all_conditions_met sampled)

  unfoldable pub select : QueueGarbage → ℕ → ℕ → Turn C → Outcome (Turn C × Status)
  unfolding expired_before expire
  select g ii fuel t =
      let w = set_state (wake_up t.state) t in
      if w.state.is_stopped
      then done (w, was_cancelled)
      else if ControlBlock.cancellation_requested w.state.cblk
      then (do c ← cancel_turn w; done (c, was_cancelled))
      else if sle w.state.busy_count 0
      then (let (e, met) = expired_before w w.state.excond in
          if met then (do x ← expire e; done (x, was_cancelled)) else rounds g ii fuel e)
      else rounds g ii fuel w
