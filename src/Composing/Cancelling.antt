-- ===== src/Composing/Cancelling.antt =====
-- CPPAFKComposingSession.cpp, `select`: the turn of a session that is to be cancelled.
use asyncflow_cpp.Common.{
  ℕ, ◌<◌, ◌≡◌, refl, ap, ◌∙◌, true, false, List, [], ◌∷◌, ◌++◌, arith, if◌then◌else◌, sign_bit, Ptr,
  ptr_item, done, ◌>>=◌, append-nil,
}
use asyncflow_cpp.Batching.Wf.{items}
use asyncflow_cpp.ControlBlock
use asyncflow_cpp.Hybrid.{Hybrid}
use asyncflow_cpp.Session
use asyncflow_cpp.Session.{Session, Hot, slot, switch}
use asyncflow_cpp.Composing
use asyncflow_cpp.Composing.{QueueGarbage}
use asyncflow_cpp.Composing.Turn.{
  UserCode, Turn, Call, wind_up, flush_turn, invoke_cancellation_handler, cancel_turn,
}
use asyncflow_cpp.Composing.Flushing.{IsFlushable, flush_lem}
use asyncflow_cpp.Composing.Select.{was_cancelled, select}
use asyncflow_cpp.Composing.Turns.{wake_up_none}

pub slot-switch : {H : Type 0} (h : Hot H) (i : ℕ) → slot (switch h).0 i ≡ slot h i
unfolding switch
slot-switch h i = ground arith

abbrev pub call_of : Ptr → ℕ → List Call
call_of cru id = if ptr_item.truthy cru then Call.calls_cancellation cru id ∷ [] else []

module _ {C : Type 0} where
  -- The cancellation handler that is in use from now on, called if there is one.
  abbrev pub handler_of : Session C → Ptr
  handler_of s = slot s.cancel_hnds (switch s.cancel_hnds).2

  abbrev pub called_for : Session C → List Call
  called_for s = call_of (handler_of s) (ControlBlock.get_session_id s.cblk)

  -- The session as a cancellation flushes it.
  abbrev prepared : Session C → Session C
  prepared s = record s { pq = []; cancel_hnds = (switch s.cancel_hnds).0 }

  prepared-IsFlushable :
      {n : ℕ} (s : Session C) (h : Hybrid) → IsFlushable n s h → IsFlushable n (prepared s) h
  prepared-IsFlushable s h v = record {
    one_queue = v.one_queue;
    ordered = v.ordered;
    free = v.free;
    data_items = v.data_items;
    paired = v.paired;
    zero_free = v.zero_free;
    zero_items = v.zero_items;
  }

  invoke_lem :
      (cru : Ptr) (w : Turn C)
      → let u = invoke_cancellation_handler cru w in
        (u.state.cancelled ≡ true)
        × (u.user_data ≡ w.user_data)
        × (u.state.data_queues ≡ w.state.data_queues)
        × (u.calls ≡ w.calls ++ call_of cru (ControlBlock.get_session_id w.state.cblk))
  unfolding invoke_cancellation_handler
  invoke_lem cru w = ground (arith, append-nil w.calls)

  invoke_keeps :
      (cru : Ptr) (w : Turn C) → (invoke_cancellation_handler cru w).state.cblk ≡ w.state.cblk
  unfolding invoke_cancellation_handler
  invoke_keeps cru w = ground arith

  pub cancel_asks :
      (s : Session C) → ControlBlock.cancellation_requested (Composing.cancel s).cblk ≡ true
  unfolding Composing.cancel ControlBlock.cancel ControlBlock.cancellation_requested
  cancel_asks s = ground arith

  pub cancel_keeps :
      (s : Session C)
      → ((Composing.cancel s).data_queues ≡ s.data_queues)
        × (ControlBlock.get_session_id (Composing.cancel s).cblk
            ≡ ControlBlock.get_session_id s.cblk)
  unfolding Composing.cancel ControlBlock.cancel ControlBlock.get_session_id
  cancel_keeps s = (refl, refl)

  pub unflush_keeps :
      (s : Session C)
      → ControlBlock.get_session_id (ControlBlock.set_flush_requested false s.cblk)
        ≡ ControlBlock.get_session_id s.cblk
  unfolding ControlBlock.set_flush_requested ControlBlock.get_session_id
  unflush_keeps s = refl

  cancel_turn_lem :
      {n : ℕ} (t : Turn C) (h : Hybrid)
      → n < sign_bit
      → IsFlushable n t.state h
      → (u : Turn C) × (h' : Hybrid) × (cancel_turn t ≡ done u)
        × (u.state.cancelled ≡ true)
        × (u.user_data
            ≡ t.user_data
              ++ (if t.state.autodelete
                  then t.state.queue_zero.its_q ++ (items h.reg_q ++ [])
                  else []))
        × (u.state.data_queues ≡ h' ∷ [])
        × (items h'.reg_q ≡ [])
        × (u.calls ≡ t.calls ++ called_for t.state)
        × (ControlBlock.cancellation_requested u.state.cblk ≡ true)
  unfolding cancel_turn wind_up flush_turn Session.switch_cancellation_handlers
      Session.reset_priority_queue
  cancel_turn_lem t h lt v =
      let (f, h', flushed, user, _, _, queue, nil, block) =
        flush_lem (prepared t.state) h lt (prepared-IsFlushable t.state h v) in
      let w = record t {
        state = Composing.cancel f.state;
        user_data = t.user_data ++ f.user_data;
        wrappers = t.wrappers ++ f.wrappers;
      } in
      let cru = slot (switch t.state.cancel_hnds).0 (switch t.state.cancel_hnds).2 in
      let (marked, taken, queues, calls) = invoke_lem cru w in
      let kept = cancel_keeps f.state in
      let same_id = kept.1 ∙ ap ControlBlock.get_session_id block ∙ unflush_keeps t.state in
      (
        invoke_cancellation_handler cru w,
        h',
        rw (flushed, ◌>>=◌),
        marked,
        taken ∙ ap (λ xs. t.user_data ++ xs) user,
        queues ∙ kept.0 ∙ queue,
        nil,
        calls
            ∙ ap (λ i. t.calls ++ call_of cru i) same_id
            ∙ ap (λ c. t.calls ++ call_of c (ControlBlock.get_session_id t.state.cblk))
                (slot-switch t.state.cancel_hnds _),
        ap ControlBlock.cancellation_requested (invoke_keeps cru w) ∙ cancel_asks f.state,
      )

  -- What select_cancelled states, and that the session stays asked to stop.
  pub select_cancelled_full :
      {n : ℕ} (code : UserCode C) (g : QueueGarbage) (ii fuel : ℕ) (t : Turn C) (h : Hybrid)
      → n < sign_bit
      → IsFlushable n t.state h
      → ControlBlock.cancellation_requested t.state.cblk ≡ true
      → t.state.paused ≡ false
      → t.state.is_stopped ≡ false
      → t.state.queue_zero.its_q ≡ []
      → (u : Turn C) × (h' : Hybrid) × (select code g ii fuel t ≡ done (u, was_cancelled))
        × (u.state.cancelled ≡ true)
        × (u.user_data
            ≡ t.user_data
              ++ (if t.state.autodelete
                  then t.state.queue_zero.its_q ++ (items h.reg_q ++ [])
                  else []))
        × (u.state.data_queues ≡ h' ∷ [])
        × (items h'.reg_q ≡ [])
        × (u.calls ≡ t.calls ++ called_for t.state)
        × (ControlBlock.cancellation_requested u.state.cblk ≡ true)
  unfolding select
  select_cancelled_full code g ii fuel t h lt v asked p st e =
      let awake = wake_up_none t.state p e in
      let started : select code g ii fuel t ≡ (do c ← cancel_turn t; done (c, was_cancelled)) =
        simp (awake, st, asked) in
      let (u, h', turned, marked, user, queue, nil, calls, asks) = cancel_turn_lem t h lt v in
      (u, h', started ∙ rw (turned, ◌>>=◌), marked, user, queue, nil, calls, asks)

  -- Where a session is to be cancelled, neither paused nor stopped, its first queue is empty and
  -- its queues can be flushed, its turn returns. It empties the data queue, for the collector if
  -- items are deleted automatically; it takes the newest cancellation handler into use and calls
  -- it once, with the session's identifier, unless it is empty; and it marks the session for the
  -- collector.
  pub select_cancelled :
      {n : ℕ} (code : UserCode C) (g : QueueGarbage) (ii fuel : ℕ) (t : Turn C) (h : Hybrid)
      → n < sign_bit
      → IsFlushable n t.state h
      → ControlBlock.cancellation_requested t.state.cblk ≡ true
      → t.state.paused ≡ false
      → t.state.is_stopped ≡ false
      → t.state.queue_zero.its_q ≡ []
      → (u : Turn C) × (h' : Hybrid) × (select code g ii fuel t ≡ done (u, was_cancelled))
        × (u.state.cancelled ≡ true)
        × (u.user_data
            ≡ t.user_data
              ++ (if t.state.autodelete
                  then t.state.queue_zero.its_q ++ (items h.reg_q ++ [])
                  else []))
        × (u.state.data_queues ≡ h' ∷ [])
        × (items h'.reg_q ≡ [])
        × (u.calls ≡ t.calls ++ called_for t.state)
  select_cancelled code g ii fuel t h lt v asked p st e =
      let (u, h', selected, marked, user, queue, nil, calls, _) =
        select_cancelled_full code g ii fuel t h lt v asked p st e in
      (u, h', selected, marked, user, queue, nil, calls)
