-- ===== src/Composing/Interrupting.antt =====
-- CPPAFKComposingSession.cpp, `select`: the cancellation that a routine asked for, item in hand.
use asyncflow_cpp.Common.{
  ℕ, ◌<◌, ◌≡◌, refl, ap, ◌∙◌, true, [], ◌∷◌, ◌++◌, arith, if◌then◌else◌, sign_bit, Ptr, ptr_item,
  done, ◌>>=◌, append-nil,
}
use asyncflow_cpp.Batching.Wf.{items}
use asyncflow_cpp.ControlBlock
use asyncflow_cpp.ControlBlock.{ControlBlock}
use asyncflow_cpp.Hybrid.{Hybrid}
use asyncflow_cpp.Session
use asyncflow_cpp.Session.{Session, Hot, slot, switch, lambda_only}
use asyncflow_cpp.Composing
use asyncflow_cpp.Composing.{QueueGarbage}
use asyncflow_cpp.Composing.Turn.{
  Turn, call_cancellation, cancel_midway, collect, flush_turn, if_item, wind_up,
}
use asyncflow_cpp.Composing.Flushing.{IsFlushable, flush_full}
use asyncflow_cpp.Composing.Cancelling.{
  slot-switch, cancel_asks, cancel_keeps, unflush_keeps, called_for, call_of,
}

module _ {C : Type 0} where
  -- The session as the cancellation flushes it.
  abbrev switched : Session C → Session C
  switched s = record s { cancel_hnds = (switch s.cancel_hnds).0 }

  switched-IsFlushable :
      {n : ℕ} (s : Session C) (h : Hybrid) → IsFlushable n s h → IsFlushable n (switched s) h
  switched-IsFlushable s h v = record {
    one_queue = v.one_queue;
    ordered = v.ordered;
    free = v.free;
    data_items = v.data_items;
    paired = v.paired;
    zero_free = v.zero_free;
    zero_items = v.zero_items;
  }

  call_lem :
      (cru : Ptr) (w : Turn C)
      → let u = call_cancellation cru w in
        (u.state ≡ w.state)
        × (u.user_data ≡ w.user_data)
        × (u.calls ≡ w.calls ++ call_of cru (ControlBlock.get_session_id w.state.cblk))
  unfolding call_cancellation
  call_lem cru w = ground (arith, append-nil w.calls)

  cancel_marks : (s : Session C) → (Composing.cancel s).cancelled ≡ s.cancelled
  unfolding Composing.cancel
  cancel_marks s = refl

  -- The turn ends, and the session is flushed; the handler is called, but the session is not marked.
  pub cancel_midway_lem :
      {n : ℕ} (result : Ptr) (t : Turn C) (h : Hybrid)
      → n < sign_bit
      → IsFlushable n t.state h
      → (u : Turn C) × (k : Hybrid) × (cancel_midway result t ≡ done u)
        × (ControlBlock.cancellation_requested u.state.cblk ≡ true)
        × (u.state.cancelled ≡ t.state.cancelled)
        × (u.user_data
            ≡ (t.user_data ++ (if t.state.autodelete then if_item result else []))
              ++ (if t.state.autodelete
                  then t.state.queue_zero.its_q ++ (items h.reg_q ++ [])
                  else []))
        × (u.state.data_queues ≡ k ∷ [])
        × (items k.reg_q ≡ [])
        × (u.calls ≡ t.calls ++ called_for t.state)
  unfolding cancel_midway wind_up flush_turn Session.switch_cancellation_handlers collect
  cancel_midway_lem result t h lt v =
      let (f, k, flushed, user, _, _, queue, nil, block, alone) =
        flush_full (switched t.state) h lt (switched-IsFlushable t.state h v) in
      let w : Turn C = record t {
        state = Composing.cancel f.state;
        user_data =
            (t.user_data ++ (if t.state.autodelete then if_item result else [])) ++ f.user_data;
        wrappers = t.wrappers ++ f.wrappers;
      } in
      let cru = slot (switch t.state.cancel_hnds).0 (switch t.state.cancel_hnds).2 in
      let (same, taken, calls) = call_lem cru w in
      let kept = cancel_keeps f.state in
      let same_id = kept.1 ∙ ap ControlBlock.get_session_id block ∙ unflush_keeps t.state in
      (
        record (call_cancellation cru w) {
          state = record ((call_cancellation cru w).state) { busy_count = 0 };
        },
        k,
        rw (flushed, ◌>>=◌),
        ap (λ s. ControlBlock.cancellation_requested s.cblk) same ∙ cancel_asks f.state,
        ap (λ s. s.cancelled) same ∙ cancel_marks f.state ∙ alone.same_mark,
        taken
            ∙ ap (λ xs. (t.user_data ++ (if t.state.autodelete then if_item result else [])) ++ xs)
                user,
        ap (λ s. s.data_queues) same ∙ kept.0 ∙ queue,
        nil,
        calls
            ∙ ap (λ i. t.calls ++ call_of cru i) same_id
            ∙ ap (λ c. t.calls ++ call_of c (ControlBlock.get_session_id t.state.cblk))
                (slot-switch t.state.cancel_hnds _),
      )
