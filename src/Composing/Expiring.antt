-- ===== src/Composing/Expiring.antt =====
-- CPPAFKComposingSession.cpp, `select`: the turn of a session whose expiration condition is met.
use asyncflow_cpp.Common.{
  ℕ, ◌<◌, ◌≡◌, ◌⊎◌, refl, ap, ◌∙◌, true, false, List, [], ◌∷◌, ◌++◌, arith, if◌then◌else◌, sign_bit,
  sle, Ptr, ptr_item, some, done, terminated, ◌>>=◌, append_assoc, Bool-cases, inl, inr,
}
use asyncflow_cpp.Batching.Wf.{items}
use asyncflow_cpp.ControlBlock
use asyncflow_cpp.Hybrid.{Hybrid}
use asyncflow_cpp.Session.{Session}
use asyncflow_cpp.Composing
use asyncflow_cpp.Composing.{QueueGarbage, Flushed}
use asyncflow_cpp.Composing.Turn.{UserCode, Turn, Call, flush_turn, expire, expiration_calls}
use asyncflow_cpp.Composing.Flushing.{IsFlushable, LeavesAlone, flush_full}
use asyncflow_cpp.Composing.Cancelling.{cancel_keeps, unflush_keeps}
use asyncflow_cpp.Composing.Select.{was_cancelled, select}
use asyncflow_cpp.Composing.Turns.{wake_up_none}

module _ {C : Type 0} where
  -- The handlers that an expiration calls: the session's summary, if there is one, and then the
  -- internal one, with the session's identifier.
  abbrev pub expiry_calls : Session C → List Call
  expiry_calls s =
      expiration_calls s.expiration_summary
      ++ Call.calls_internal s.internal_cancellation (ControlBlock.get_session_id s.cblk) ∷ []

  cancel_lem :
      (s : Session C)
      → ((Composing.cancel s).expiration_summary ≡ s.expiration_summary)
        × ((Composing.cancel s).internal_cancellation ≡ s.internal_cancellation)
        × ((Composing.cancel s).cancelled ≡ s.cancelled)
        × (ControlBlock.cancellation_requested (Composing.cancel s).cblk ≡ true)
  unfolding Composing.cancel ControlBlock.cancel ControlBlock.cancellation_requested
  cancel_lem s = ground arith

  -- What an expiration leaves, where the internal handler is not empty.
  abbrev pub Expires : List Ptr → Turn C → Turn C → Type 0
  Expires xs t w =
      (ControlBlock.cancellation_requested w.state.cblk ≡ true)
      × (w.state.cancelled ≡ t.state.cancelled)
      × (w.user_data
          ≡ t.user_data
            ++ (if t.state.autodelete then t.state.queue_zero.its_q ++ (xs ++ []) else []))
      × ((k : Hybrid) × (w.state.data_queues ≡ k ∷ []) × (items k.reg_q ≡ []))
      × (w.calls ≡ t.calls ++ expiry_calls t.state)

  -- The session as an expiration leaves it.
  abbrev expired : Turn C → Flushed C → Turn C
  expired t f = record t {
    state = Composing.cancel f.state;
    user_data = t.user_data ++ f.user_data;
    wrappers = t.wrappers ++ f.wrappers;
    calls =
        (t.calls ++ expiration_calls (Composing.cancel f.state).expiration_summary)
        ++ Call.calls_internal (Composing.cancel f.state).internal_cancellation
            (ControlBlock.get_session_id (Composing.cancel f.state).cblk)
          ∷ [];
  }

  expire_flushed :
      (t : Turn C) (f : Flushed C)
      → Composing.flush t.state ≡ done f
      → expire t ≡ (
          if ptr_item.truthy (Composing.cancel f.state).internal_cancellation
          then done (expired t f)
          else terminated)
  unfolding expire flush_turn
  expire_flushed t f e =
      rw (e, ◌>>=◌)
        (elim (Bool-cases (ptr_item.truthy (Composing.cancel f.state).internal_cancellation)) [
          | inl full ↦ simp (full)
          | inr empty ↦ simp (empty)
        ])

  expired_calls :
      (t : Turn C) (f : Flushed C)
      → LeavesAlone t.state f.state
      → f.state.cblk ≡ ControlBlock.set_flush_requested false t.state.cblk
      → (expired t f).calls ≡ t.calls ++ expiry_calls t.state
  expired_calls t f alone block =
      let (sum, handler, _, _) = cancel_lem f.state in
      let same_id =
        (cancel_keeps f.state).1 ∙ ap ControlBlock.get_session_id block ∙ unflush_keeps t.state in
      rw (sum ∙ alone.same_summary, handler ∙ alone.same_handler, same_id) (simp (append_assoc))

  expire_lem :
      {n : ℕ} (t : Turn C) (h : Hybrid)
      → n < sign_bit
      → IsFlushable n t.state h
      → (ptr_item.truthy t.state.internal_cancellation ≡ false) × (expire t ≡ terminated)
        ⊎ (ptr_item.truthy t.state.internal_cancellation ≡ true)
          × ((w : Turn C) × (expire t ≡ done w) × Expires (items h.reg_q) t w)
  expire_lem t h lt v =
      let (f, k, flushed, user, _, _, queue, nil, block, alone) = flush_full t.state h lt v in
      let (_, handler, mark, asked) = cancel_lem f.state in
      let same = ap ptr_item.truthy (handler ∙ alone.same_handler) in
      elim (Bool-cases (ptr_item.truthy t.state.internal_cancellation)) [
        | inr empty ↦ inl (empty, expire_flushed t f flushed ∙ rw (same ∙ empty) refl)
        | inl full ↦ inr (
          full,
          (
            expired t f,
            expire_flushed t f flushed ∙ rw (same ∙ full) refl,
            (
              asked,
              mark ∙ alone.same_mark,
              ap (λ xs. t.user_data ++ xs) user,
              (k, (cancel_keeps f.state).0 ∙ queue, nil),
              expired_calls t f alone block,
            ),
          ),
        )
      ]

module _ {C : Type 0} (code : UserCode C) where
  -- The turn with the condition's new sample.
  abbrev pub sampled : C → Turn C → Turn C
  sampled c t = record t {
    state = record (t.state) { excond = some (code.set_sample t.state.busy_count c) };
  }

  sampled-IsFlushable :
      {n : ℕ} (c : C) (t : Turn C) (h : Hybrid)
      → IsFlushable n t.state h
      → IsFlushable n (sampled c t).state h
  sampled-IsFlushable c t h v = record {
    one_queue = v.one_queue;
    ordered = v.ordered;
    free = v.free;
    data_items = v.data_items;
    paired = v.paired;
    zero_free = v.zero_free;
    zero_items = v.zero_items;
  }

  expires_at :
      (g : QueueGarbage) (ii fuel : ℕ) (c : C) (t : Turn C)
      → t.state.paused ≡ false
      → t.state.queue_zero.its_q ≡ []
      → t.state.is_stopped ≡ false
      → ControlBlock.cancellation_requested t.state.cblk ≡ false
      → sle t.state.busy_count 0 ≡ true
      → t.state.excond ≡ some c
      → code.all_conditions_met (code.set_sample t.state.busy_count c) ≡ true
      → select code g ii fuel t ≡ (do x ← expire (sampled c t); done (x, was_cancelled))
  unfolding select
  expires_at g ii fuel c t p e st asked idle ex met =
      simp (wake_up_none t.state p e, st, asked, idle, ex, met)

  -- A turn of a session that is not paused, not stopped and not asked to cancel, that has nothing
  -- under way and whose condition is met, where nobody occupies the session's two queues, the first
  -- holds neither items nor indexes, the items in its one data queue, fewer than 2 ^ 63, came by
  -- `castObject` and none of them is null. The turn serves no item. Where the internal handler is
  -- empty, the program terminates. Otherwise the turn returns: the items that waited went to the
  -- collector, if items are deleted automatically, none is left in the data queue, the session is
  -- asked to cancel, the summary of the expiration, if there is one, and then the internal handler
  -- were called once; but the session's mark for the collector stays as it was, and no cancellation
  -- handler was called.
  pub select_expired :
      {n : ℕ} (g : QueueGarbage) (ii fuel : ℕ) (c : C) (t : Turn C) (h : Hybrid)
      → n < sign_bit
      → IsFlushable n t.state h
      → t.state.paused ≡ false
      → t.state.queue_zero.its_q ≡ []
      → t.state.is_stopped ≡ false
      → ControlBlock.cancellation_requested t.state.cblk ≡ false
      → sle t.state.busy_count 0 ≡ true
      → t.state.excond ≡ some c
      → code.all_conditions_met (code.set_sample t.state.busy_count c) ≡ true
      → (ptr_item.truthy t.state.internal_cancellation ≡ false)
          × (select code g ii fuel t ≡ terminated)
        ⊎ (ptr_item.truthy t.state.internal_cancellation ≡ true)
          × ((w : Turn C) × (select code g ii fuel t ≡ done (w, was_cancelled))
              × Expires (items h.reg_q) t w)
  select_expired g ii fuel c t h lt v p e st asked idle ex met =
      let start = expires_at g ii fuel c t p e st asked idle ex met in
      elim (expire_lem (sampled c t) h lt (sampled-IsFlushable c t h v)) [
        | inl (empty, dies) ↦ inl (empty, start ∙ rw (dies, ◌>>=◌) refl)
        | inr (full, (w, over, left)) ↦ inr (full, (w, start ∙ rw (over, ◌>>=◌) refl, left))
      ]
