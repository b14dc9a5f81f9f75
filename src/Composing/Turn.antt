-- ===== src/Composing/Turn.antt =====
-- CPPAFKComposingSession.cpp, `select`: the parts of a session's turn. The turn is one step: its flags
-- change by its own routines alone. User code is a parameter.
use asyncflow_cpp.Common.{
  ℕ, ◌==◌, ◌&&◌, Bool, true, false, not, List, [], ◌∷◌, ◌++◌, if◌then◌else◌, Ptr, ptr_item, Option,
  none, some, Outcome, done, terminated, ◌>>=◌,
}
use asyncflow_cpp.Batching.{Wrap}
use asyncflow_cpp.ControlBlock
use asyncflow_cpp.ControlBlock.{ControlBlock}
use asyncflow_cpp.Session
use asyncflow_cpp.Session.{
  Session, RunPriority, lambda_only, method_only, lambda_then_method, method_then_lambda, slot,
}
use asyncflow_cpp.Composing
use asyncflow_cpp.Composing.{Flushed}

-- What a routine does with a data item: it may set the flags of the control block it is given.
abbrev pub Routine : Type 0
Routine = Ptr → ControlBlock → ControlBlock × Ptr

-- The user's code behind the addresses: the two functions of a unit, each perhaps empty, the
-- summaries, and the conditions.
pub record UserCode (C : Type 0) : Type 0 where
  pub run_l : Ptr → Option Routine
  pub run_m : Ptr → Option Routine
  pub summary : Ptr → Routine
  pub set_sample : ℕ → C → C
  pub all_conditions_met : C → Bool
  pub some_conditions_met : C → Bool

-- The handlers that a turn calls for their effect.
pub data Call : Type 0 where
  calls_cancellation : Ptr → ℕ → Call
  calls_expiration : Ptr → Call
  calls_internal : Ptr → ℕ → Call

-- A session in its turn, with what went to the collector and which handlers were called, oldest first.
pub record Turn (C : Type 0) : Type 0 where
  pub state : Session C
  pub user_data : List Ptr
  pub wrappers : List (Wrap Ptr)
  pub calls : List Call

-- The variables of the loop over the routines.
pub record Run : Type 0 where
  pub cblk : ControlBlock
  pub r0 : Ptr
  pub result : Ptr
  pub collected : List Ptr

abbrev pub if_item : Ptr → List Ptr
if_item p = if ptr_item.truthy p then p ∷ [] else []

-- A call of a std::function; that of an empty one throws. `r0` moves on under `autodelete` alone.
unfoldable pub apply : Bool → Option Routine → Run → Outcome Run
apply autodelete none r = terminated
apply autodelete (some f) r =
    let (cblk, result) = f r.r0 r.cblk in
    if autodelete && not (result == r.r0)
    then done (record {
      cblk = cblk;
      r0 = result;
      result = result;
      collected = r.collected ++ if_item r.r0;
    })
    else done (record { cblk = cblk; r0 = r.r0; result = result; collected = r.collected })

abbrev pub expiration_calls : Ptr → List Call
expiration_calls sum = if ptr_item.truthy sum then Call.calls_expiration sum ∷ [] else []

module _ {C : Type 0} (code : UserCode C) where
  unfoldable pub run_unit : RunPriority → Bool → Ptr → Run → Outcome Run
  unfolding apply
  run_unit lambda_only autodelete u r = apply autodelete (code.run_l u) r
  run_unit method_only autodelete u r = apply autodelete (code.run_m u) r
  run_unit lambda_then_method autodelete u r = do
    s ← apply autodelete (code.run_l u) r
    apply autodelete (code.run_m u) s
  run_unit method_then_lambda autodelete u r = do
    s ← apply autodelete (code.run_m u) r
    apply autodelete (code.run_l u) s

  -- The loop over the routines; true where a request to cancel ends it.
  unfoldable pub run_units : RunPriority → Bool → List Ptr → Run → Outcome (Run × Bool)
  unfolding run_unit
  run_units prio autodelete [] r = done (r, false)
  run_units prio autodelete (u ∷ us) r = do
    s ← run_unit prio autodelete u r
    let rest = run_units prio autodelete us s
    if ControlBlock.cancellation_requested s.cblk then done (s, true) else rest

module _ {C : Type 0} where
  unfoldable pub collect : List Ptr → Turn C → Turn C
  collect xs t = record t { user_data = t.user_data ++ xs }

  abbrev pub set_state : Session C → Turn C → Turn C
  set_state s t = record t { state = s }

  log_flush : Turn C → Flushed C → Turn C
  log_flush t f = record t {
    state = f.state;
    user_data = t.user_data ++ f.user_data;
    wrappers = t.wrappers ++ f.wrappers;
  }

  unfoldable pub flush_turn : Turn C → Outcome (Turn C)
  unfolding log_flush Composing.flush
  flush_turn t = do f ← Composing.flush t.state; done (log_flush t f)

  unfoldable pub flush_turn_now : Turn C → Outcome (Turn C)
  unfolding log_flush Composing.flush_now
  flush_turn_now t = do f ← Composing.flush_now t.state; done (log_flush t f)

  -- A cancellation handler is called with the session's identifier, where it is not empty.
  unfoldable pub call_cancellation : Ptr → Turn C → Turn C
  call_cancellation cru t =
      if ptr_item.truthy cru
      then record t {
        calls =
            t.calls ++ Call.calls_cancellation cru (ControlBlock.get_session_id t.state.cblk) ∷ [];
      }
      else t

  unfoldable pub invoke_cancellation_handler : Ptr → Turn C → Turn C
  unfolding call_cancellation
  invoke_cancellation_handler cru t =
      let c = call_cancellation cru t in set_state (record (c.state) { cancelled = true }) c

  -- What every cancellation does: the handler to call is settled, the session flushed and marked.
  unfoldable pub wind_up : Turn C → Outcome (Turn C × Ptr)
  unfolding Session.switch_cancellation_handlers flush_turn Composing.cancel
  wind_up t = do
    let (s, switched, ind) = Session.switch_cancellation_handlers t.state
    f ← flush_turn (set_state s t)
    done (set_state (Composing.cancel f.state) f, slot s.cancel_hnds ind)

  -- Where no item is under way.
  unfoldable pub cancel_turn : Turn C → Outcome (Turn C)
  unfolding Session.reset_priority_queue wind_up invoke_cancellation_handler
  cancel_turn t = do
    (w, cru) ← wind_up (set_state (Session.reset_priority_queue t.state) t)
    done (invoke_cancellation_handler cru w)

  -- Where a routine asked for it: `cancelled` is not set.
  unfoldable pub cancel_midway : Ptr → Turn C → Outcome (Turn C)
  unfolding wind_up call_cancellation collect
  cancel_midway result t = do
    (w, cru) ← wind_up (collect (if t.state.autodelete then if_item result else []) t)
    let c = call_cancellation cru w
    done (set_state (record (c.state) { busy_count = 0 }) c)

  -- Behind the loop over the routines: the handler is called twice.
  unfoldable pub cancel_behind : Ptr → (Session C → Session C) → Turn C → Outcome (Turn C)
  unfolding wind_up call_cancellation invoke_cancellation_handler collect
      Session.reset_priority_queue
  cancel_behind result unoccupy t = do
    let c = collect (if t.state.autodelete then if_item result else []) t
    (w, cru) ← wind_up (set_state (unoccupy (Session.reset_priority_queue c.state)) c)
    done (call_cancellation cru (invoke_cancellation_handler cru w))

  -- The two handlers of an expiration; the internal one is called even if it is empty, which throws.
  unfoldable pub expire : Turn C → Outcome (Turn C)
  unfolding flush_turn Composing.cancel
  expire t = do
    f ← flush_turn t
    let s = Composing.cancel f.state
    let summed = f.calls ++ expiration_calls s.expiration_summary
    elim (ptr_item.truthy s.internal_cancellation) [
      | false ↦ terminated
      | true ↦ done (record (set_state s f) {
        calls =
            summed
            ++ Call.calls_internal s.internal_cancellation (ControlBlock.get_session_id s.cblk)
              ∷ [];
      })
    ]
