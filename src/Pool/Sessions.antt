-- ===== src/Pool/Sessions.antt =====
-- CPPAFKThreadpool.cpp: the pool's methods on its sessions. A method that finds no session under an
-- identifier answers false (or 0, or null) and changes nothing.
use asyncflow_cpp.Common.{
  ℕ, ◌==◌, ◌||◌, Bool, true, false, List, [], ◌∷◌, ◌++◌, if◌then◌else◌, length, Ptr, null, ptr_item,
  Option, none, some,
}
use asyncflow_cpp.Registry.{find, insert}
use asyncflow_cpp.ControlBlock
use asyncflow_cpp.ControlBlock.{ControlBlock}
use asyncflow_cpp.Hybrid.{CallMode}
use asyncflow_cpp.Session
use asyncflow_cpp.Session.{Session}
use asyncflow_cpp.Composing
use asyncflow_cpp.Composing.{QueueGarbage, Flushed}
use asyncflow_cpp.Pool.{Pool, write}

-- CPPAFKSessionConfigParams with the base class's fields, as createComposingSession reads them.
pub record Params (C : Type 0) : Type 0 where
  pub block_call_mode : CallMode
  pub autodelete : Bool
  pub routines : List Ptr
  pub summary_routine : Ptr
  pub progress_routine : Ptr
  pub cancellation_routine : Ptr
  pub exp_summary : Ptr
  pub exp_condition : Option C

-- What a pool makes a new session from: its address, the memory of its control block and queues, and
-- the handler that the method makes.
pub record Fresh : Type 0 where
  pub address : Ptr
  pub block : ControlBlock
  pub zero_occupant : ℕ
  pub queue_garbage : QueueGarbage
  pub handler : Ptr

module _ {C : Type 0} where
  -- A method of the session that an identifier finds.
  unfoldable pub in_session : ℕ → (Session C → Session C × Bool) → Pool C → Pool C × Bool
  in_session id f p = elim (find id p.all_sessions) [
    | none ↦ (p, false)
    | some a ↦ (record p { store = write a (f (p.store a)).0 p.store }, (f (p.store a)).1)
  ]

  unfoldable pub set_progress_routine_in_session : ℕ → Ptr → Pool C → Pool C × Bool
  unfolding in_session Session.set_progress_routine
  set_progress_routine_in_session id r p = in_session id (Session.set_progress_routine r) p

  unfoldable pub set_routines_in_session : ℕ → List Ptr → Pool C → Pool C × Bool
  unfolding in_session Composing.set_routines
  set_routines_in_session id rs p = in_session id (Composing.set_routines rs) p

  unfoldable pub set_cancellation_routine_in_session : ℕ → Ptr → Pool C → Pool C × Bool
  unfolding in_session Session.set_cancellation_handler
  set_cancellation_routine_in_session id r p = in_session id (Session.set_cancellation_handler r) p

  unfoldable pub set_exec_summary_routine_in_session : ℕ → Ptr → Pool C → Pool C × Bool
  unfolding in_session Session.set_summary
  set_exec_summary_routine_in_session id r p = in_session id (Session.set_summary r) p

  unfoldable pub set_expiration_routine : ℕ → Ptr → Pool C → Pool C × Bool
  unfolding in_session Session.set_expiration_summary
  set_expiration_routine id r p = in_session id (Session.set_expiration_summary r) p

  unfoldable pub add_session : QueueGarbage → Ptr → ℕ → Pool C → Pool C × Bool
  unfolding Composing.deploy
  add_session g a id p = elim (find id p.all_sessions) [
    | some other ↦ (p, false)
    | none ↦
        if ptr_item.truthy a
        then (
          record p {
            all_sessions = insert id a p.all_sessions;
            online_sessions = p.online_sessions ++ a ∷ [];
            store = write a (Composing.deploy g (p.store a)) p.store;
          },
          true,
        )
        else (p, false)
  ]

  -- The new object, with the handlers that the parameters name.
  unfoldable pub configure : Params C → Fresh → Session C
  unfolding Session.new Session.set_summary Session.set_progress_routine Composing.set_routines
      Session.set_cancellation_handler Session.set_internal_cancellation_handler
      Session.set_expiration_summary Session.set_expiration_condition
  configure params fresh =
      let s0 =
        Composing.new params.block_call_mode params.autodelete fresh.block fresh.zero_occupant in
      let s1 = (Session.set_summary params.summary_routine s0).0 in
      let s2 = (Session.set_progress_routine params.progress_routine s1).0 in
      let s3 = (Composing.set_routines params.routines s2).0 in
      let s4 = (Session.set_cancellation_handler params.cancellation_routine s3).0 in
      let s5 = Session.set_internal_cancellation_handler fresh.handler s4 in
      let s6 = (Session.set_expiration_summary params.exp_summary s5).0 in
      Session.set_expiration_condition params.exp_condition s6

  -- The identifier is the control block's; 0 is the answer for failure. A refused object is deleted.
  unfoldable pub create_composing_session : Option (Params C) → Fresh → Pool C → Pool C × ℕ
  unfolding configure add_session
  create_composing_session none fresh p = (p, 0)
  create_composing_session (some params) fresh p =
      let id = ControlBlock.get_session_id fresh.block in
      let q = record p { store = write fresh.address (configure params fresh) p.store } in
      let (r, res) = add_session fresh.queue_garbage fresh.address id q in
      if res then (r, id) else (p, 0)

  unfoldable pub get_threadpool_session_with_id : ℕ → Pool C → Ptr
  get_threadpool_session_with_id id p = elim (find id p.all_sessions) [ none ↦ null | some a ↦ a ]

  unfoldable pub post_data : Ptr → ℕ → Pool C → Pool C × Bool
  unfolding in_session Composing.post_data
  post_data item id p = in_session id (Composing.post_data item) p

  unfoldable pub post_data_as_vector : List Ptr → ℕ → Pool C → Pool C × Bool
  unfolding in_session Composing.post_data_as_vector
  post_data_as_vector items id p = in_session id (Composing.post_data_as_vector items) p

  unfoldable pub cast_object_for_session : ℕ → Ptr → Pool C → Pool C × Bool
  unfolding post_data
  cast_object_for_session id item p = if id == 0 then (p, false) else post_data item id p

  pub call_object_for_session : ℕ → Ptr → Pool C → Pool C × Bool
  call_object_for_session id item p = (p, false)

  unfoldable pub cast_vector_for_session : ℕ → List Ptr → Pool C → Pool C × Bool
  unfolding post_data_as_vector
  cast_vector_for_session id items p =
      if length items == 0 || (id == 0) then (p, false) else post_data_as_vector items id p

  pub call_vector_for_session : ℕ → List Ptr → Pool C → Pool C × Bool
  call_vector_for_session id items p = (p, false)
