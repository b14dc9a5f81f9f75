-- ===== src/Pool/Keeping.antt =====
-- CPPAFKThreadpool.cpp and the sessions' classes: what the methods of a session do to its flags.
use asyncflow_cpp.Common.{
  ◌≡◌, refl, ◌∙◌, Bool, true, false, List, [], ◌∷◌, Ptr, ptr_item, Option, none, some, arith,
}
use asyncflow_cpp.ControlBlock
use asyncflow_cpp.Session
use asyncflow_cpp.Session.{Session}
use asyncflow_cpp.Composing
use asyncflow_cpp.Composing.{QueueGarbage, Flushed}
use asyncflow_cpp.Hybrid.{Hybrid}
use asyncflow_cpp.Pool.Sessions.{Params, Fresh, configure}
use asyncflow_cpp.Pool.Views.{flags}
use asyncflow_cpp.Pool.Specification.{set_paused}

module _ {C : Type 0} where
  abbrev pub IsKeeping : (Session C → Session C × Bool) → Type 0
  IsKeeping f = (s : Session C) → flags (f s).0 ≡ flags s

  pub post_data-IsKeeping : (x : Ptr) → IsKeeping (Composing.post_data x)
  unfolding Composing.post_data Session.cancellation_requested ControlBlock.cancellation_requested
      ControlBlock.set_flush_requested
  post_data-IsKeeping x s = go s.data_queues refl
    where
      go : (hs : List Hybrid) → s.data_queues ≡ hs → flags (Composing.post_data x s).0 ≡ flags s
      go [] e = ground (arith, e)
      go (h ∷ hs) e = ground (arith, e)

  pub post_data_as_vector-IsKeeping : (xs : List Ptr) → IsKeeping (Composing.post_data_as_vector xs)
  unfolding Composing.post_data_as_vector Session.cancellation_requested
      ControlBlock.cancellation_requested ControlBlock.set_flush_requested
  post_data_as_vector-IsKeeping [] s = ground arith
  post_data_as_vector-IsKeeping (x ∷ xs) s = go s.data_queues refl
    where
      go :
          (hs : List Hybrid)
          → s.data_queues ≡ hs
          → flags (Composing.post_data_as_vector (x ∷ xs) s).0 ≡ flags s
      go [] e = ground (arith, e)
      go (h ∷ hs) e = ground (arith, e)

  pub set_routines-IsKeeping : (rs : List Ptr) → IsKeeping (Composing.set_routines rs)
  unfolding Composing.set_routines Session.set_routines_base Session.cancellation_requested
  set_routines-IsKeeping rs s = refl

  pub set_summary-IsKeeping : (r : Ptr) → IsKeeping (Session.set_summary r)
  unfolding Session.set_summary Session.cancellation_requested
  set_summary-IsKeeping r s = ground arith

  pub set_progress_routine-IsKeeping : (r : Ptr) → IsKeeping (Session.set_progress_routine r)
  unfolding Session.set_progress_routine Session.cancellation_requested
      ControlBlock.set_progress_routine ControlBlock.cancellation_requested
  set_progress_routine-IsKeeping r s = ground arith

  pub set_cancellation_handler-IsKeeping :
      (r : Ptr) → IsKeeping (Session.set_cancellation_handler r)
  unfolding Session.set_cancellation_handler Session.cancellation_requested
  set_cancellation_handler-IsKeeping r s = ground arith

  pub set_expiration_summary-IsKeeping : (r : Ptr) → IsKeeping (Session.set_expiration_summary r)
  unfolding Session.set_expiration_summary Session.cancellation_requested
  set_expiration_summary-IsKeeping r s = ground arith

  internal_keeps :
      (r : Ptr) (s : Session C) → flags (Session.set_internal_cancellation_handler r s) ≡ flags s
  unfolding Session.set_internal_cancellation_handler Session.cancellation_requested
  internal_keeps r s = ground arith

  condition_keeps :
      (c : Option C) (s : Session C) → flags (Session.set_expiration_condition c s) ≡ flags s
  unfolding Session.set_expiration_condition Session.cancellation_requested
  condition_keeps none s = refl
  condition_keeps (some c) s = refl

  deploy_keeps : (g : QueueGarbage) (s : Session C) → flags (Composing.deploy g s) ≡ flags s
  unfolding Composing.deploy Composing.reconfigure_dataqueues Session.cancellation_requested
  deploy_keeps g s = refl

  -- A new session is not paused; it is asked to stop if the memory of its control block says so.
  pub configure-flags :
      (params : Params C) (fresh : Fresh)
      → flags (Composing.deploy fresh.queue_garbage (configure params fresh))
        ≡ record { paused = false; asked = ControlBlock.cancellation_requested fresh.block }
  unfolding configure
  configure-flags params fresh =
      let s0 =
        Session.new params.autodelete params.block_call_mode fresh.block fresh.zero_occupant in
      let s1 = (Session.set_summary params.summary_routine s0).0 in
      let s2 = (Session.set_progress_routine params.progress_routine s1).0 in
      let s3 = (Composing.set_routines params.routines s2).0 in
      let s4 = (Session.set_cancellation_handler params.cancellation_routine s3).0 in
      let s5 = Session.set_internal_cancellation_handler fresh.handler s4 in
      let s6 = (Session.set_expiration_summary params.exp_summary s5).0 in
      deploy_keeps fresh.queue_garbage (configure params fresh)
      ∙ condition_keeps params.exp_condition s6
      ∙ set_expiration_summary-IsKeeping params.exp_summary s5
      ∙ internal_keeps fresh.handler s4
      ∙ set_cancellation_handler-IsKeeping params.cancellation_routine s3
      ∙ set_routines-IsKeeping params.routines s2
      ∙ set_progress_routine-IsKeeping params.progress_routine s1
      ∙ set_summary-IsKeeping params.summary_routine s0
      ∙ (unfold Session.new Session.cancellation_requested in refl)

  pub paused_flags : (s : Session C) → flags (Session.pause s) ≡ set_paused true (flags s)
  unfolding Session.pause Session.cancellation_requested ControlBlock.set_paused
      ControlBlock.cancellation_requested
  paused_flags s = refl

  pub resumed_flags : (s : Session C) → flags (Session.resume s) ≡ set_paused false (flags s)
  unfolding Session.resume Session.cancellation_requested ControlBlock.set_paused
      ControlBlock.cancellation_requested
  resumed_flags s = refl
