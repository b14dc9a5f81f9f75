-- ===== src/Pool/Configuring.antt =====
-- CPPAFKThreadpool.cpp, createComposingSession: what the setters make of a new session.
use native.Mathlib.Decide.{ℕ_discrete}
use asyncflow_cpp.Common.{
  ◌≡◌, refl, ap, ◌∙◌, true, false, Bool, List, [], ◌∷◌, arith, Ptr, null, ptr_item, none,
}
use asyncflow_cpp.ControlBlock
use asyncflow_cpp.Session
use asyncflow_cpp.Session.{Session, switch}
use asyncflow_cpp.Composing
use asyncflow_cpp.Composing.{QueueGarbage}
use asyncflow_cpp.Composing.Starting.{IsFresh}
use asyncflow_cpp.Pool.Sessions.{Params, Fresh, configure}

module _ {C : Type 0} where
  -- A session with routines and automatic deletion, without summary and expiration.
  pub record IsSimple (u : Ptr) (us : List Ptr) (params : Params C) : Type 0 where
    pub works : params.routines ≡ u ∷ us
    pub deletes : params.autodelete ≡ true
    pub no_summary : params.summary_routine ≡ null
    pub no_condition : params.exp_condition ≡ none

  abbrev unset : Bool → Params C → Fresh → Session C
  unset deletes params fresh =
      Session.new deletes params.block_call_mode fresh.block fresh.zero_occupant

  -- The object with its progress routine.
  abbrev begun : Ptr → Params C → Fresh → Session C
  begun r params fresh = (Session.set_progress_routine r (unset true params fresh)).0

  begun-IsFresh :
      (r u : Ptr) (us : List Ptr) (params : Params C) (fresh : Fresh)
      → ControlBlock.cancellation_requested fresh.block ≡ false
      → fresh.block.flushed ≡ false
      → IsFresh (u ∷ us) (Composing.set_routines (u ∷ us) (begun r params fresh)).0
        × ((Composing.set_routines (u ∷ us) (begun r params fresh)).0.queue_zero.its_q ≡ [])
  unfolding Session.new Composing.set_routines switch Session.store Session.new_hot
      Session.set_progress_routine ControlBlock.set_progress_routine
      ControlBlock.cancellation_requested
  begun-IsFresh r u us params fresh a f = elim (ℕ_discrete r 0) [
    | yes z ↦ ground (arith, z)
    | no nz ↦ ground (arith, nz)
  ]

  set_cancellation_handler-IsFresh :
      (r : Ptr) (us : List Ptr) (s : Session C)
      → IsFresh us s
      → IsFresh us (Session.set_cancellation_handler r s).0
        × ((Session.set_cancellation_handler r s).0.queue_zero ≡ s.queue_zero)
  unfolding Session.set_cancellation_handler
  set_cancellation_handler-IsFresh r us s v = elim (ℕ_discrete r 0) [
    | yes z ↦ ground (arith, z)
    | no nz ↦ ground (arith, nz)
  ]

  set_internal_cancellation_handler-IsFresh :
      (r : Ptr) (us : List Ptr) (s : Session C)
      → IsFresh us s
      → IsFresh us (Session.set_internal_cancellation_handler r s)
        × ((Session.set_internal_cancellation_handler r s).queue_zero ≡ s.queue_zero)
  unfolding Session.set_internal_cancellation_handler
  set_internal_cancellation_handler-IsFresh r us s v = elim (ℕ_discrete r 0) [
    | yes z ↦ ground (arith, z)
    | no nz ↦ ground (arith, nz)
  ]

  set_expiration_summary-IsFresh :
      (r : Ptr) (us : List Ptr) (s : Session C)
      → IsFresh us s
      → IsFresh us (Session.set_expiration_summary r s).0
        × ((Session.set_expiration_summary r s).0.queue_zero ≡ s.queue_zero)
  unfolding Session.set_expiration_summary
  set_expiration_summary-IsFresh r us s v = elim (ℕ_discrete r 0) [
    | yes z ↦ ground (arith, z)
    | no nz ↦ ground (arith, nz)
  ]

  pub deploy-IsFresh :
      (g : QueueGarbage) (us : List Ptr) (s : Session C)
      → IsFresh us s
      → IsFresh us (Composing.deploy g s) × ((Composing.deploy g s).queue_zero ≡ s.queue_zero)
  unfolding Composing.deploy Composing.reconfigure_dataqueues
  deploy-IsFresh g us s v = (
    record {
      no_queue = rw (v.bare, Composing.reconfigure_dataqueues) refl;
      waits = v.waits;
      bare = v.bare;
      next = v.next;
      not_asked = v.not_asked;
      not_flushed = v.not_flushed;
      not_paused = v.not_paused;
      not_stopped = v.not_stopped;
      unmarked = v.unmarked;
      lambdas = v.lambdas;
      deletes = v.deletes;
      summary_settled = v.summary_settled;
      no_summary = v.no_summary;
      no_condition = v.no_condition;
    },
    refl,
  )

  set_summary-null : (s : Session C) → (Session.set_summary null s).0 ≡ s
  unfolding Session.set_summary
  set_summary-null s = refl

  -- The setters behind that of the summary, one after the other.
  all_set : Params C → Ptr → Session C → Session C
  all_set params handler s0 =
      let s2 = (Session.set_progress_routine params.progress_routine s0).0 in
      let s3 = (Composing.set_routines params.routines s2).0 in
      let s4 = (Session.set_cancellation_handler params.cancellation_routine s3).0 in
      let s5 = Session.set_internal_cancellation_handler handler s4 in
      let s6 = (Session.set_expiration_summary params.exp_summary s5).0 in
      Session.set_expiration_condition params.exp_condition s6

  configure_lem :
      (params : Params C) (fresh : Fresh)
      → configure params fresh
        ≡ all_set params fresh.handler
            (Session.set_summary params.summary_routine (unset params.autodelete params fresh)).0
  unfolding configure all_set
  configure_lem params fresh = refl

  all_set_lem :
      (u : Ptr) (us : List Ptr) (params : Params C) (fresh : Fresh)
      → params.routines ≡ u ∷ us
      → params.exp_condition ≡ none
      → ControlBlock.cancellation_requested fresh.block ≡ false
      → fresh.block.flushed ≡ false
      → IsFresh (u ∷ us) (all_set params fresh.handler (unset true params fresh))
        × ((all_set params fresh.handler (unset true params fresh)).queue_zero.its_q ≡ [])
  unfolding all_set
  all_set_lem u us params fresh e n a f =
      let s3 = (Composing.set_routines (u ∷ us) (begun params.progress_routine params fresh)).0 in
      let (v3, q3) = begun-IsFresh params.progress_routine u us params fresh a f in
      let s4 = (Session.set_cancellation_handler params.cancellation_routine s3).0 in
      let (v4, q4) = set_cancellation_handler-IsFresh params.cancellation_routine (u ∷ us) s3 v3 in
      let s5 = Session.set_internal_cancellation_handler fresh.handler s4 in
      let (v5, q5) = set_internal_cancellation_handler-IsFresh fresh.handler (u ∷ us) s4 v4 in
      let (v6, q6) = set_expiration_summary-IsFresh params.exp_summary (u ∷ us) s5 v5 in
      rw (e, n)
        (unfold Session.set_expiration_condition in (v6, ap (λ q. q.its_q) (q6 ∙ q5 ∙ q4) ∙ q3))

  pub configure-IsFresh :
      (u : Ptr) (us : List Ptr) (params : Params C) (fresh : Fresh)
      → IsSimple u us params
      → ControlBlock.cancellation_requested fresh.block ≡ false
      → fresh.block.flushed ≡ false
      → IsFresh (u ∷ us) (configure params fresh) × ((configure params fresh).queue_zero.its_q ≡ [])
  unfolding all_set
  configure-IsFresh u us params fresh v a f =
      rw (configure_lem params fresh, v.no_summary, v.deletes, set_summary-null)
        (all_set_lem u us params fresh v.works v.no_condition a f)
