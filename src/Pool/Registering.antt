-- ===== src/Pool/Registering.antt =====
-- CPPAFKThreadpool.cpp, createComposingSession: what it does to what is seen.
use native.Mathlib.Decide.{ℕ_discrete}
use mathlib.Core.Path.{fun_ext}
use asyncflow_cpp.Common.{
  ℕ, ◌≡◌, ◌≢◌, ◌==◌, refl, ap, sym, ◌∙◌, Bool, false, arith, if◌then◌else◌, Ptr, null, Option, none,
  some,
}
use asyncflow_cpp.Registry.{find}
use asyncflow_cpp.ControlBlock
use asyncflow_cpp.Session.{Session}
use asyncflow_cpp.Composing
use asyncflow_cpp.Composing.{Flushed, QueueGarbage}
use asyncflow_cpp.Pool.{Pool, write}
use asyncflow_cpp.Pool.Store.{IsNew, write_self}
use asyncflow_cpp.Pool.Creation.{add_session_new}
use asyncflow_cpp.Pool.Sessions.{Params, Fresh, create_composing_session, configure, add_session}
use asyncflow_cpp.Pool.Views.{
  Flags, flags, view, view-new, view-insert, insert-IsKeyed, insert-IsDistinct,
}
use asyncflow_cpp.Pool.Keeping.{configure-flags}
use asyncflow_cpp.Pool.Specification.{Op, spec_step, IsSound}

module _ {C : Type 0} where
  pub create_seen :
      (params : Params C) (fresh : Fresh) (p : Pool C)
      → fresh.address ≢ null
      → IsNew fresh.address p.all_sessions
      → IsSound p
      → let q = (create_composing_session (some params) fresh p).0 in
        IsSound q × (view q ≡ (spec_step (Op.creates params fresh) (view p)).0)
  unfolding create_composing_session add_session
  create_seen params fresh p n new v = go (find id p.all_sessions) refl
    where
      id : ℕ
      id = ControlBlock.get_session_id fresh.block

      s : Session C
      s = configure params fresh

      g : QueueGarbage
      g = fresh.queue_garbage

      m : Pool C
      m = record p { store = write fresh.address s p.store }

      asked : Bool
      asked = ControlBlock.cancellation_requested fresh.block

      begins : Flags
      begins = record { paused = false; asked = asked }

      stays :
          (other : Ptr) (k : ℕ)
          → find id p.all_sessions ≡ some other
          → view p k ≡ (spec_step (Op.creates params fresh) (view p)).0 k
      stays other k e = elim (ℕ_discrete id k) [
        | yes same ↦
            let at : find k p.all_sessions ≡ some other =
              ap (λ j. find j p.all_sessions) (sym same) ∙ e in
            rw at (ground (arith, same))
        | no away ↦ ground (arith, away)
      ]

      comes :
          (k : ℕ)
          → find id p.all_sessions ≡ none
          → (if id == k then some begins else view p k)
            ≡ (spec_step (Op.creates params fresh) (view p)).0 k
      comes k e = elim (ℕ_discrete id k) [
        | yes same ↦
            let at : find k p.all_sessions ≡ none =
              ap (λ j. find j p.all_sessions) (sym same) ∙ e in
            rw at (ground (arith, same))
        | no away ↦ ground (arith, away)
      ]

      now :
          flags (Composing.deploy g (m.store fresh.address))
          ≡ record { paused = false; asked = asked }
      now =
          ap (λ r. flags (Composing.deploy g r)) (write_self fresh.address s p.store)
          ∙ configure-flags params fresh

      go :
          (o : Option Ptr)
          → find id p.all_sessions ≡ o
          → let q = (create_composing_session (some params) fresh p).0 in
            IsSound q × (view q ≡ (spec_step (Op.creates params fresh) (view p)).0)
      go (some other) e = rw (e, add_session) (v, fun_ext λ k. stays other k e)
      go none e = rw (add_session_new g fresh.address id m n e) (
        record {
          distinct = insert-IsDistinct id fresh.address p.all_sessions new v.distinct;
          keyed = insert-IsKeyed id fresh.address p.all_sessions v.keyed;
        },
        view-insert id fresh.address (Composing.deploy g (m.store fresh.address)) m.store
              p.all_sessions new
            ∙ ap (λ f k. if id == k then some f else view m k) now
            ∙ ap (λ w k. if id == k then some begins else w k)
                (view-new fresh.address s p.store p.all_sessions new)
            ∙ (fun_ext λ k. comes k e),
      )
