-- ===== src/Pool/Calling.antt =====
-- CPPAFKThreadpool.cpp: a session that someone asked to cancel, and the calls of callers.
use asyncflow_cpp.Common.{
  ℕ, ◌≡◌, ◌==◌, refl, ap, ◌∙◌, sym, Bool, true, false, List, [], ◌∷◌, arith, Ptr, Option, none,
  some, Bool-cases, inl, inr,
}
use native.Mathlib.Decide.{ℕ_discrete}
use asyncflow_cpp.Registry.{find}
use asyncflow_cpp.ControlBlock
use asyncflow_cpp.Hybrid.{Hybrid}
use asyncflow_cpp.Session
use asyncflow_cpp.Session.{Session}
use asyncflow_cpp.Composing
use asyncflow_cpp.Pool.{Pool, write}
use asyncflow_cpp.Pool.Store.{write_self, write_other}
use asyncflow_cpp.Pool.Sessions.{in_session, post_data, cast_object_for_session}
use asyncflow_cpp.Pool.Control.{pause_session, resume_session, cancel_session, pause_at, resume_at}
use asyncflow_cpp.Pool.Turns.{IsRunning}
use asyncflow_cpp.Pool.Keeping.{post_data-IsKeeping}
use asyncflow_cpp.Pool.Worker.{Calls, pauses, resumes, cancels, casts}

module _ {C : Type 0} where
  -- Someone asked to cancel the session, and it is not marked for the collector.
  pub record IsLost (a : Ptr) (p : Pool C) : Type 0 where
    pub asked : Session.cancellation_requested (p.store a) ≡ true
    pub unmarked : Session.is_cancelled (p.store a) ≡ false
    pub running : IsRunning p

  pub IsLost-store :
      (a : Ptr) (p q : Pool C) → IsLost a p → q.store a ≡ p.store a → IsRunning q → IsLost a q
  IsLost-store a p q v e r = record {
    asked = ap Session.cancellation_requested e ∙ v.asked;
    unmarked = ap (λ s. s.cancelled) e ∙ v.unmarked;
    running = r;
  }

  -- What a call may do to a session that is lost.
  abbrev KeepsLost : Session C → Session C → Type 0
  KeepsLost s r =
      Session.cancellation_requested s ≡ true
      → (Session.cancellation_requested r ≡ true)
        × (Session.is_cancelled r ≡ Session.is_cancelled s)

  pause-KeepsLost : (s : Session C) → KeepsLost s (Session.pause s)
  unfolding Session.pause Session.cancellation_requested ControlBlock.set_paused
      ControlBlock.cancellation_requested
  pause-KeepsLost s h = (ground (arith, h), ground arith)

  resume-KeepsLost : (s : Session C) → KeepsLost s (Session.resume s)
  unfolding Session.resume Session.cancellation_requested ControlBlock.set_paused
      ControlBlock.cancellation_requested
  resume-KeepsLost s h = (ground (arith, h), ground arith)

  cancel-KeepsLost : (s : Session C) → KeepsLost s (Composing.cancel s)
  unfolding Composing.cancel Session.cancellation_requested ControlBlock.cancel
      ControlBlock.cancellation_requested
  cancel-KeepsLost s h = (ground (arith, h), ground arith)

  post_data-KeepsLost : (x : Ptr) (s : Session C) → KeepsLost s (Composing.post_data x s).0
  unfolding Composing.post_data
  post_data-KeepsLost x s h =
      (ap (λ f. f.asked) (post_data-IsKeeping x s) ∙ h, go s.data_queues refl)
    where
      go :
          (hs : List Hybrid)
          → s.data_queues ≡ hs
          → Session.is_cancelled (Composing.post_data x s).0 ≡ Session.is_cancelled s
      go [] e = ground (arith, e)
      go (k ∷ ks) e = ground (arith, e)

  written-IsLost :
      (a b : Ptr) (r : Session C) (p q : Pool C)
      → IsLost a p
      → KeepsLost (p.store b) r
      → q.store ≡ write b r p.store
      → IsRunning q
      → IsLost a q
  written-IsLost a b r p q lost keeps store running = elim (ℕ_discrete b a) [
    | yes same ↦
        let (asked, mark) =
          keeps (ap (λ c. Session.cancellation_requested (p.store c)) same ∙ lost.asked) in
        let now : q.store a ≡ r =
          ap (λ f. f a) store ∙ ap (write b r p.store) (sym same) ∙ write_self b r p.store in
        record {
          asked = ap Session.cancellation_requested now ∙ asked;
          unmarked =
              ap Session.is_cancelled now
              ∙ mark
              ∙ ap (λ c. Session.is_cancelled (p.store c)) same
              ∙ lost.unmarked;
          running = running;
        }
    | no other ↦
        IsLost-store a p q lost
          (ap (λ f. f a) store ∙ write_other b a r p.store (λ e. other (sym e))) running
  ]

  pause_session-IsLost :
      (a : Ptr) (id : ℕ) (p : Pool C) → IsLost a p → IsLost a (pause_session id p).0
  unfolding pause_session pause_at
  pause_session-IsLost a id p lost = go (find id p.all_sessions) refl
    where
      go : (o : Option Ptr) → find id p.all_sessions ≡ o → IsLost a (pause_session id p).0
      go none e = rw (e, pause_session) lost
      go (some b) e =
          rw (e, pause_session)
            (written-IsLost a b (Session.pause (p.store b)) p _ lost (pause-KeepsLost (p.store b))
              refl (record { some_cpu = lost.running.some_cpu; agree = lost.running.agree }))

  resume_session-IsLost :
      (a : Ptr) (id : ℕ) (p : Pool C) → IsLost a p → IsLost a (resume_session id p).0
  unfolding resume_session resume_at
  resume_session-IsLost a id p lost = go (find id p.all_sessions) refl
    where
      go : (o : Option Ptr) → find id p.all_sessions ≡ o → IsLost a (resume_session id p).0
      go none e = rw (e, resume_session) lost
      go (some b) e =
          rw (e, resume_session)
            (written-IsLost a b (Session.resume (p.store b)) p _ lost (resume-KeepsLost (p.store b))
              refl (record { some_cpu = lost.running.some_cpu; agree = lost.running.agree }))

  cancel_session-IsLost :
      (a : Ptr) (id : ℕ) (p : Pool C) → IsLost a p → IsLost a (cancel_session id p).0
  unfolding cancel_session
  cancel_session-IsLost a id p lost = go (find id p.all_sessions) refl
    where
      go : (o : Option Ptr) → find id p.all_sessions ≡ o → IsLost a (cancel_session id p).0
      go none e = rw (e, cancel_session) lost
      go (some b) e =
          rw (e, cancel_session)
            (written-IsLost a b (Composing.cancel (p.store b)) p _ lost
              (cancel-KeepsLost (p.store b)) refl
              (record { some_cpu = lost.running.some_cpu; agree = lost.running.agree }))

  in_session-IsLost :
      (a : Ptr) (id : ℕ) (f : Session C → Session C × Bool) (p : Pool C)
      → ((s : Session C) → KeepsLost s (f s).0)
      → IsLost a p
      → IsLost a (in_session id f p).0
  unfolding in_session
  in_session-IsLost a id f p keeps lost = go (find id p.all_sessions) refl
    where
      go : (o : Option Ptr) → find id p.all_sessions ≡ o → IsLost a (in_session id f p).0
      go none e = rw (e, in_session) lost
      go (some b) e =
          rw (e, in_session)
            (written-IsLost a b (f (p.store b)).0 p _ lost (keeps (p.store b)) refl
              (record { some_cpu = lost.running.some_cpu; agree = lost.running.agree }))

  cast-IsLost :
      (a : Ptr) (id : ℕ) (x : Ptr) (p : Pool C)
      → IsLost a p
      → IsLost a (cast_object_for_session id x p).0
  unfolding cast_object_for_session post_data
  cast-IsLost a id x p lost = elim (Bool-cases (id == 0)) [
    | inl zero_id ↦ rw (zero_id, cast_object_for_session) lost
    | inr real ↦
        rw (real, cast_object_for_session)
          (in_session-IsLost a id (Composing.post_data x) p (post_data-KeepsLost x) lost)
  ]

  pub Calls-IsLost : (a : Ptr) (p q : Pool C) → IsLost a p → Calls p q → IsLost a q
  Calls-IsLost a p _ lost (pauses id) = pause_session-IsLost a id p lost
  Calls-IsLost a p _ lost (resumes id) = resume_session-IsLost a id p lost
  Calls-IsLost a p _ lost (cancels id) = cancel_session-IsLost a id p lost
  Calls-IsLost a p _ lost (casts id x) = cast-IsLost a id x p lost
