-- ===== src/Pool/Refinement.antt =====
-- CPPAFKThreadpool.cpp: the methods of the pool do what their specification says.
use asyncflow_cpp.Common.{
  ℕ, ◌≡◌, refl, ap, ◌∙◌, Bool, true, false, List, [], ◌∷◌, Option, none, some,
}
use asyncflow_cpp.Session
use asyncflow_cpp.Session.{Session}
use asyncflow_cpp.Composing
use asyncflow_cpp.Composing.{Flushed, QueueGarbage}
use asyncflow_cpp.Pool.{Pool}
use asyncflow_cpp.Pool.Sessions.{
  in_session, create_composing_session, post_data, post_data_as_vector, set_routines_in_session,
  set_progress_routine_in_session,
}
use asyncflow_cpp.Pool.Control.{
  pause_session, resume_session, cancel_session, pause_all, resume_all, pause_at, resume_at, each,
}
use asyncflow_cpp.Pool.Views.{View, view}
use asyncflow_cpp.Pool.Keeping.{
  post_data-IsKeeping, post_data_as_vector-IsKeeping, set_routines-IsKeeping,
  set_progress_routine-IsKeeping,
}
use asyncflow_cpp.Pool.Everyone.{pause_at-Changes, resume_at-Changes}
use asyncflow_cpp.Pool.Specification.{
  Op, creates, pauses, resumes, cancels, pauses_all, resumes_all, posts, posts_vector,
  sets_routines, sets_progress, is_some, step, run, spec_step, spec, IsApart, AreApart, IsSound,
}
use asyncflow_cpp.Pool.Effects.{
  Does, pause_session-Does, resume_session-Does, cancel_session-Does, in_session_seen, each_seen,
}
use asyncflow_cpp.Pool.Registering.{create_seen}

module _ {C : Type 0} where
  pub record Agrees (q : Pool C) (answer : Option Bool) (w : View × Option Bool) : Type 0 where
    pub sound : IsSound q
    pub seen : view q ≡ w.0
    pub answered : answer ≡ w.1

  Does-Agrees :
      {w : View} (id : ℕ) (r : Pool C × Bool) (p : Pool C)
      → Does r id p w
      → Agrees r.0 (some r.1) (w, some (is_some (view p id)))
  Does-Agrees id r p (sound, seen, answered) = record {
    sound = sound;
    seen = seen;
    answered = ap some answered;
  }

  unanswered : {w : View} (q : Pool C) → IsSound q × (view q ≡ w) → Agrees q none (w, none)
  unanswered q (sound, seen) = record { sound = sound; seen = seen; answered = refl }

  step-Agrees :
      (o : Op C) (p : Pool C)
      → IsApart o p
      → IsSound p
      → Agrees (step o p).0 (step o p).1 (spec_step o (view p))
  unfolding step pause_all resume_all post_data post_data_as_vector set_routines_in_session
      set_progress_routine_in_session
  step-Agrees (creates params fresh) p a v =
      unanswered (create_composing_session (some params) fresh p).0
        (create_seen params fresh p a.0 a.1 v)
  step-Agrees (pauses id) p a v = Does-Agrees id (pause_session id p) p (pause_session-Does id p v)
  step-Agrees (resumes id) p a v =
      Does-Agrees id (resume_session id p) p (resume_session-Does id p v)
  step-Agrees (cancels id) p a v =
      Does-Agrees id (cancel_session id p) p (cancel_session-Does id p v)
  step-Agrees pauses_all p a v =
      unanswered (each pause_at p.all_sessions p) (each_seen pause_at true p pause_at-Changes v)
  step-Agrees resumes_all p a v =
      unanswered (each resume_at p.all_sessions p) (each_seen resume_at false p resume_at-Changes v)
  step-Agrees (posts id x) p a v =
      unanswered (in_session id (Composing.post_data x) p).0
        (in_session_seen id (Composing.post_data x) p (post_data-IsKeeping x) v)
  step-Agrees (posts_vector id xs) p a v =
      unanswered (in_session id (Composing.post_data_as_vector xs) p).0 (
        in_session_seen id (Composing.post_data_as_vector xs) p (post_data_as_vector-IsKeeping xs)
          v)
  step-Agrees (sets_routines id rs) p a v =
      unanswered (in_session id (Composing.set_routines rs) p).0
        (in_session_seen id (Composing.set_routines rs) p (set_routines-IsKeeping rs) v)
  step-Agrees (sets_progress id r) p a v =
      unanswered (in_session id (Session.set_progress_routine r) p).0
        (in_session_seen id (Session.set_progress_routine r) p (set_progress_routine-IsKeeping r) v)

  -- Any sequence of calls that create, pause, resume and cancel sessions, one or all of them, post
  -- items and set routines, in any order, does to what a caller sees (the identifiers that are
  -- registered, and for each whether it is paused and whether it is asked to stop) just what the
  -- specification says by identifiers alone, and pausing, resuming and cancelling one session are
  -- answered by whether it is registered. It holds from a pool in which no identifier and no session
  -- object is registered twice, where new sessions are new objects.
  pub run-view :
      (os : List (Op C)) (p : Pool C)
      → AreApart os p
      → IsSound p
      → (view (run os p).0 ≡ (spec os (view p)).0) × ((run os p).1 ≡ (spec os (view p)).1)
  unfolding run
  run-view [] p a v = (refl, refl)
  run-view (o ∷ os) p a v =
      let now = step-Agrees o p a.0 v in
      let (rest, answers) = run-view os (step o p).0 a.1 now.sound in
      (
        rest ∙ ap (λ w. (spec os w).0) now.seen,
        ap (λ x. x ∷ (run os (step o p).0).1) now.answered
            ∙ ap (λ xs. (spec_step o (view p)).1 ∷ xs) (answers ∙ ap (λ w. (spec os w).1) now.seen),
      )
