-- ===== src/Pool/Specification.antt =====
-- CPPAFKThreadpool.cpp: what the methods of the pool do to what a caller sees of its sessions.
use mathlib.Core.Option
use asyncflow_cpp.Common.{
  ℕ, ◌≢◌, ◌==◌, Bool, true, false, List, [], ◌∷◌, if◌then◌else◌, Ptr, null, Option, none, some,
}
use asyncflow_cpp.ControlBlock
use asyncflow_cpp.Pool.{Pool}
use asyncflow_cpp.Pool.Store.{IsNew, IsDistinct}
use asyncflow_cpp.Pool.Sessions.{
  Params, Fresh, create_composing_session, post_data, post_data_as_vector, set_routines_in_session,
  set_progress_routine_in_session,
}
use asyncflow_cpp.Pool.Control.{
  pause_session, resume_session, cancel_session, pause_all, resume_all,
}
use asyncflow_cpp.Pool.Views.{Flags, View, change, IsKeyed}

pub data Op (C : Type 0) : Type 0 where
  creates : Params C → Fresh → Op C
  pauses resumes cancels : ℕ → Op C
  pauses_all resumes_all : Op C
  posts : ℕ → Ptr → Op C
  posts_vector sets_routines : ℕ → List Ptr → Op C
  sets_progress : ℕ → Ptr → Op C

abbrev pub is_some {ℓ} : {A : Type ℓ} → Option A → Bool
is_some none = false
is_some (some _) = true

abbrev pub set_paused : Bool → Flags → Flags
set_paused b f = record f { paused = b }

module _ {C : Type 0} where
  -- A method, with its answer where it says whether the session was found.
  unfoldable pub step : Op C → Pool C → Pool C × Option Bool
  unfolding create_composing_session pause_session resume_session cancel_session pause_all
      resume_all post_data post_data_as_vector set_routines_in_session
      set_progress_routine_in_session
  step (creates params fresh) p = ((create_composing_session (some params) fresh p).0, none)
  step (pauses id) p = let (q, ok) = pause_session id p in (q, some ok)
  step (resumes id) p = let (q, ok) = resume_session id p in (q, some ok)
  step (cancels id) p = let (q, ok) = cancel_session id p in (q, some ok)
  step pauses_all p = ((pause_all p).0, none)
  step resumes_all p = ((resume_all p).0, none)
  step (posts id x) p = ((post_data x id p).0, none)
  step (posts_vector id xs) p = ((post_data_as_vector xs id p).0, none)
  step (sets_routines id rs) p = ((set_routines_in_session id rs p).0, none)
  step (sets_progress id r) p = ((set_progress_routine_in_session id r p).0, none)

  unfoldable pub run : List (Op C) → Pool C → Pool C × List (Option Bool)
  run [] p = (p, [])
  run (o ∷ os) p =
      let (q, answer) = step o p in let (r, answers) = run os q in (r, answer ∷ answers)

  -- The same by identifiers and flags alone.
  abbrev pub spec_step : Op C → View → View × Option Bool
  spec_step (creates params fresh) w =
      let id = ControlBlock.get_session_id fresh.block in
      let asked = ControlBlock.cancellation_requested fresh.block in
      (
        λ k.
            if id == k
            then (if is_some (w k) then w k else some (record { paused = false; asked = asked }))
            else w k,
        none,
      )
  spec_step (pauses id) w = (change id (set_paused true) w, some (is_some (w id)))
  spec_step (resumes id) w = (change id (set_paused false) w, some (is_some (w id)))
  spec_step (cancels id) w = (λ k. if id == k then none else w k, some (is_some (w id)))
  spec_step pauses_all w = (λ k. Option.map (set_paused true) (w k), none)
  spec_step resumes_all w = (λ k. Option.map (set_paused false) (w k), none)
  spec_step _ w = (w, none)

  abbrev pub spec : List (Op C) → View → View × List (Option Bool)
  spec [] w = (w, [])
  spec (o ∷ os) w =
      let (v, answer) = spec_step o w in let (u, answers) = spec os v in (u, answer ∷ answers)

  -- A session that is created stands where no other one does.
  abbrev pub IsApart : Op C → Pool C → Type 0
  IsApart (creates params fresh) p = (fresh.address ≢ null) × IsNew fresh.address p.all_sessions
  IsApart _ p = Unit

  abbrev pub AreApart : List (Op C) → Pool C → Type 0
  AreApart [] p = Unit
  AreApart (o ∷ os) p = IsApart o p × AreApart os (step o p).0

  pub record IsSound (p : Pool C) : Type 0 where
    pub distinct : IsDistinct p.all_sessions
    pub keyed : IsKeyed p.all_sessions
