-- ===== src/Tests/Views.antt =====
-- CPPAFKThreadpool.cpp, at the pool of Pools with the new session of Deliveries.
use asyncflow_cpp.Common.{◌≡◌, refl, Bool, true, false, List, [], ◌∷◌, arith, some, none}
use asyncflow_cpp.ControlBlock
use asyncflow_cpp.Session
use asyncflow_cpp.Pool.Views.{view}
use asyncflow_cpp.Pool.Specification.{
  Op, creates, pauses, resumes, cancels, pauses_all, posts, run, spec, IsSound,
}
use asyncflow_cpp.Pool.Refinement.{run-view}
use asyncflow_cpp.Tests.Pools.{pool}
use asyncflow_cpp.Tests.Deliveries.{params, fresh}

abbrev calls : List (Op Bool)
calls = creates params fresh ∷ posts 9 10 ∷ pauses_all ∷ resumes 9 ∷ cancels 1 ∷ pauses 1 ∷ []

pub pool-IsSound : IsSound pool
pool-IsSound = record {
  distinct = (((λ e. ground (arith, e)), tt), (tt, tt));
  keyed = (refl, (refl, tt));
}

-- Session 1 is gone, so that it cannot be paused; 2 is paused, and 9 goes on.
seen :
    ((spec calls (view pool)).0 1 ≡ none)
    × ((spec calls (view pool)).0 2 ≡ some (record { paused = true; asked = false }))
    × ((spec calls (view pool)).0 9 ≡ some (record { paused = false; asked = false }))
    × ((spec calls (view pool)).1 ≡ none ∷ none ∷ none ∷ some true ∷ some true ∷ some false ∷ [])
unfolding ControlBlock.get_session_id ControlBlock.cancellation_requested
    Session.cancellation_requested
seen = (refl, refl, refl, refl)

run-view_example :
    (view (run calls pool).0 ≡ (spec calls (view pool)).0)
    × ((run calls pool).1 ≡ (spec calls (view pool)).1)
run-view_example =
    run-view calls pool
      (
        ((λ e. ground (arith, e)), ((λ e. ground (arith, e)), ((λ e. ground (arith, e)), tt))),
        (tt, (tt, (tt, (tt, (tt, tt))))),
      )
      pool-IsSound
