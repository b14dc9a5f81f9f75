-- ===== src/Tests/Breaks.antt =====
-- CPPAFKComposingSession.cpp, `select`, at the session of Turns: a routine that asks for cancellation, and
-- an expiration.
use asyncflow_cpp.Common.{
  ◌+◌, ◌==◌, ◌≡◌, ◌⊎◌, refl, Bool, true, false, [], ◌∷◌, if◌then◌else◌, arith, ptr_item, some, done,
  terminated,
}
use asyncflow_cpp.Batching.Wf.{items}
use asyncflow_cpp.ControlBlock
use asyncflow_cpp.Session.{Session}
use asyncflow_cpp.Composing.Turn.{UserCode, Turn}
use asyncflow_cpp.Composing.Flushing.{IsFlushable}
use asyncflow_cpp.Composing.Select.{select, was_cancelled}
use asyncflow_cpp.Composing.Serving.{IsAtWork}
use asyncflow_cpp.Composing.Midway.{IsDrainable, Breaks, select_asked}
use asyncflow_cpp.Composing.Expiring.{Expires, select_expired}
use asyncflow_cpp.Tests.Sessions.{garbage}
use asyncflow_cpp.Tests.Mixed.{hybrid, hybrid-IsOrdered}
use asyncflow_cpp.Tests.Turns.{add_unit, code, at_work, turn, calm}

-- The unit at 3 asks to stop.
abbrev stopping : UserCode Bool
stopping = record code {
  run_l = λ u. some (λ x cblk. (if u == 3 then ControlBlock.stop cblk else cblk, x + u));
}

abbrev interruptible : Session Bool
interruptible = record at_work {
  routines_hnds = record (at_work.routines_hnds) { primary = 1 ∷ 3 ∷ 2 ∷ [] };
}

interruptible-IsAtWork : IsAtWork 5 (1 ∷ 3 ∷ 2 ∷ []) interruptible hybrid
interruptible-IsAtWork = record {
  one_queue = refl;
  ordered = hybrid-IsOrdered;
  not_asked = calm;
  not_flushed = refl;
  settled = refl;
  in_use = refl;
  lambdas = refl;
  deletes = refl;
  summary_settled = refl;
  summing = refl;
  no_condition = refl;
}

interruptible-IsDrainable : IsDrainable interruptible (20 ∷ [])
interruptible-IsDrainable = record {
  real = ground arith;
  paired = refl;
  zero_free = refl;
  zero_nil = refl;
}

select_asked_example :
    (w : Turn Bool) × (select stopping garbage 0 1 (turn interruptible) ≡ done (w, was_cancelled))
    × Breaks stopping add_unit (1 ∷ 3 ∷ []) 10 (20 ∷ []) (turn interruptible) w
select_asked_example =
    select_asked stopping add_unit garbage 0 0 (1 ∷ []) (2 ∷ []) 3 (turn interruptible) hybrid 10
      (20 ∷ []) (omega arith) (refl, tt) refl interruptible-IsAtWork refl refl
      interruptible-IsDrainable refl refl

abbrev over : Session Bool
over = record at_work { excond = some true; internal_cancellation = 80; expiration_summary = 81 }

over-IsFlushable : IsFlushable 5 over hybrid
over-IsFlushable = record {
  one_queue = refl;
  ordered = hybrid-IsOrdered;
  free = refl;
  data_items = ground arith;
  paired = refl;
  zero_free = refl;
  zero_items = tt;
}

select_expired_example :
    (ptr_item.truthy over.internal_cancellation ≡ false)
      × (select code garbage 0 1 (turn over) ≡ terminated)
    ⊎ (ptr_item.truthy over.internal_cancellation ≡ true)
      × ((w : Turn Bool) × (select code garbage 0 1 (turn over) ≡ done (w, was_cancelled))
          × Expires (items hybrid.reg_q) (turn over) w)
select_expired_example =
    select_expired code garbage 0 1 true (turn over) hybrid (omega arith) over-IsFlushable refl refl
      refl calm refl refl refl
