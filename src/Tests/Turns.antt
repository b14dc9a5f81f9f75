-- ===== src/Tests/Turns.antt =====
-- CPPAFKComposingSession.cpp, `select` and `_flush`, at a session with two items.
use asyncflow_cpp.Common.{
  ◌+◌, ◌≡◌, refl, Bool, true, false, [], ◌∷◌, ◌++◌, if◌then◌else◌, arith, Ptr, some, done,
}
use asyncflow_cpp.Batching.Wf.{items}
use asyncflow_cpp.ControlBlock
use asyncflow_cpp.Hybrid.{Hybrid}
use asyncflow_cpp.Session.{Session, lambda_only}
use asyncflow_cpp.Composing
use asyncflow_cpp.Composing.{Flushed}
use asyncflow_cpp.Composing.Turn.{UserCode, Turn, run_units}
use asyncflow_cpp.Composing.Pipeline.{
  Runs, composed, replaced, last_alone, run_units-composed, run_units_last,
}
use asyncflow_cpp.Composing.Flushing.{IsFlushable, flush_lem}
use asyncflow_cpp.Composing.Select.{select, was_cancelled}
use asyncflow_cpp.Composing.Serving.{IsAtWork, IsServing}
use asyncflow_cpp.Composing.Summaries.{summed}
use asyncflow_cpp.Composing.Turns.{
  Finishes, FinishesWith, all_made_with, select_lem, select_with_summary,
}
use asyncflow_cpp.Composing.Cancelling.{called_for, select_cancelled}
use asyncflow_cpp.Tests.Sessions.{session, garbage}
use asyncflow_cpp.Tests.Mixed.{hybrid, hybrid-IsOrdered}

-- The unit at `u` adds `u`.
abbrev pub add_unit : Ptr → Ptr → Ptr
add_unit u x = x + u

abbrev pub code : UserCode Bool
code = record {
  run_l = λ u. some (λ x cblk. (cblk, x + u));
  run_m = λ u. some (λ x cblk. (cblk, x));
  summary = λ u x cblk. (cblk, x);
  set_sample = λ n c. c;
  all_conditions_met = λ c. c;
  some_conditions_met = λ c. c;
}

pub code-Runs : Runs code add_unit
code-Runs u = refl

pub calm : ControlBlock.cancellation_requested session.cblk ≡ false
unfolding ControlBlock.cancellation_requested
calm = refl

run_units-composed_example :
    run_units code lambda_only true
      (1 ∷ 2 ∷ [])
      (record { cblk = session.cblk; r0 = 10; result = 10; collected = [] })
    ≡ done (
      record {
        cblk = session.cblk;
        r0 = composed add_unit (1 ∷ 2 ∷ []) 10;
        result = composed add_unit (1 ∷ 2 ∷ []) 10;
        collected = replaced add_unit (1 ∷ 2 ∷ []) 10;
      },
      false,
    )
run_units-composed_example =
    run_units-composed code add_unit (1 ∷ 2 ∷ []) session.cblk 10 code-Runs calm

run_units_last_example :
    run_units code lambda_only false
      (1 ∷ 2 ∷ [])
      (record { cblk = session.cblk; r0 = 10; result = 10; collected = [] })
    ≡ done (
      record {
        cblk = session.cblk;
        r0 = 10;
        result = last_alone add_unit (1 ∷ 2 ∷ []) 10 10;
        collected = [];
      },
      false,
    )
run_units_last_example = run_units_last code add_unit (1 ∷ 2 ∷ []) session.cblk 10 code-Runs calm

abbrev pub at_work : Session Bool
at_work = record session {
  data_queues = hybrid ∷ [];
  autodelete = true;
  queue_zero = record (session.queue_zero) {
    queue = record (session.queue_zero.queue) { its_q = [] };
    deq_indexes = [];
  };
}

abbrev pub turn : Session Bool → Turn Bool
turn s = record { state = s; user_data = []; wrappers = []; calls = [] }

at_work-IsAtWork : IsAtWork 5 (900 ∷ []) at_work hybrid
at_work-IsAtWork = record {
  one_queue = refl;
  ordered = hybrid-IsOrdered;
  not_asked = calm;
  not_flushed = refl;
  settled = refl;
  in_use = refl;
  lambdas = refl;
  deletes = refl;
  summary_settled = refl;
  summing = refl;
  no_condition = refl;
}

select_lem_example :
    Finishes code add_unit
      (900 ∷ [])
      (items hybrid.reg_q)
      (turn at_work)
      (select code garbage 0 3 (turn at_work))
select_lem_example =
    select_lem code add_unit garbage 0 3 (900 ∷ []) (turn at_work) hybrid (omega arith) code-Runs
      at_work-IsAtWork refl refl refl refl (omega arith)

-- The summary at `u` adds `u`; the session has the one at 70.
abbrev summing : UserCode Bool
summing = record code { summary = λ u x cblk. (cblk, x + u) }

abbrev with_summary : Session Bool
with_summary = record at_work {
  sum_hnds = record (at_work.sum_hnds) { primary = 70; secondary = 70 };
}

with_summary-IsServing : IsServing 70 5 (900 ∷ []) with_summary hybrid
with_summary-IsServing = record {
  one_queue = refl;
  ordered = hybrid-IsOrdered;
  not_asked = calm;
  not_flushed = refl;
  settled = refl;
  in_use = refl;
  lambdas = refl;
  deletes = refl;
  summary_settled = refl;
  summing = refl;
  no_condition = refl;
}

select_with_summary_example :
    FinishesWith summing add_unit
      (summed (λ x. x + 70))
      (900 ∷ [])
      (items hybrid.reg_q)
      (turn with_summary)
      (select summing garbage 0 3 (turn with_summary))
select_with_summary_example =
    select_with_summary summing add_unit garbage 0 3 70 (λ x. x + 70) (900 ∷ []) (turn with_summary)
      hybrid (omega arith) code-Runs (λ e. ground (arith, e)) refl with_summary-IsServing refl refl
      refl refl (omega arith)

-- What goes to the collector for 10 and 20.
summed_up :
    all_made_with summing add_unit (summed (λ x. x + 70)) (900 ∷ []) (10 ∷ 20 ∷ [])
    ≡ 10 ∷ 910 ∷ 980 ∷ 20 ∷ 920 ∷ 990 ∷ []
summed_up = refl

abbrev full : Session Bool
full = record at_work { queue_zero = session.queue_zero }

full-IsFlushable : IsFlushable 5 full hybrid
full-IsFlushable = record {
  one_queue = refl;
  ordered = hybrid-IsOrdered;
  free = refl;
  data_items = ground arith;
  paired = refl;
  zero_free = refl;
  zero_items = ground arith;
}

flush_lem_example :
    (f : Flushed Bool) × (h' : Hybrid) × (Composing.flush full ≡ done f)
    × (f.user_data
        ≡ (if full.autodelete then full.queue_zero.its_q ++ (items hybrid.reg_q ++ []) else []))
    × (f.wrappers ≡ [])
    × (f.state.queue_zero.its_q ≡ [])
    × (f.state.data_queues ≡ h' ∷ [])
    × (items h'.reg_q ≡ [])
    × (f.state.cblk ≡ ControlBlock.set_flush_requested false full.cblk)
flush_lem_example = flush_lem full hybrid (omega arith) full-IsFlushable

abbrev ending : Session Bool
ending = record at_work {
  cblk = record (session.cblk) { abort_by_caller = true };
  cancel_hnds = record { primary = 800; secondary = 0; index_r = 1; index_w = 0; reload = true };
}

asked : ControlBlock.cancellation_requested ending.cblk ≡ true
unfolding ControlBlock.cancellation_requested
asked = refl

ending-IsFlushable : IsFlushable 5 ending hybrid
ending-IsFlushable = record {
  one_queue = refl;
  ordered = hybrid-IsOrdered;
  free = refl;
  data_items = ground arith;
  paired = refl;
  zero_free = refl;
  zero_items = tt;
}

select_cancelled_example :
    (u : Turn Bool) × (h' : Hybrid) × (select code garbage 0 3 (turn ending)
      ≡ done (u, was_cancelled))
    × (u.state.cancelled ≡ true)
    × (u.user_data
        ≡ []
          ++ (if ending.autodelete
              then ending.queue_zero.its_q ++ (items hybrid.reg_q ++ [])
              else []))
    × (u.state.data_queues ≡ h' ∷ [])
    × (items h'.reg_q ≡ [])
    × (u.calls ≡ [] ++ called_for ending)
select_cancelled_example =
    select_cancelled code garbage 0 3 (turn ending) hybrid (omega arith) ending-IsFlushable asked
      refl refl refl
