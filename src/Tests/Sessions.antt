-- ===== src/Tests/Sessions.antt =====
-- CPPAFKThreadpoolSession.cpp and CPPAFKComposingSession.cpp at concrete states.
use asyncflow_cpp.Common.{◌≡◌, Bool, false, List, [], ◌∷◌, Ptr, null, none, int64_max}
use asyncflow_cpp.ThreadpoolQueue.{minus_one}
use asyncflow_cpp.Hybrid.{reg, no_block}
use asyncflow_cpp.Session.{Session, new_hot, lambda_only}
use asyncflow_cpp.Session.Handlers
use asyncflow_cpp.Session.Handlers.{Op, view, spec, run-new-view}
use asyncflow_cpp.Composing.{QueueGarbage}

abbrev ops : List (Op Ptr)
ops = Op.stores 10 ∷ Op.switches ∷ Op.stores 20 ∷ Op.stores 30 ∷ Op.switches ∷ Op.switches ∷ []

run-new-view_example :
    view (Handlers.run ops (new_hot null)) ≡ spec ops (record { current = null; pending = none })
run-new-view_example = run-new-view null ops

-- A session that has its routines in use, and no data queue yet. No condition is set, so that any
-- type of conditions will do.
abbrev pub session : Session Bool
session = record {
  pq = [];
  busy_count = 0;
  cancel_hnds = record {
    primary = null;
    secondary = null;
    index_r = 1;
    index_w = 0;
    reload = false;
  };
  routines_hnds = record {
    primary = 900 ∷ [];
    secondary = [];
    index_r = 0;
    index_w = 1;
    reload = false;
  };
  sum_hnds = record { primary = null; secondary = null; index_r = 1; index_w = 0; reload = false };
  queue_zero = record {
    queue = record {
      cond_pred_r = false;
      cond_pred_w = false;
      blocking_r = false;
      blocking_w = false;
      paused = false;
      max_q_size = int64_max;
      min_q_size = 0;
      its_q = 10 ∷ [];
    };
    deq_indexes = 0 ∷ [];
    occupant = minus_one;
  };
  data_queues = [];
  internal_cancellation = null;
  expiration_summary = null;
  excond = none;
  cblk = record {
    progress_proc = null;
    parent_id = 1;
    session_prim_id = 7;
    session_sec_id = 0;
    is_paused = false;
    flushed = false;
    abort_by_callback = false;
    abort_by_caller = false;
  };
  paused = false;
  is_stopped = false;
  cancelled = false;
  runprio_ml = lambda_only;
  autodelete = false;
  call_mode = no_block;
}

abbrev pub garbage : QueueGarbage
garbage = record { occupant = minus_one; last_item = reg }
