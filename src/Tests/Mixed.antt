-- ===== src/Tests/Mixed.antt =====
-- CPPAFKThreadpool.hpp and .cpp, CPPAFKThreadpoolQueueHyb and CPPAFKGarbageCollector, at concrete
-- states.
use asyncflow_cpp.Common.{
  ℕ, ◌≡◌, refl, Bool, true, false, List, [], ◌∷◌, ◌++◌, arith, Ptr, none, int64_max, done, ◌==◌,
}
use asyncflow_cpp.Queue.{Queue}
use asyncflow_cpp.Batching.{Batching, Wrap}
use asyncflow_cpp.Batching.Wf.{items}
use asyncflow_cpp.ThreadpoolQueue.{QStatus, minus_one}
use asyncflow_cpp.Hybrid
use asyncflow_cpp.Hybrid.{Hybrid, Spec, reg, Got}
use asyncflow_cpp.Hybrid.Order.{IsOrdered, cast_object-IsOrdered}
use asyncflow_cpp.Hybrid.Pulling.{HandsFirst, pull_and_occupy_first}
use asyncflow_cpp.Collector
use asyncflow_cpp.Collector.{Collector, data_releasing_batch_size, cancelled_of}
use asyncflow_cpp.Collector.Disposal.{
  IsCollector, with_items, take, drop, dispose_lem, dispose_all_lem,
}

abbrev plain : List Ptr → Queue Ptr
plain xs = record {
  cond_pred_r = false;
  cond_pred_w = false;
  blocking_r = false;
  blocking_w = false;
  paused = false;
  max_q_size = int64_max;
  min_q_size = 0;
  its_q = xs;
}

abbrev wrap : List Ptr → Bool → Wrap Ptr
wrap xs d = record { cond_pred_w = false; discarded = d; many = xs; wait_until_read = false }

abbrev batching : List (Wrap Ptr) → ℕ → Batching Ptr
batching ws n = record {
  queue = plain [];
  batch_limit_upper = 5;
  batch_limit_lower = 2;
  net_count = n;
  temp = wrap [] false;
  its_bq = ws;
  relaxing = [];
}

abbrev pub hybrid : Hybrid
hybrid = record {
  base = record { queue = plain []; deq_indexes = 0 ∷ 0 ∷ []; occupant = minus_one };
  qmapper = (reg, 1) ∷ (reg, 1) ∷ [];
  last_item = reg;
  blk_q = none;
  reg_q = batching (wrap (10 ∷ []) true ∷ wrap (20 ∷ []) true ∷ []) 2;
}

abbrev status : QStatus
status = record { empty = false; endbatch = false; called = false; validrv = false }

pub hybrid-IsOrdered : IsOrdered 5 hybrid
hybrid-IsOrdered = record {
  wf = record {
    counted = refl;
    nonempty = (λ e. ground (arith, e), ((λ e. ground (arith, e)), tt));
    bounded = omega arith;
    ordered = omega arith;
    no_min = refl;
    no_block = refl;
  };
  running = refl;
  mapped = refl;
  idle = tt;
}

cast_object-IsOrdered_example :
    IsOrdered 6 (Hybrid.cast_object 30 0 hybrid).0
    × (items (Hybrid.cast_object 30 0 hybrid).0.reg_q ≡ items hybrid.reg_q ++ 30 ∷ [])
    × ((Hybrid.cast_object 30 0 hybrid).1 ≡ true)
cast_object-IsOrdered_example = cast_object-IsOrdered 30 0 hybrid (omega arith) hybrid-IsOrdered

pull_and_occupy_first_example :
    HandsFirst 5 3 false 10 (20 ∷ []) (Hybrid.pull_and_occupy_with_id 3 hybrid status)
pull_and_occupy_first_example =
    pull_and_occupy_first 3 hybrid 10 (20 ∷ []) status (omega arith) hybrid-IsOrdered refl refl

abbrev pub collector : Collector
collector = record {
  active = false;
  user_data_collection = plain (10 ∷ 20 ∷ []);
  wrapper_collection = plain [];
  killed_sessions = plain (30 ∷ 40 ∷ []);
}

abbrev is_forty : Ptr → Bool
is_forty p = p == 40

pub collector-IsCollector : IsCollector collector
collector-IsCollector = record {
  data_plain = record { running = refl; no_min = refl; no_block = refl; no_wait = refl };
  wrappers_plain = record { running = refl; no_min = refl; no_block = refl; no_wait = refl };
  sessions_plain = record { running = refl; no_min = refl; no_block = refl; no_wait = refl };
}

dispose_lem_example :
    Collector.dispose is_forty collector
    ≡ done (record {
      collector = record collector {
        user_data_collection = with_items (plain (10 ∷ 20 ∷ [])) (drop 1000 (10 ∷ 20 ∷ []));
        wrapper_collection = with_items (plain []) (drop 1000 []);
        killed_sessions = with_items (plain (30 ∷ 40 ∷ [])) (drop 1000 (30 ∷ 40 ∷ []));
      };
      user_data = take 1000 (10 ∷ 20 ∷ []);
      wrappers = take 1000 [];
      sessions = cancelled_of is_forty (take 1000 (30 ∷ 40 ∷ []));
    })
dispose_lem_example = dispose_lem is_forty collector collector-IsCollector

dispose_all_lem_example :
    Collector.dispose_all is_forty collector
    ≡ done (record {
      collector = record collector {
        user_data_collection = with_items (plain (10 ∷ 20 ∷ [])) [];
        wrapper_collection = with_items (plain []) [];
        killed_sessions = with_items (plain (30 ∷ 40 ∷ [])) [];
      };
      user_data = 10 ∷ 20 ∷ [];
      wrappers = [];
      sessions = cancelled_of is_forty (30 ∷ 40 ∷ []);
    })
dispose_all_lem_example = dispose_all_lem is_forty collector collector-IsCollector
