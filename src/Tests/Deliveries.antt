-- ===== src/Tests/Deliveries.antt =====
-- CPPAFKThreadpool.cpp: a new session of the pool of Pools, with the routines of Turns.
use asyncflow_cpp.Common.{
  ◌≡◌, ◌≢◌, refl, Bool, true, false, [], ◌∷◌, ◌++◌, arith, null, none, some, done,
}
use asyncflow_cpp.ControlBlock
use asyncflow_cpp.Batching.Wf.{items}
use asyncflow_cpp.Hybrid.{Hybrid, no_block}
use asyncflow_cpp.Composing.Turns.{all_made}
use asyncflow_cpp.Pool.{Pool}
use asyncflow_cpp.Pool.Sessions.{Params, Fresh, create_composing_session}
use asyncflow_cpp.Pool.Worker.{serve_session}
use asyncflow_cpp.Pool.Configuring.{IsSimple}
use asyncflow_cpp.Pool.Creation.{IsNewcomer}
use asyncflow_cpp.Pool.Casting.{cast, Takes}
use asyncflow_cpp.Pool.Delivery.{delivered, early_casts_lost}
use asyncflow_cpp.Tests.Sessions.{session, garbage}
use asyncflow_cpp.Tests.Turns.{add_unit, code-Runs}
use asyncflow_cpp.Tests.Pools.{pool}
use asyncflow_cpp.Tests.Workers.{setting}

abbrev pub params : Params Bool
params = record {
  block_call_mode = no_block;
  autodelete = true;
  routines = 1 ∷ 2 ∷ [];
  summary_routine = null;
  progress_routine = null;
  cancellation_routine = 70;
  exp_summary = null;
  exp_condition = none;
}

abbrev pub fresh : Fresh
fresh = record {
  address = 900;
  block = record (session.cblk) { session_prim_id = 9 };
  zero_occupant = 0;
  queue_garbage = garbage;
  handler = 80;
}

pub simple : IsSimple 1 (2 ∷ []) params
simple = record { works = refl; deletes = refl; no_summary = refl; no_condition = refl }

pub newcomer : IsNewcomer fresh pool
unfolding ControlBlock.cancellation_requested ControlBlock.get_session_id
newcomer = record {
  not_asked = refl;
  not_flushed = refl;
  real = λ e. absurd (ground (arith, e));
  unused = refl;
}

pub known : ControlBlock.get_session_id fresh.block ≢ 0
unfolding ControlBlock.get_session_id
known e = ground (arith, e)

delivered_example :
    let id = ControlBlock.get_session_id fresh.block in
    (q : Pool Bool) × (r : Pool Bool) × (s : Pool Bool) × (h : Hybrid) × (create_composing_session
        (some params)
        fresh
        pool
      ≡ (q, id))
    × (serve_session setting 900 q ≡ done r)
    × Takes id (10 ∷ 20 ∷ []) true r
    × (serve_session setting 900 (cast id (10 ∷ 20 ∷ []) r) ≡ done s)
    × (s.gc.user_data_collection.its_q
        ≡ pool.gc.user_data_collection.its_q
          ++ all_made setting.code add_unit (1 ∷ 2 ∷ []) (10 ∷ 20 ∷ []))
    × ((s.store 900).data_queues ≡ h ∷ [])
    × (items h.reg_q ≡ [])
delivered_example =
    delivered setting add_unit 1 (2 ∷ []) params fresh pool (10 ∷ 20 ∷ []) code-Runs refl simple
      newcomer known (omega arith) (omega arith)
      (record { room = omega arith; bounded = omega arith })

-- What the two routines make of 10 and 20: what is to be deleted, item by item.
made : all_made setting.code add_unit (1 ∷ 2 ∷ []) (10 ∷ 20 ∷ []) ≡ 10 ∷ 11 ∷ 13 ∷ 20 ∷ 21 ∷ 23 ∷ []
made = refl

early_casts_lost_example :
    let id = ControlBlock.get_session_id fresh.block in
    (q : Pool Bool) × (r : Pool Bool) × (s : Pool Bool) × (h : Hybrid) × (create_composing_session
        (some params)
        fresh
        pool
      ≡ (q, id))
    × Takes id (10 ∷ 20 ∷ []) false q
    × (serve_session setting 900 (cast id (10 ∷ 20 ∷ []) q) ≡ done r)
    × (serve_session setting 900 r ≡ done s)
    × (s.gc.user_data_collection ≡ pool.gc.user_data_collection)
    × ((s.store 900).queue_zero.its_q ≡ [])
    × ((s.store 900).data_queues ≡ h ∷ [])
    × (items h.reg_q ≡ [])
early_casts_lost_example =
    early_casts_lost setting 1 (2 ∷ []) params fresh pool 10 (20 ∷ []) refl simple newcomer known
      (omega arith)
