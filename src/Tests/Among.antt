-- ===== src/Tests/Among.antt =====
-- CPPAFKThreadpool.cpp: the new session of Deliveries among those of Pools.
use asyncflow_cpp.Common.{ℕ, ◌≡◌, ◌≢◌, refl, Bool, [], ◌∷◌, ◌++◌, arith, done, Outcome, some}
use asyncflow_cpp.Batching.Wf.{items}
use asyncflow_cpp.Hybrid.{Hybrid}
use asyncflow_cpp.Composing.Turns.{all_made}
use asyncflow_cpp.Pool.{Pool}
use asyncflow_cpp.Pool.Sessions.{create_composing_session, cast_object_for_session}
use asyncflow_cpp.Pool.Control.{pause_session, collect}
use asyncflow_cpp.Pool.Worker.{serve_session}
use asyncflow_cpp.ControlBlock
use asyncflow_cpp.Session
use asyncflow_cpp.Composing.Select.{select, rounds, round, take_routines, wake_up}
use asyncflow_cpp.Pool.Serving.{HasRoom}
use asyncflow_cpp.Pool.Interleaving.{rests, casts, pauses, Feeds, idles, feeds, takes}
use asyncflow_cpp.Pool.Among.{delivered_among}
use asyncflow_cpp.Pool.Lifecycle.{IsAbsent}
use asyncflow_cpp.Tests.Turns.{add_unit, code-Runs}
use asyncflow_cpp.Tests.Pools.{pool, pool-IsRunning}
use asyncflow_cpp.Tests.Workers.{setting}
use asyncflow_cpp.Tests.Deliveries.{params, fresh, simple, newcomer, known}
use asyncflow_cpp.Tests.Views.{pool-IsSound}

abbrev created : Pool Bool
created = (create_composing_session (some params) fresh pool).0

abbrev pool_of : Outcome (Pool Bool) → Pool Bool
pool_of (done r) = r
pool_of _ = pool

abbrev served : Pool Bool
served = pool_of (serve_session setting 900 created)

first : serve_session setting 900 created ≡ done served
unfolding serve_session select rounds round take_routines wake_up create_composing_session
    Session.adopt_data_from_zero_queue ControlBlock.cancellation_requested
    ControlBlock.get_session_id
first = refl

-- A turn that finds nothing.
abbrev rested : Pool Bool
rested = pool_of (serve_session setting 900 served)

second : serve_session setting 900 served ≡ done rested
unfolding serve_session select rounds round take_routines wake_up create_composing_session
    Session.adopt_data_from_zero_queue ControlBlock.cancellation_requested
    ControlBlock.get_session_id collect
second = refl

abbrev id : ℕ
id = ControlBlock.get_session_id fresh.block

another : 2 ≢ id
unfolding ControlBlock.get_session_id
another e = ground (arith, e)

abbrev paused : Pool Bool
paused = (pause_session 2 (cast_object_for_session id 10 rested).0).0

abbrev crossed : Pool Bool
crossed = (cast_object_for_session 2 99 (cast_object_for_session id 20 paused).0).0

feeding : Feeds setting id 900 served 2 (10 ∷ 20 ∷ []) [] crossed
feeding =
    feeds 20 (feeds 10 (takes (idles rests) (omega arith) second rests) (pauses 2 rests another))
      (casts 2 99 rests another)

-- Casts and pauses do not reach the collector.
collected : crossed.gc.user_data_collection ≡ pool.gc.user_data_collection
unfolding cast_object_for_session pause_session create_composing_session serve_session select rounds
    round take_routines wake_up Session.adopt_data_from_zero_queue
    ControlBlock.cancellation_requested ControlBlock.get_session_id collect
collected = refl

room : HasRoom 6 crossed.gc.user_data_collection
room = rw (collected) (record { room = omega arith; bounded = omega arith })

delivered_among_example :
    (w : Pool Bool) × (h : Hybrid) × (serve_session setting 900 crossed ≡ done w)
    × (w.gc.user_data_collection.its_q
        ≡ crossed.gc.user_data_collection.its_q
          ++ all_made setting.code add_unit (1 ∷ 2 ∷ []) (10 ∷ 20 ∷ []))
    × ((w.store 900).data_queues ≡ h ∷ [])
    × (items h.reg_q ≡ [])
    × IsAbsent 900 []
unfolding cast_object_for_session pause_session create_composing_session serve_session
delivered_among_example =
    delivered_among setting add_unit 1 (2 ∷ []) params fresh pool created served crossed 2
      (10 ∷ 20 ∷ []) [] [] code-Runs refl simple newcomer known pool-IsSound pool-IsRunning
      ((λ e. ground (arith, e)), ((λ e. ground (arith, e)), tt)) rests first feeding (omega arith)
      (omega arith) room
