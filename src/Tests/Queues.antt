-- ===== src/Tests/Queues.antt =====
-- CPPAFKQueue.hpp and CPPAFKThreadpoolQueue.hpp at concrete states.
use asyncflow_cpp.Common.{
  ◌≤◌, ◌<◌, ◌≡◌, ◌⊎◌, refl, true, false, List, [], ◌∷◌, arith, Ptr, ptr_item, uint64_max, done,
}
use asyncflow_cpp.Queue
use asyncflow_cpp.Queue.{Queue, returned, asleep}
use asyncflow_cpp.Queue.Limits
use asyncflow_cpp.Queue.Limits.{
  IsWf, Op, Takes, run-new-IsWf, cast_object_within, pull_within, negative_limit_shuts,
}
use asyncflow_cpp.Queue.Fifo
use asyncflow_cpp.Queue.Fifo.{System, Reach, IsFifo, Reach-IsFifo, start, insert, enter, take}
use asyncflow_cpp.ThreadpoolQueue
use asyncflow_cpp.ThreadpoolQueue.{TpQueue, QStatus, Got, new_status, minus_one}
use asyncflow_cpp.ThreadpoolQueue.Occupancy.{Serves, run_calls, pull_and_occupy-Serves, others_wait}

abbrev queue : Queue Ptr
queue = record {
  cond_pred_r = false;
  cond_pred_w = false;
  blocking_r = true;
  blocking_w = false;
  paused = false;
  max_q_size = 3;
  min_q_size = 1;
  its_q = 10 ∷ 20 ∷ [];
}

queue-IsWf : IsWf queue
queue-IsWf = ground arith

abbrev calls : List (Op Ptr)
calls = Op.max_to 2 ∷ Op.cast 10 ∷ Op.min_to 1 ∷ Op.cast 20 ∷ Op.enter ∷ Op.take ∷ []

run-new-IsWf_example : IsWf (Limits.run calls (Queue.new true))
run-new-IsWf_example = run-new-IsWf true calls (ground arith)

pull_within_example :
    ((queue.paused ≡ true) × (Queue.pull queue ≡ returned queue 0 false))
    ⊎ (((queue.paused ≡ false) × (1 < 2) × Takes queue)
        ⊎ (((queue.paused ≡ false)
              × (2 ≤ 1)
              × (queue.blocking_r ≡ false)
              × (Queue.pull queue ≡ returned queue 0 false))
            ⊎ ((queue.paused ≡ false)
                × (2 ≤ 1)
                × (queue.blocking_r ≡ true)
                × (Queue.pull queue ≡ asleep (record queue { cond_pred_r = false })))))
pull_within_example = pull_within queue queue-IsWf

abbrev shut : Queue Ptr
shut = (Queue.set_min_q_size uint64_max queue).0

abbrev one_in : System Ptr
one_in = insert 10 (start true)

abbrev entered : System Ptr
entered = enter 1 one_in

taken-Reach : Reach true (take 1 entered)
unfolding Queue.new Queue.cast_object Queue.pull_enter native.Mathlib.Decide.ℕ_discrete
taken-Reach =
    Reach.next
      (Reach.next (Reach.next Reach.here (Fifo.Step.inserts 10 (start true)))
        (Fifo.Step.enters 1 one_in refl))
      (Fifo.Step.takes 1 entered refl)

Reach-IsFifo_example : IsFifo (take 1 entered)
Reach-IsFifo_example = Reach-IsFifo taken-Reach

abbrev tp_queue : TpQueue
tp_queue = record {
  queue = record queue { blocking_r = false };
  deq_indexes = 1 ∷ 2 ∷ [];
  occupant = 5;
}

pull_and_occupy-Serves_example :
    Serves tp_queue 5 (ThreadpoolQueue.pull_and_occupy_with_id 5 tp_queue new_status)
unfolding new_status
pull_and_occupy-Serves_example = pull_and_occupy-Serves 5 tp_queue new_status refl refl

others_wait_example :
    (run_calls (6 ∷ minus_one ∷ []) tp_queue ≡ done tp_queue)
    × ((g : Got) × (ThreadpoolQueue.pull_and_occupy_with_id 5 tp_queue new_status ≡ done g)
        × (g.item ≡ 10)
        × (g.item_index ≡ 1)
        × (g.state.its_q ≡ 20 ∷ []))
others_wait_example =
    others_wait 5 (6 ∷ minus_one ∷ []) tp_queue 10 (20 ∷ []) 1 (2 ∷ []) (omega arith) refl refl refl
      (ground arith)

abbrev no_items : TpQueue
no_items = record tp_queue {
  queue = record queue { its_q = [] };
  deq_indexes = [];
  occupant = minus_one;
}

abbrev lost : TpQueue
lost = (ThreadpoolQueue.cast_vector (10 ∷ 20 ∷ []) 0 no_items).0
