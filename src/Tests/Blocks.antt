-- ===== src/Tests/Blocks.antt =====
-- CPPAFKControlBlock.cpp and CPPAFKBase.cpp at concrete states.
use asyncflow_cpp.Common.{
  ◌≡◌, refl, true, false, List, [], ◌∷◌, ◌||◌, null, some, done, undefined, arith, if◌then◌else◌,
  ◌==◌,
}
use asyncflow_cpp.ControlBlock
use asyncflow_cpp.ControlBlock.{ControlBlock, Garbage}
use asyncflow_cpp.ControlBlock.Requests
use asyncflow_cpp.ControlBlock.Requests.{Op, cancels, pauses, flushes, asks}
use asyncflow_cpp.Registry
use asyncflow_cpp.Registry.{Registry, find, is_alive}
use asyncflow_cpp.Registry.Laws.{get-new, forget_by_address_dangles}

abbrev block : ControlBlock
block = record {
  progress_proc = null;
  parent_id = 1;
  session_prim_id = 7;
  session_sec_id = 0;
  is_paused = false;
  flushed = false;
  abort_by_callback = false;
  abort_by_caller = false;
}

abbrev calls : List Op
calls = pauses true ∷ cancels ∷ flushes true ∷ []

run-requested_example :
    ControlBlock.cancellation_requested (Requests.run calls block)
    ≡ ControlBlock.cancellation_requested block || asks calls
run-requested_example = Requests.run-requested calls block

abbrev registry : Registry
registry = record {
  its_num_id = 9;
  blocks = (3, 100) ∷ (4, 200) ∷ [];
  alive = 100 ∷ 200 ∷ [];
  locked = false;
}

get-new_example :
    (s : Registry) × (Registry.new_ctrl_block 3 300 registry ≡ done s)
    × (s.locked ≡ false)
    × (find 4 s.blocks ≡ (if 3 == 4 then some 300 else find 4 registry.blocks))
get-new_example = get-new 3 4 300 registry (λ e. absurd (ground (arith, e))) refl

forget_by_address_dangles_example :
    (s t : Registry) × (Registry.new_ctrl_block 6 300 registry ≡ done s)
    × (Registry.forget_ctrl_block_at 300 s ≡ done t)
    × (find 6 t.blocks ≡ some 300)
    × (is_alive 300 t.alive ≡ false)
    × (Registry.forget_ctrl_block 6 t ≡ undefined)
forget_by_address_dangles_example =
    forget_by_address_dangles 6 300 registry (λ e. absurd (ground (arith, e))) refl refl
