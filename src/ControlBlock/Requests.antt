-- ===== src/ControlBlock/Requests.antt =====
-- CPPAFKControlBlock.cpp: a request to cancel stands until it is reset.
use asyncflow_cpp.Common.{◌≡◌, refl, Bool, true, false, List, [], ◌∷◌, ◌||◌, arith, Ptr, ◌∙◌}
use asyncflow_cpp.ControlBlock.{
  ControlBlock, cancel, stop, set_paused, set_flush_requested, set_progress_routine,
  cancellation_requested,
}

pub data Op : Type 0 where
  cancels stops : Op
  pauses flushes : Bool → Op
  reports : Ptr → Op

pub step : Op → ControlBlock → ControlBlock
step cancels c = cancel c
step stops c = stop c
step (pauses b) c = set_paused b c
step (flushes b) c = set_flush_requested b c
step (reports p) c = (set_progress_routine p c).0

pub run : List Op → ControlBlock → ControlBlock
run [] c = c
run (o ∷ os) c = run os (step o c)

abbrev pub asks : List Op → Bool
asks [] = false
asks (cancels ∷ os) = true
asks (stops ∷ os) = true
asks (_ ∷ os) = asks os

step-requested :
    (o : Op) (os : List Op) (c : ControlBlock)
    → cancellation_requested (step o c) || asks os ≡ cancellation_requested c || asks (o ∷ os)
unfolding step cancel stop set_paused set_flush_requested set_progress_routine
    cancellation_requested
step-requested cancels os c = ground arith
step-requested stops os c = ground arith
step-requested (pauses b) os c = refl
step-requested (flushes b) os c = refl
step-requested (reports p) os c = ground arith

-- After any calls other than `reset`, cancellation is requested exactly when it was before or one
-- of the calls is `cancel` or `stop`: pausing, flushing and reporting neither ask for it nor undo it.
pub run-requested :
    (os : List Op) (c : ControlBlock)
    → cancellation_requested (run os c) ≡ cancellation_requested c || asks os
unfolding run
run-requested [] c = ground arith
run-requested (o ∷ os) c = run-requested os (step o c) ∙ step-requested o os c
