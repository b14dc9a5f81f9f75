-- ===== src/Queue/Fifo.antt =====
-- CPPAFKQueue.hpp with many threads: any number of readers stand somewhere in `pull` while others
-- insert, pause and move the limits. A step is what one thread does under `lock`.
use native.Mathlib.Decide.{ℕ_discrete}
use mathlib.Core.Logic.{ite}
use asyncflow_cpp.Common.{
  ℕ, ◌≡◌, refl, Bool, true, false, List, [], ◌∷◌, ◌++◌, arith, Item, append_assoc,
}
use asyncflow_cpp.Queue.{
  Queue, Phase, refused, waiting, ready, new, set_max_q_size, set_min_q_size, cast_object,
  pull_enter, pull_wake, pull_take, pause, resume, purge, pop_front,
}

-- Where a reader stands: outside `pull`, asleep on `cvR`, or behind the wait and not yet at the lock.
pub data Pc : Type 0 where
  outside sleeping taking : Pc

abbrev pub pc_of : Phase → Pc
pc_of refused = outside
pc_of waiting = sleeping
pc_of ready = taking

abbrev pub update : (ℕ → Pc) → ℕ → Pc → ℕ → Pc
update f i p j = ite (ℕ_discrete i j) p (f j)

-- The queue, its readers, the items that insertions accepted and those handed out, oldest first.
pub record System (A : Type 0) : Type 0 where
  pub queue : Queue A
  pub pc : ℕ → Pc
  pub accepted : List A
  pub handed : List A

abbrev log_if {ℓ} : {A : Type ℓ} → Bool → A → List A → List A
log_if true x xs = xs ++ x ∷ []
log_if false x xs = xs

module _ {A : Type 0} ⦃item : Item A⦄ where
  abbrev pub start : Bool → System A
  start b = record { queue = new b; pc = λ _. outside; accepted = []; handed = [] }

  abbrev pub insert : A → System A → System A
  insert x s = record s {
    queue = (cast_object x s.queue).0;
    accepted = log_if (cast_object x s.queue).1 x s.accepted;
  }

  abbrev pub enter : ℕ → System A → System A
  enter i s = record s {
    queue = (pull_enter s.queue).0;
    pc = update s.pc i (pc_of (pull_enter s.queue).1);
  }

  abbrev pub wake : ℕ → System A → System A
  wake i s = record s {
    queue = (pull_wake s.queue).0;
    pc = update s.pc i (pc_of (pull_wake s.queue).1);
  }

  abbrev pub take : ℕ → System A → System A
  take i s = record s {
    queue = (pull_take s.queue).0;
    pc = update s.pc i outside;
    handed = log_if (pull_take s.queue).2 (pull_take s.queue).1 s.handed;
  }

  pub data Step : System A → System A → Type 0 where
    inserts : (x : A) (s : System A) → Step s (insert x s)
    enters : (i : ℕ) (s : System A) → s.pc i ≡ outside → Step s (enter i s)
    wakes : (i : ℕ) (s : System A) → s.pc i ≡ sleeping → Step s (wake i s)
    takes : (i : ℕ) (s : System A) → s.pc i ≡ taking → Step s (take i s)
    pauses : (s : System A) → Step s (record s { queue = pause s.queue })
    resumes : (s : System A) → Step s (record s { queue = resume s.queue })
    purges : (s : System A) → Step s (record s { queue = purge s.queue })
    limits_max : (n : ℕ) (s : System A) → Step s (record s { queue = (set_max_q_size n s.queue).0 })
    limits_min : (n : ℕ) (s : System A) → Step s (record s { queue = (set_min_q_size n s.queue).0 })

  pub data Reach (b : Bool) : System A → Type 0 where
    here : Reach b (start b)
    next : {s t : System A} → Reach b s → Step s t → Reach b t

  -- What was accepted and not yet handed out is what the queue holds.
  abbrev pub IsFifo : System A → Type 0
  IsFifo s = s.accepted ≡ s.handed ++ s.queue.its_q

  insert-IsFifo : (x : A) (s : System A) → IsFifo s → IsFifo (insert x s)
  unfolding cast_object
  insert-IsFifo x s h = ground (arith, append_assoc s.handed s.queue.its_q (x ∷ []))

  pop_front-IsFifo :
      (q : Queue A) (handed xs : List A)
      → q.its_q ≡ xs
      → handed ++ xs
        ≡ log_if (pop_front q xs).2 (pop_front q xs).1 handed ++ (pop_front q xs).0.its_q
  unfolding pop_front
  pop_front-IsFifo q handed [] e = ground arith
  pop_front-IsFifo q handed (x ∷ xs) e = ground (arith, append_assoc handed (x ∷ []) xs)

  take-IsFifo : (i : ℕ) (s : System A) → IsFifo s → IsFifo (take i s)
  unfolding pull_take
  take-IsFifo i s h = ground (arith, pop_front-IsFifo s.queue s.handed s.queue.its_q refl)

  Step-IsFifo : {s t : System A} → Step s t → IsFifo s → IsFifo t
  unfolding pull_enter pull_wake pause resume purge set_max_q_size set_min_q_size
  Step-IsFifo (inserts x s) h = insert-IsFifo x s h
  Step-IsFifo (enters i s _) h = ground arith
  Step-IsFifo (wakes i s _) h = ground arith
  Step-IsFifo (takes i s _) h = take-IsFifo i s h
  Step-IsFifo (pauses s) h = h
  Step-IsFifo (resumes s) h = h
  Step-IsFifo (purges s) h = ground arith
  Step-IsFifo (limits_max n s) h = ground arith
  Step-IsFifo (limits_min n s) h = ground arith

  -- However readers and writers interleave, pauses, purges and changes of the limits included, the
  -- items handed out are the items accepted, in order and once each, up to those the queue holds.
  pub Reach-IsFifo : {b : Bool} {s : System A} → Reach b s → IsFifo s
  unfolding new
  Reach-IsFifo here = refl
  Reach-IsFifo (next r st) = Step-IsFifo st (Reach-IsFifo r)
