-- ===== src/Queue/Locking.antt =====
-- CPPAFKQueue.hpp, begin and commit: one thread's calls while it may hold the queue's mutex, which is a
-- std::mutex: who locks it again waits for ever, and to unlock
-- one that is not locked is not defined.
use mathlib.Core.Path.{subst}
use asyncflow_cpp.Common.{
  ℕ, ◌≡◌, ◌≢◌, refl, sym, ◌∙◌, Bool, true, false, List, [], ◌∷◌, arith, if◌then◌else◌, Item,
  Outcome, done, undefined, stuck, ◌>>=◌, bind-done, done-inj, All, Bool-cases, inl, inr,
}
use asyncflow_cpp.Queue
use asyncflow_cpp.Queue.{Queue, Pull}

pub record Held {ℓ} (A : Type ℓ) : Type ℓ where
  pub queue : Queue A
  pub held : Bool

pub data Call {ℓ} (A : Type ℓ) : Type ℓ where
  begins commits pulls resets purges sizes pauses resumes : Call A
  casts : A → Call A
  sets_max sets_min : ℕ → Call A

module _ {ℓ} {A : Type ℓ} where
  unfoldable pub begin : Held A → Outcome (Held A)
  begin h = if h.held then stuck else done (record h { held = true })

  unfoldable pub commit : Held A → Outcome (Held A)
  commit h = if h.held then done (record h { held = false }) else undefined

  -- A method under the lock.
  guarded : (Queue A → Queue A) → Held A → Outcome (Held A)
  guarded f h = if h.held then stuck else done (record h { queue = f h.queue })

  after_pull : Pull A → Held A → Outcome (Held A)
  after_pull (Pull.returned q x success) h = done (record h { queue = q })
  after_pull (Pull.asleep q) h = stuck

  -- A paused queue is not locked.
  pull_held : ⦃item : Item A⦄ → Held A → Outcome (Held A)
  unfolding after_pull
  pull_held h =
      if h.queue.paused then done h else if h.held then stuck else after_pull (Queue.pull h.queue) h

  unfoldable pub call : ⦃item : Item A⦄ → Call A → Held A → Outcome (Held A)
  unfolding begin commit guarded pull_held
  call begins h = begin h
  call commits h = commit h
  call pulls h = pull_held h
  call resets h = guarded Queue.reset h
  call purges h = guarded Queue.purge h
  call sizes h = guarded (λ q. q) h
  call pauses h = done (record h { queue = Queue.pause h.queue })
  call resumes h = done (record h { queue = Queue.resume h.queue })
  call (casts x) h = guarded (λ q. (Queue.cast_object x q).0) h
  call (sets_max n) h = guarded (λ q. (Queue.set_max_q_size n q).0) h
  call (sets_min n) h = guarded (λ q. (Queue.set_min_q_size n q).0) h

  unfoldable pub calls : ⦃item : Item A⦄ → List (Call A) → Held A → Outcome (Held A)
  calls [] h = done h
  calls (c ∷ cs) h = do k ← call c h; calls cs k

  -- What a thread cannot change while it holds the mutex.
  abbrev pub Same : Held A → Held A → Type ℓ
  Same h k =
      (k.held ≡ true)
      × (k.queue.its_q ≡ h.queue.its_q)
      × (k.queue.max_q_size ≡ h.queue.max_q_size)
      × (k.queue.min_q_size ≡ h.queue.min_q_size)

  kept : (h j k : Held A) → Same h j → done j ≡ done k → Same h k
  kept h j k s f = subst (Same h) (done-inj j k f) s

  call_held :
      ⦃item : Item A⦄ (c : Call A) (h k : Held A)
      → h.held ≡ true
      → c ≢ commits
      → call c h ≡ done k
      → Same h k
  unfolding call begin commit guarded pull_held Queue.pause Queue.resume
  call_held begins h k e n r = absurd (ground (arith, e, r))
  call_held commits h k e n r = absurd (n refl)
  call_held pulls h k e n r = elim (Bool-cases h.queue.paused) [
    | inl off ↦ kept h h k (e, refl, refl, refl) (sym (simp off) ∙ r)
    | inr on ↦ absurd (ground (arith, e, r, on))
  ]
  call_held resets h k e n r = absurd (ground (arith, e, r))
  call_held purges h k e n r = absurd (ground (arith, e, r))
  call_held sizes h k e n r = absurd (ground (arith, e, r))
  call_held pauses h k e n r =
      kept h (record h { queue = Queue.pause h.queue }) k (e, refl, refl, refl) r
  call_held resumes h k e n r =
      kept h (record h { queue = Queue.resume h.queue }) k (e, refl, refl, refl) r
  call_held (casts x) h k e n r = absurd (ground (arith, e, r))
  call_held (sets_max m) h k e n r = absurd (ground (arith, e, r))
  call_held (sets_min m) h k e n r = absurd (ground (arith, e, r))

  Same-trans : (h k l : Held A) → Same h k → Same k l → Same h l
  Same-trans h k l (a, b, c, d) (a', b', c', d') = (a', b' ∙ b, c' ∙ c, d' ∙ d)

  -- Between `begin` and `commit` a thread cannot change the queue: of any calls that it makes and
  -- that all come back, none has changed the items or the limits.
  pub calls_held :
      ⦃item : Item A⦄ (cs : List (Call A)) (h k : Held A)
      → h.held ≡ true
      → All (λ c. c ≢ commits) cs
      → calls cs h ≡ done k
      → Same h k
  unfolding calls
  calls_held [] h k e n r = subst (Same h) (done-inj h k r) (e, refl, refl, refl)
  calls_held (c ∷ cs) h k e n r =
      let (j, first, rest) = bind-done (call c h) (calls cs) k r in
      let now = call_held c h j e n.0 first in
      Same-trans h j k now (calls_held cs j k now.0 n.1 rest)
