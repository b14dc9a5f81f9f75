-- ===== src/Pool/Lifecycle.antt =====
-- CPPAFKThreadpool.cpp: how a session comes to the workers and how it leaves them.
use native.Mathlib.Decide.{ℕ_discrete}
use asyncflow_cpp.Common.{
  ℕ, ◌+◌, ◌<◌, ◌≡◌, ◌≢◌, ◌⊎◌, ◌==◌, ◌++◌, inl, inr, refl, ap, ◌∙◌, true, false, List, [], ◌∷◌,
  arith, get_elem?, Ptr, null, Option, none, some, done, if◌then◌else◌, Bool-cases, word_mod,
}
use asyncflow_cpp.Registry.{find}
use asyncflow_cpp.Registry.Laws.{find-insert}
use asyncflow_cpp.ControlBlock
use asyncflow_cpp.Session
use asyncflow_cpp.Session.{Session}
use asyncflow_cpp.Composing
use asyncflow_cpp.Composing.{QueueGarbage}
use asyncflow_cpp.Pool.{Pool}
use asyncflow_cpp.Pool.Scheduling.{Choice, idle, cancelled, paused, selects, unpaused, turn}
use asyncflow_cpp.Pool.Sessions.{add_session}
use asyncflow_cpp.Pool.Control.{
  pause_session, resume_session, cancel_session, pause_at, resume_at, is_paused_session,
  paused_sessions_count,
}
use asyncflow_cpp.Pool.Shares.{get_elem-some}
use asyncflow_cpp.Pool.Turns.{IsRunning, Answers, Keeps, turn_lem}

abbrev pub IsAbsent : Ptr → List Ptr → Type 0
IsAbsent a [] = Unit
IsAbsent a (b ∷ bs) = (b ≢ a) × IsAbsent a bs

module _ {C : Type 0} where
  -- Adding a session succeeds exactly if its address is not null and its identifier is new. It is then
  -- found under it, every other identifier finds what it found, and the session is the last to be
  -- served; otherwise the pool stays as it was.
  pub add_session_lem :
      (g : QueueGarbage) (a : Ptr) (id j : ℕ) (p : Pool C)
      → (((add_session g a id p).1 ≡ true)
          × (a ≢ null)
          × (find id p.all_sessions ≡ none)
          × ((add_session g a id p).0.online_sessions ≡ p.online_sessions ++ a ∷ [])
          × (find j (add_session g a id p).0.all_sessions
              ≡ (if id == j then some a else find j p.all_sessions)))
        ⊎ (((a ≡ null) ⊎ ((b : Ptr) × (find id p.all_sessions ≡ some b)))
            × (add_session g a id p ≡ (p, false)))
  unfolding add_session
  add_session_lem g a id j p = go (find id p.all_sessions) refl
    where
      go :
          (o : Option Ptr)
          → find id p.all_sessions ≡ o
          → (((add_session g a id p).1 ≡ true)
              × (a ≢ null)
              × (find id p.all_sessions ≡ none)
              × ((add_session g a id p).0.online_sessions ≡ p.online_sessions ++ a ∷ [])
              × (find j (add_session g a id p).0.all_sessions
                  ≡ (if id == j then some a else find j p.all_sessions)))
            ⊎ (((a ≡ null) ⊎ ((b : Ptr) × (find id p.all_sessions ≡ some b)))
                × (add_session g a id p ≡ (p, false)))
      go (some b) e = inr (inr (b, e), rw (e, add_session))
      go none e = elim (ℕ_discrete a 0) [
        | yes z ↦ inr (inl z, rw (e, add_session) (ground (arith, z)))
        | no nz ↦ inl (
          rw (e, add_session) (ground (arith, nz)),
          nz,
          e,
          rw (e, add_session) (ground (arith, nz)),
          rw (e, add_session) (ground (arith, nz, find-insert id j a p.all_sessions)),
        )
      ]

  pub serves_none :
      (a : Ptr) (selector : ℕ) (p q : Pool C) (c : Choice)
      → Answers selector p q c
      → Session.cancellation_requested (p.store a) ≡ true
      → c ≢ selects a
  serves_none a selector p q idle h r e = absurd (ground (arith, e))
  serves_none a selector p q (cancelled b) h r e = absurd (ground (arith, e))
  serves_none a selector p q (paused b) h r e = absurd (ground (arith, e))
  serves_none a selector p q (selects b) h r e = absurd (ground (arith, h, r, e))

  pub cancel_store :
      (id : ℕ) (a : Ptr) (p : Pool C)
      → find id p.all_sessions ≡ some a
      → (cancel_session id p).0.store a ≡ Composing.cancel (p.store a)
  unfolding cancel_session
  cancel_store id a p e = rw (e, cancel_session) (ground arith)

  cancel_requested : (s : Session C) → Session.cancellation_requested (Composing.cancel s) ≡ true
  unfolding Session.cancellation_requested Composing.cancel ControlBlock.cancel
      ControlBlock.cancellation_requested
  cancel_requested s = ground arith

  cancel_cancelled :
      (s : Session C) → Session.is_cancelled (Composing.cancel s) ≡ Session.is_cancelled s
  unfolding Composing.cancel
  cancel_cancelled s = refl

  pub cancel_session-IsRunning :
      (id : ℕ) (p : Pool C) → IsRunning p → IsRunning (cancel_session id p).0
  unfolding cancel_session
  cancel_session-IsRunning id p v = go (find id p.all_sessions) refl
    where
      go : (o : Option Ptr) → find id p.all_sessions ≡ o → IsRunning (cancel_session id p).0
      go none e = rw (e, cancel_session) v
      go (some a) e = rw (e, cancel_session) (record { some_cpu = v.some_cpu; agree = v.agree })

  -- Once a registered session of a running pool is cancelled, the next turn of any worker returns
  -- without serving it, and neither the cancellation nor the turn sets the flag by which the
  -- collector tells that it may delete the session.
  pub cancelled_unserved :
      (id selector slot : ℕ) (a : Ptr) (p : Pool C)
      → IsRunning p
      → find id p.all_sessions ≡ some a
      → let q = (cancel_session id p).0 in
        (r : Pool C) × (s : ℕ) × (c : Choice) × (turn selector slot q ≡ done (r, s, c))
        × (c ≢ selects a)
        × (Session.cancellation_requested (r.store a) ≡ true)
        × (Session.is_cancelled (r.store a) ≡ Session.is_cancelled (p.store a))
  cancelled_unserved id selector slot a p v e =
      let q = (cancel_session id p).0 in
      let (r, s, c, turned, answers, keeps) =
        turn_lem selector slot q (cancel_session-IsRunning id p v) in
      let stored = cancel_store id a p e in
      let asked : Session.cancellation_requested (q.store a) ≡ true =
        ap Session.cancellation_requested stored ∙ cancel_requested (p.store a) in
      let kept : r.store a ≡ q.store a = ap (λ f. f a) keeps.same_store in
      (
        r,
        s,
        c,
        turned,
        serves_none a selector q r c answers asked,
        ap Session.cancellation_requested kept ∙ asked,
        ap (λ t. t.cancelled) (kept ∙ stored) ∙ cancel_cancelled (p.store a),
      )

  resumed :
      (id : ℕ) (a : Ptr) (q : Pool C)
      → find id q.all_sessions ≡ some a
      → let r = (resume_session id q).0 in
        (r.online_sessions ≡ q.online_sessions)
        × (r.all_sessions ≡ q.all_sessions)
        × (is_paused_session id r ≡ false)
  unfolding resume_session resume_at is_paused_session Session.resume
  resumed id a q e = rw (e, resume_session) (refl, refl, rw (e, is_paused_session) (ground arith))

  unpaused-IsAbsent :
      (a : Ptr) (store : Ptr → Session C) (m : List (ℕ × Ptr))
      → Session.is_paused (store a) ≡ true
      → IsAbsent a (unpaused store m)
  unfolding unpaused
  unpaused-IsAbsent a store [] h = tt
  unpaused-IsAbsent a store ((id, b) ∷ m) h = elim (Bool-cases (Session.is_paused (store b))) [
    | inl stopped ↦ rw (stopped, unpaused) (unpaused-IsAbsent a store m h)
    | inr running ↦
        rw (running, unpaused)
          (
            (λ same.
                absurd (ground (arith, running, h, ap (λ c. Session.is_paused (store c)) same))),
            unpaused-IsAbsent a store m h,
          )
  ]

  -- In a running pool whose last turn found sessions, a session that is paused when a worker finds
  -- another one cancelled leaves the list of those to serve, and resuming it does not put it back,
  -- though it is registered and not paused.
  pub paused_dropped :
      (id selector slot : ℕ) (a b : Ptr) (p : Pool C)
      → IsRunning p
      → p.tpcfg.required_threads_count ≢ 0
      → find id p.all_sessions ≡ some a
      → Session.is_paused (p.store a) ≡ true
      → get_elem? p.online_sessions selector ≡ some b
      → Session.cancellation_requested (p.store b) ≡ true
      → (q : Pool C) × (s : ℕ) × (turn selector slot p ≡ done (q, s, cancelled b))
        × (let r = (resume_session id q).0 in
            IsAbsent a r.online_sessions
            × (find id r.all_sessions ≡ some a)
            × (is_paused_session id r ≡ false))
  paused_dropped id selector slot a b p v n e h f asked =
      let (q, s, c, turned, answers, keeps) = turn_lem selector slot p v in
      go q s c turned answers keeps
    where
      go :
          (q : Pool C) (s : ℕ) (c : Choice)
          → turn selector slot p ≡ done (q, s, c)
          → Answers selector p q c
          → Keeps p q
          → (q : Pool C) × (s : ℕ) × (turn selector slot p ≡ done (q, s, cancelled b))
            × (let r = (resume_session id q).0 in
                IsAbsent a r.online_sessions
                × (find id r.all_sessions ≡ some a)
                × (is_paused_session id r ≡ false))
      go q s idle turned answers keeps = elim answers.0 [
        | inl z ↦ absurd (n z)
        | inr beyond ↦ absurd (omega (arith, beyond, get_elem-some p.online_sessions selector b f))
      ]
      go q s (paused x) turned answers keeps = absurd (ground (arith, answers, f, asked))
      go q s (selects x) turned answers keeps = absurd (ground (arith, answers, f, asked))
      go q s (cancelled x) turned answers keeps =
          let same : x ≡ b = ground (arith, answers, f) in
          let found : find id q.all_sessions ≡ some a = ap (find id) keeps.same_sessions ∙ e in
          let (online, all, awake) = resumed id a q found in
          (
            q,
            s,
            turned ∙ ap (λ y. done (q, s, cancelled y)) same,
            (
              rw (online, answers.2) (unpaused-IsAbsent a p.store p.all_sessions h),
              ap (find id) all ∙ found,
              awake,
            ),
          )

  pause_found :
      (id : ℕ) (a : Ptr) (q : Pool C)
      → find id q.all_sessions ≡ some a
      → (pause_session id q).0 ≡ pause_at a q
  unfolding pause_session
  pause_found id a q e = rw (e, pause_session)

  resume_found :
      (id : ℕ) (a : Ptr) (q : Pool C)
      → find id q.all_sessions ≡ some a
      → (resume_session id q).0 ≡ resume_at a q
  unfolding resume_session
  resume_found id a q e = rw (e, resume_session)

  -- Pausing a session twice and resuming it once leaves it running, and counted as paused.
  pub paused_twice :
      (id : ℕ) (a : Ptr) (p : Pool C)
      → find id p.all_sessions ≡ some a
      → p.count_paused + 2 < word_mod
      → let r = (resume_session id (pause_session id (pause_session id p).0).0).0 in
        (is_paused_session id r ≡ false) × (paused_sessions_count r ≡ p.count_paused + 1)
  unfolding pause_at resume_at paused_sessions_count
  paused_twice id a p e h =
      let once = pause_found id a p e in
      let twice = pause_found id a (pause_at a p) e in
      let back = resume_found id a (pause_at a (pause_at a p)) e in
      let awake = (resumed id a (pause_at a (pause_at a p)) e).2 in
      rw (once, twice) (awake, rw back (omega (arith, h)))
