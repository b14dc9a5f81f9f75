-- ===== src/Pool/Turns.antt =====
-- CPPAFKThreadpool.cpp, tworker: which session a turn of a worker serves.
use native.Mathlib.Decide.{ℕ_discrete}
use asyncflow_cpp.Common.{
  ℕ, ◌≤◌, ◌<◌, ◌≡◌, ◌⊎◌, ◌==◌, ◌||◌, inl, inr, refl, ap, sym, ◌∙◌, true, false, List, [], ◌∷◌,
  arith, length, get_elem?, Ptr, Option, none, some, Outcome, done, ◌>>=◌, Bool-cases,
}
use asyncflow_cpp.Session
use asyncflow_cpp.Session.{Session}
use asyncflow_cpp.Pool.{Pool, Range}
use asyncflow_cpp.Pool.Scheduling.{
  Choice, idle, cancelled, paused, selects, reassign_procs, resize, unpaused,
  clone_sessions_map2vector, next_slot, choose, serve, turn,
}
use asyncflow_cpp.Pool.Shares.{
  Busy, reassigned, reassign_procs_lem, resize_lem, get_elem-none, get_elem-some,
}

-- The pool's threads are running: the counts agree and are not 0.
pub record IsRunning {C : Type 0} (p : Pool C) : Type 0 where
  pub some_cpu : 0 < p.num_cpus
  pub agree : p.tpcfg.actual_threads_count ≡ p.num_cpus

module _ {C : Type 0} where
  -- What a turn of worker `selector` in `p` may answer, and which sessions are to be served then.
  abbrev pub Answers : ℕ → Pool C → Pool C → Choice → Type 0
  Answers selector p q idle =
      ((p.tpcfg.required_threads_count ≡ 0) ⊎ (length p.online_sessions ≤ selector))
      × (q.online_sessions ≡ p.online_sessions)
  Answers selector p q (cancelled a) =
      (get_elem? p.online_sessions selector ≡ some a)
      × (Session.cancellation_requested (p.store a) ≡ true)
      × (q.online_sessions ≡ unpaused p.store p.all_sessions)
  Answers selector p q (paused a) =
      (get_elem? p.online_sessions selector ≡ some a)
      × (Session.cancellation_requested (p.store a) ≡ false)
      × (Session.is_paused (p.store a) ≡ true)
      × (q.online_sessions ≡ p.online_sessions)
  Answers selector p q (selects a) =
      (get_elem? p.online_sessions selector ≡ some a)
      × (Session.cancellation_requested (p.store a) ≡ false)
      × (Session.is_paused (p.store a) ≡ false)
      × (q.online_sessions ≡ p.online_sessions)

  -- The rest of the pool stays, and the next turn shares out the sessions that there are now.
  pub record Keeps (p q : Pool C) : Type 0 where
    pub same_store : q.store ≡ p.store
    pub same_sessions : q.all_sessions ≡ p.all_sessions
    pub same_collector : q.gc ≡ p.gc
    pub counted : q.tpcfg.required_threads_count ≡ length q.online_sessions
    pub still : IsRunning q

  abbrev Served : ℕ → Pool C → Outcome (Pool C × Choice) → Type 0
  Served selector p r =
      (q : Pool C) × (c : Choice) × (r ≡ done (q, c)) × Answers selector p q c × Keeps p q

  serve_lem :
      (selector : ℕ) (p : Pool C) (vect : List Range) (a : Ptr)
      → IsRunning p
      → length vect ≡ p.num_cpus
      → get_elem? p.online_sessions selector ≡ some a
      → Served selector p (serve (reassigned p (length p.online_sessions) vect) a)
  unfolding serve clone_sessions_map2vector
  serve_lem selector p vect a v l e =
      elim (Bool-cases (Session.cancellation_requested (p.store a)))
        as (λ _. Served selector p (serve (reassigned p (length p.online_sessions) vect) a)) [
          | inl asked ↦
              let c = clone_sessions_map2vector (reassigned p (length p.online_sessions) vect) in
              let (rs, re, _, _) =
                reassign_procs_lem
                  (record (p.tpcfg) { required_threads_count = length p.online_sessions })
                  (length c.online_sessions) c v.some_cpu l in
              (
                reassigned c (length c.online_sessions) rs,
                cancelled a,
                rw (asked, serve) (rw (re, ◌>>=◌)),
                (e, asked, refl),
                keeps c rs (length c.online_sessions) refl refl refl refl v.some_cpu v.agree,
              )
          | inr not_asked ↦
              elim (Bool-cases (Session.is_paused (p.store a)))
                as (λ _.
                  Served selector p (serve (reassigned p (length p.online_sessions) vect) a)) [
                    | inl stopped ↦ (
                      reassigned p (length p.online_sessions) vect,
                      paused a,
                      rw (not_asked, serve) (rw (stopped, serve)),
                      (e, not_asked, stopped, refl),
                      keeps p vect (length p.online_sessions) refl refl refl refl v.some_cpu
                          v.agree,
                    )
                    | inr running ↦ (
                      reassigned p (length p.online_sessions) vect,
                      selects a,
                      rw (not_asked, serve) (rw (running, serve)),
                      (e, not_asked, running, refl),
                      keeps p vect (length p.online_sessions) refl refl refl refl v.some_cpu
                          v.agree,
                    )
                  ]
        ]
    where
      keeps :
          (c : Pool C) (rs : List Range) (k : ℕ)
          → k ≡ length c.online_sessions
          → c.store ≡ p.store
          → c.all_sessions ≡ p.all_sessions
          → c.gc ≡ p.gc
          → 0 < c.num_cpus
          → c.tpcfg.actual_threads_count ≡ c.num_cpus
          → Keeps p (reassigned c k rs)
      keeps c rs k counted store sessions gc cpu agree = record {
        same_store = store;
        same_sessions = sessions;
        same_collector = gc;
        counted = counted;
        still = record { some_cpu = cpu; agree = agree };
      }

  resized :
      (p : Pool C)
      → IsRunning p
      → (rs : List Range) × (reassign_procs p.tpcfg (length p.online_sessions) (resize p)
          ≡ done (reassigned p (length p.online_sessions) rs))
        × (length rs ≡ p.num_cpus)
        × Busy p.tpcfg rs
  resized p v =
      let (rs, re, len, busy) =
        reassign_procs_lem p.tpcfg (length p.online_sessions) (resize p) (rw same_cpus v.some_cpu)
          (resize_lem p ∙ v.agree ∙ sym same_cpus) in
      (rs, re ∙ ap done (same rs), len ∙ same_cpus, busy)
    where
      same_cpus : (resize p).num_cpus ≡ p.num_cpus
      same_cpus = unfold resize in ground arith

      same :
          (rs : List Range)
          → reassigned (resize p) (length p.online_sessions) rs
            ≡ reassigned p (length p.online_sessions) rs
      same rs = unfold resize in ground arith

  -- A turn of a worker of a running pool returns, and never reads behind the end of a vector. It
  -- is idle only if the turn before found no session to serve or there is none at the worker's own
  -- index; otherwise it takes the session at that index: one that is to be cancelled is not
  -- served, and then the list of those to serve is made again of the registered sessions that are
  -- not paused; a paused one is not served either; any other one is. It changes no session, and
  -- the next turn shares out the sessions that there are then.
  pub turn_lem :
      (selector slot : ℕ) (p : Pool C)
      → IsRunning p
      → (q : Pool C) × (s : ℕ) × (c : Choice) × (turn selector slot p ≡ done (q, s, c))
        × Answers selector p q c
        × Keeps p q
  unfolding turn
  turn_lem selector slot p v = go vect busy len re
    where
      open (resized p v) use {«0» as vect, «1» as re, «2» as len, «3» as busy}

      k : ℕ
      k = length p.online_sessions

      Turned : Type 0
      Turned =
          (q : Pool C) × (s : ℕ) × (c : Choice) × (turn selector slot p ≡ done (q, s, c))
          × Answers selector p q c
          × Keeps p q

      rests : (rs : List Range) → Keeps p (reassigned p k rs)
      rests rs = record {
        same_store = refl;
        same_sessions = refl;
        same_collector = refl;
        counted = refl;
        still = record { some_cpu = v.some_cpu; agree = v.agree };
      }

      go :
          (rs : List Range)
          → Busy p.tpcfg rs
          → length rs ≡ p.num_cpus
          → reassign_procs p.tpcfg k (resize p) ≡ done (reassigned p k rs)
          → Turned
      go [] b l e = absurd b
      go (r ∷ rs) (inl (z, nothing)) l e =
          (_, slot, idle, rw (e, turn) (rw (nothing, turn)), (inl z, refl), rests (r ∷ rs))
      go (r ∷ rs) (inr (z, filled)) l e = at_index (get_elem? p.online_sessions selector) refl
        where
          at_index : (o : Option Ptr) → get_elem? p.online_sessions selector ≡ o → Turned
          at_index none o =
              let beyond = get_elem-none p.online_sessions selector o in
              elim (ℕ_discrete (length p.online_sessions) 0) as (λ _. Turned) [
                | yes nil ↦ (
                  _,
                  slot,
                  idle,
                  rw (e, turn) (ground (arith, filled, nil)),
                  (inr beyond, refl),
                  rests (r ∷ rs),
                )
                | no full ↦
                    let chosen : choose selector (reassigned p k (r ∷ rs))
                        ≡ done (reassigned p k (r ∷ rs), idle) =
                      unfold choose in rw (o, choose) in
                    let work : (r.count == 0 || (length p.online_sessions == 0)) ≡ false =
                      ground (arith, filled, full) in
                    (
                      _,
                      next_slot r slot,
                      idle,
                      rw (e, turn) (rw (work, turn) (rw (chosen, turn))),
                      (inr beyond, refl),
                      rests (r ∷ rs),
                    )
              ]
          at_index (some a) o =
              let (q, c, served, answers, keeps) = serve_lem selector p (r ∷ rs) a v l o in
              let inside = get_elem-some p.online_sessions selector a o in
              let chosen : choose selector (reassigned p k (r ∷ rs)) ≡ done (q, c) =
                unfold choose in rw (o, choose) served in
              let work : (r.count == 0 || (length p.online_sessions == 0)) ≡ false =
                ground (arith, filled, inside) in
              (
                q,
                next_slot r slot,
                c,
                rw (e, turn) (rw (work, turn) (rw (chosen, turn))),
                answers,
                keeps,
              )
