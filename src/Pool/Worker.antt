-- ===== src/Pool/Worker.antt =====
-- CPPAFKThreadpool.cpp, tworker: the rounds of the workers while the pool is not shut down. The disposal,
-- the section under `lkMutex1` and a session's turn are one step each.
use asyncflow_cpp.Common.{
  ℕ, ◌≡◌, Bool, false, List, [], ◌∷◌, ◌++◌, if◌then◌else◌, Ptr, Outcome, done, ◌>>=◌,
}
use asyncflow_cpp.Batching.{Wrap}
use asyncflow_cpp.Collector
use asyncflow_cpp.Collector.{Collector, Disposed}
use asyncflow_cpp.Session
use asyncflow_cpp.Session.{Session}
use asyncflow_cpp.Composing.{QueueGarbage}
use asyncflow_cpp.Composing.Turn.{UserCode}
use asyncflow_cpp.Composing.Select.{select}
use asyncflow_cpp.Pool.{Pool}
use asyncflow_cpp.Pool.Scheduling.{Choice, idle, cancelled, paused, selects, turn}
use asyncflow_cpp.Pool.Control.{collect, pause_session, resume_session, cancel_session}
use asyncflow_cpp.Pool.Sessions.{cast_object_for_session}

-- The user's code, the memory of a new data queue, the rounds that a session's turn may take, and
-- where a wrapper is.
pub record Setting (C : Type 0) : Type 0 where
  pub code : UserCode C
  pub garbage : QueueGarbage
  pub fuel : ℕ
  pub address : Wrap Ptr → Ptr

-- The session that a worker goes on with, when it lets `lkMutex1` go.
unfoldable pub chosen : Choice → List Ptr
chosen idle = []
chosen (cancelled a) = []
chosen (paused a) = a ∷ []
chosen (selects a) = a ∷ []

-- The pool, and the sessions that some worker has chosen and not served yet.
pub record Workers (C : Type 0) : Type 0 where
  pub pool : Pool C
  pub waiting : List Ptr

module _ {C : Type 0} where
  abbrev pub is_marked : Pool C → Ptr → Bool
  is_marked p a = Session.is_cancelled (p.store a)

  -- One worker at a time disposes. The sessions that were deleted are returned; the flush in a
  -- session's destructor is the base class's, which gives the collector nothing.
  unfoldable pub clean_up : Pool C → Outcome (Pool C × List Ptr)
  clean_up p = if p.gc.active then done (p, []) else (do
    d ← Collector.dispose (is_marked p) p.gc
    done (record p { gc = record (d.collector) { active = false } }, d.sessions))

  unfoldable pub serve_session : Setting C → Ptr → Pool C → Outcome (Pool C)
  serve_session v a p = do
    (t, status) ←
        select v.code v.garbage 0 v.fuel
          (record { state = p.store a; user_data = []; wrappers = []; calls = [] })
    done (
        collect v.address a
          (record { state = t.state; user_data = t.user_data; wrappers = t.wrappers }) p)

  -- Without the mutex: whether the session is paused is read only now.
  unfoldable pub serve_chosen : Setting C → Ptr → Pool C → Outcome (Pool C)
  unfolding serve_session
  serve_chosen v a p = if Session.is_paused (p.store a) then done p else serve_session v a p

  -- A call by another thread, about any session.
  pub data Calls (p : Pool C) : Pool C → Type 0 where
    pauses : (id : ℕ) → Calls p (pause_session id p).0
    resumes : (id : ℕ) → Calls p (resume_session id p).0
    cancels : (id : ℕ) → Calls p (cancel_session id p).0
    casts : (id : ℕ) (x : Ptr) → Calls p (cast_object_for_session id x p).0

  -- One part of some worker's round, with the sessions that it deletes. Between the parts of one
  -- worker's round, others do theirs, and callers make calls.
  pub data Step (v : Setting C) (s : Workers C) : List Ptr → Workers C → Type 0 where
    disposes :
        {q : Pool C} {freed : List Ptr}
        → clean_up s.pool ≡ done (q, freed)
        → Step v s freed (record s { pool = q })
    looks :
        {q : Pool C} {c : Choice} (selector slot next : ℕ)
        → turn selector slot s.pool ≡ done (q, next, c)
        → Step v s [] (record { pool = q; waiting = s.waiting ++ chosen c })
    calls : {q : Pool C} → Calls s.pool q → Step v s [] (record s { pool = q })
    serves :
        {q : Pool C} (a : Ptr) (before after : List Ptr)
        → s.waiting ≡ before ++ a ∷ after
        → serve_chosen v a s.pool ≡ done q
        → Step v s [] (record { pool = q; waiting = before ++ after })

  -- What rounds of any workers leave, and the sessions deleted meanwhile.
  pub data Works (v : Setting C) (s : Workers C) : List Ptr → Workers C → Type 0 where
    rests : Works v s [] s
    works :
        {fs gs : List Ptr} {t u : Workers C}
        → Works v s fs t
        → Step v t gs u
        → Works v s (fs ++ gs) u
