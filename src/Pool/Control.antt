-- ===== src/Pool/Control.antt =====
-- CPPAFKThreadpool.cpp: pausing, resuming, flushing and cancelling sessions, and what the pool says of
-- them.
use asyncflow_cpp.Common.{
  ℕ, Bool, true, false, List, [], ◌∷◌, ◌++◌, if◌then◌else◌, length, map, add64, sub64, Ptr, none,
  some, Outcome, done, ◌>>=◌,
}
use asyncflow_cpp.Batching.{Wrap}
use asyncflow_cpp.Registry.{find, erase}
use asyncflow_cpp.Queue
use asyncflow_cpp.Queue.{Queue}
use asyncflow_cpp.Session
use asyncflow_cpp.Session.{Session}
use asyncflow_cpp.Composing
use asyncflow_cpp.Composing.{Flushed}
use asyncflow_cpp.Pool.{Pool, write}

-- Every item is cast into a queue of the collector.
unfoldable pub cast_all : List Ptr → Queue Ptr → Queue Ptr
unfolding Queue.cast_object
cast_all [] q = q
cast_all (x ∷ xs) q = cast_all xs (Queue.cast_object x q).0

some_session : List (ℕ × Ptr) → Bool
some_session [] = false
some_session (_ ∷ _) = true

sessions_of : List (ℕ × Ptr) → List ℕ
sessions_of [] = []
sessions_of ((id, a) ∷ m) = id ∷ sessions_of m

module _ {C : Type 0} where
  unfoldable pub pause_at : Ptr → Pool C → Pool C
  unfolding Session.pause
  pause_at a p = record p {
    store = write a (Session.pause (p.store a)) p.store;
    count_paused = add64 p.count_paused 1;
  }

  unfoldable pub resume_at : Ptr → Pool C → Pool C
  unfolding Session.resume
  resume_at a p = record p {
    store = write a (Session.resume (p.store a)) p.store;
    count_paused = sub64 p.count_paused 1;
  }

  unfoldable pub pause_session : ℕ → Pool C → Pool C × Bool
  unfolding pause_at
  pause_session id p = elim (find id p.all_sessions) [
    | none ↦ (p, false)
    | some a ↦ (pause_at a p, true)
  ]

  unfoldable pub resume_session : ℕ → Pool C → Pool C × Bool
  unfolding resume_at
  resume_session id p = elim (find id p.all_sessions) [
    | none ↦ (p, false)
    | some a ↦ (resume_at a p, true)
  ]

  unfoldable pub each : (Ptr → Pool C → Pool C) → List (ℕ × Ptr) → Pool C → Pool C
  each f [] p = p
  each f ((id, a) ∷ m) p = each f m (f a p)

  unfoldable pub pause_all : Pool C → Pool C × Bool
  unfolding each pause_at some_session
  pause_all p = (each pause_at p.all_sessions p, some_session p.all_sessions)

  unfoldable pub resume_all : Pool C → Pool C × Bool
  unfolding each resume_at some_session
  resume_all p = (each resume_at p.all_sessions p, some_session p.all_sessions)

  -- The method that this version refuses.
  pub cancel_all : Pool C → Pool C × Bool
  cancel_all p = (p, false)

  -- The session stays in the list of those to serve, and goes to the collector.
  unfoldable pub cancel_session : ℕ → Pool C → Pool C × Bool
  unfolding Composing.cancel Queue.cast_object
  cancel_session id p = elim (find id p.all_sessions) [
    | none ↦ (p, false)
    | some a ↦ (
      record p {
        count_paused =
            if Session.is_paused (p.store a) then sub64 p.count_paused 1 else p.count_paused;
        store = write a (Composing.cancel (p.store a)) p.store;
        all_sessions = erase id p.all_sessions;
        gc = record (p.gc) { killed_sessions = (Queue.cast_object a (p.gc.killed_sessions)).0 };
      },
      true,
    )
  ]

  -- What a flush of a session collected goes to the collector; `address` is where a wrapper is.
  unfoldable pub collect : (Wrap Ptr → Ptr) → Ptr → Flushed C → Pool C → Pool C
  unfolding cast_all
  collect address a f p = record p {
    store = write a f.state p.store;
    gc = record (p.gc) {
      user_data_collection = cast_all f.user_data (p.gc.user_data_collection);
      wrapper_collection = cast_all (map address f.wrappers) (p.gc.wrapper_collection);
    };
  }

  unfoldable pub flush_session : (Wrap Ptr → Ptr) → ℕ → Pool C → Outcome (Pool C × Bool)
  unfolding Composing.flush collect
  flush_session address id p = elim (find id p.all_sessions) [
    | none ↦ done (p, false)
    | some a ↦ do f ← Composing.flush (p.store a); done (collect address a f p, true)
  ]

  flush_each : (Wrap Ptr → Ptr) → List (ℕ × Ptr) → Pool C → Outcome (Pool C)
  unfolding Composing.flush collect
  flush_each address [] p = done p
  flush_each address ((id, a) ∷ m) p = do
    f ← Composing.flush (p.store a)
    flush_each address m (collect address a f p)

  unfoldable pub flush_all : (Wrap Ptr → Ptr) → Pool C → Outcome (Pool C)
  unfolding flush_each
  flush_all address p = flush_each address p.all_sessions p

  pub running_sessions_count : Pool C → ℕ
  running_sessions_count p = length p.online_sessions

  unfoldable pub paused_sessions_count : Pool C → ℕ
  paused_sessions_count p = p.count_paused

  pub total_sessions_count : Pool C → ℕ
  total_sessions_count p = length p.all_sessions

  unfoldable pub is_paused_session : ℕ → Pool C → Bool
  is_paused_session id p = elim (find id p.all_sessions) [
    | none ↦ false
    | some a ↦ Session.is_paused (p.store a)
  ]

  unfoldable pub is_busy_session : ℕ → Pool C → Bool
  unfolding Composing.is_busy
  is_busy_session id p = elim (find id p.all_sessions) [
    | none ↦ false
    | some a ↦ Composing.is_busy (p.store a)
  ]

  any_busy : (Ptr → Session C) → List (ℕ × Ptr) → Bool
  unfolding Composing.is_busy
  any_busy store [] = false
  any_busy store ((id, a) ∷ m) = if Composing.is_busy (store a) then true else any_busy store m

  pub is_busy : Pool C → Bool
  unfolding any_busy
  is_busy p = any_busy p.store p.all_sessions

  -- The identifiers are appended to the vector that the caller passes.
  pub get_threadpool_sessions_list : List ℕ → Pool C → List ℕ
  unfolding sessions_of
  get_threadpool_sessions_list out p = out ++ sessions_of p.all_sessions

  unfoldable pub items_count_for_session : ℕ → Pool C → Pool C × ℕ
  unfolding Composing.get_data_items_count
  items_count_for_session id p = elim (find id p.all_sessions) [
    | none ↦ (p, 0)
    | some a ↦ (
      record p { store = write a (Composing.get_data_items_count (p.store a)).0 p.store },
      (Composing.get_data_items_count (p.store a)).1,
    )
  ]
