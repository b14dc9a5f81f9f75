-- ===== src/Collector.antt =====
-- CPPAFKThreadpool.hpp and .cpp, CPPAFKGarbageCollector: three queues of what is to be deleted, which
-- a worker empties in portions. Of a session only its address and isCancelled() matter here.
pub mod Disposal
use asyncflow_cpp.Common.{
  ℕ, zero, suc, Bool, true, false, List, [], ◌∷◌, ◌++◌, if◌then◌else◌, Item, Ptr, ptr_item, length,
  Outcome, done, stuck, ◌>>=◌,
}
use asyncflow_cpp.Queue
use asyncflow_cpp.Queue.{Queue}
use asyncflow_cpp.Batching.{Wrap, new_wrap}

abbrev pub data_releasing_batch_size : ℕ
data_releasing_batch_size = 1000

pub record Collector : Type 0 where
  pub active : Bool
  pub user_data_collection : Queue Ptr
  pub wrapper_collection : Queue Ptr
  pub killed_sessions : Queue Ptr

unfoldable pub new : Collector
unfolding Queue.new
new = record {
  active = false;
  user_data_collection = Queue.new false;
  wrapper_collection = Queue.new false;
  killed_sessions = Queue.new false;
}

-- One call of `pull` on a queue whose reads do not block.
pull_now : Queue Ptr → Outcome (Queue Ptr × Ptr × Bool)
unfolding Queue.pull
pull_now q = elim (Queue.pull q) [
  | Queue.Pull.returned q' x success ↦ done (q', x, success)
  | Queue.Pull.asleep q' ↦ stuck
]

-- A queue and what was taken out of it, oldest first.
abbrev pub Taken : Type 0
Taken = Queue Ptr × List Ptr

took : Ptr → Outcome Taken → Outcome Taken
took x rest = do t ← rest; done (t.0, x ∷ t.1)

-- `for(t=0;t<n;++t)`, left at the first failure.
unfoldable pub release_batch : ℕ → Queue Ptr → Outcome Taken
unfolding pull_now took
release_batch zero q = done (q, [])
release_batch (suc n) q = do
  (q', x, success) ← pull_now q
  let rest = release_batch n q'
  if success then took x rest else done (q', [])

-- `for(t=0;;++t)`; without fuel it would not come back.
unfoldable pub release_every : ℕ → Queue Ptr → Outcome Taken
unfolding pull_now took
release_every zero q = stuck
release_every (suc fuel) q = do
  (q', x, success) ← pull_now q
  let rest = release_every fuel q'
  if success then took x rest else done (q', [])

-- Of the sessions taken out, those that are deleted; the others are forgotten.
abbrev pub cancelled_of : (Ptr → Bool) → List Ptr → List Ptr
cancelled_of is_cancelled [] = []
cancelled_of is_cancelled (p ∷ ps) =
    if is_cancelled p then p ∷ cancelled_of is_cancelled ps else cancelled_of is_cancelled ps

-- The collector and the addresses that were deleted.
pub record Disposed : Type 0 where
  pub collector : Collector
  pub user_data : List Ptr
  pub wrappers : List Ptr
  pub sessions : List Ptr

pub gather : (Ptr → Bool) → Collector → (Queue Ptr → Outcome Taken) → Outcome Disposed
gather is_cancelled c release = do
  u ← release c.user_data_collection
  w ← release c.wrapper_collection
  k ← release c.killed_sessions
  done (record {
    collector = record c {
      user_data_collection = u.0;
      wrapper_collection = w.0;
      killed_sessions = k.0;
    };
    user_data = u.1;
    wrappers = w.1;
    sessions = cancelled_of is_cancelled k.1;
  })

unfoldable pub dispose : (Ptr → Bool) → Collector → Outcome Disposed
unfolding gather
dispose is_cancelled c = gather is_cancelled c (release_batch data_releasing_batch_size)

-- Each loop is given one round more than its queue has items.
unfoldable pub dispose_all : (Ptr → Bool) → Collector → Outcome Disposed
unfolding gather
dispose_all is_cancelled c = gather is_cancelled c (λ q. release_every (suc (length q.its_q)) q)
