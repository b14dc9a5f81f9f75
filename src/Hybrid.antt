-- ===== src/Hybrid.antt =====
-- CPPAFKThreadpool.hpp, CPPAFKThreadpoolQueueHyb: a session's queue. `qmapper` says from which of two
-- queues the next items come: the batching queue `regQ`, or the blocking queue `blkQ`, which exists
-- where the session allows blocking calls. A call that would sleep with `lock` held is stuck.
pub mod Order
pub mod Pulling
use asyncflow_cpp.Common.{
  ℕ, ◌==◌, Bool, true, false, List, [], ◌∷◌, ◌++◌, if◌then◌else◌, slt, length, add64, sub64, Ptr,
  null, Option, none, some, Outcome, done, stuck, ◌>>=◌, ptr_item,
}
use asyncflow_cpp.Batching
use asyncflow_cpp.Batching.{Batching, Wrap}
use asyncflow_cpp.Blocking
use asyncflow_cpp.Blocking.{Blocking}
use asyncflow_cpp.ThreadpoolQueue
use asyncflow_cpp.ThreadpoolQueue.{TpQueue, QStatus, minus_one, is_taken, is_nil}

pub data Spec : Type 0 where
  unknown reg bat : Spec

pub data CallMode : Type 0 where
  no_block wait_for_first wait_for_last : CallMode

pub record Hybrid : Type 0 where
  pub base : TpQueue
  pub open base use *
  pub qmapper : List (Spec × ℕ)
  pub last_item : Spec
  pub blk_q : Option (Blocking Ptr)
  pub reg_q : Batching Ptr

has_blocking : CallMode → Bool
has_blocking no_block = false
has_blocking _ = true

-- No constructor sets `occupant` or `lastItem`.
unfoldable pub new : ℕ → Spec → CallMode → Hybrid
unfolding has_blocking ThreadpoolQueue.new Batching.new Blocking.new
new garbage spec mode = record {
  base = record blank { queue = record (blank.queue) { blocking_w = has_blocking mode } };
  qmapper = [];
  last_item = spec;
  blk_q = if has_blocking mode then some (Blocking.new true) else none;
  reg_q = Batching.new false;
}
  where
    blank : TpQueue
    blank = ThreadpoolQueue.new garbage

unfoldable pub get_residual : Hybrid → Hybrid × Option (Wrap Ptr)
unfolding Blocking.pull_deferred
get_residual h = elim h.blk_q [
  | none ↦ (h, none)
  | some b ↦ let (b', w) = Blocking.pull_deferred b in (record h { blk_q = some b' }, w)
]

on_blocking : (Blocking Ptr → Blocking Ptr) → Hybrid → Hybrid
on_blocking f h = elim h.blk_q [ none ↦ h | some b ↦ record h { blk_q = some (f b) } ]

unfoldable pub release_blocked : Hybrid → Hybrid
unfolding on_blocking Blocking.release_first
release_blocked h = on_blocking Blocking.release_first h

unfoldable pub release_blocked_all : Hybrid → Hybrid
unfolding on_blocking Blocking.release_all
release_blocked_all h = on_blocking Blocking.release_all h

-- `reset` of the base class calls the `_reset` of this class, which keeps the items.
unfoldable pub reset : Hybrid → Hybrid
unfolding release_blocked_all
reset h = let r = release_blocked_all h in record r { base = record (r.base) { deq_indexes = [] } }

blocking_size : Hybrid → Hybrid × ℕ
unfolding Blocking.size
blocking_size h = elim h.blk_q [
  | none ↦ (h, 0)
  | some b ↦ let (b', n) = Blocking.size b in (record h { blk_q = some b' }, n)
]

-- `_size`: each `size` also disposes of wrappers.
unfoldable pub size : Hybrid → Hybrid × ℕ
unfolding blocking_size Batching.size
size h =
    let (h', n) = blocking_size h in
    let (r, m) = Batching.size h'.reg_q in (record h' { reg_q = r }, add64 m n)

unfoldable pub cast_object : Ptr → ℕ → Hybrid → Hybrid × Bool
unfolding Batching.cast_object
cast_object item index h = (
  record h {
    base = record (h.base) { deq_indexes = h.deq_indexes ++ index ∷ [] };
    qmapper = h.qmapper ++ (reg, 1) ∷ [];
    reg_q = (Batching.cast_object item h.reg_q).0;
  },
  true,
)

unfoldable pub cast_vector : List Ptr → ℕ → Hybrid → Hybrid × Bool
unfolding Batching.cast_vector
cast_vector items index h = elim items [
  | [] ↦ (h, true)
  | x ∷ xs ↦ (
    record h {
      qmapper = h.qmapper ++ (reg, length (x ∷ xs)) ∷ [];
      reg_q = (Batching.cast_vector (x ∷ xs) h.reg_q).0;
    },
    true,
  )
]

pub call_object : Ptr → ℕ → Hybrid → Hybrid × Bool
call_object item index h = (h, false)

pub call_vector : List Ptr → ℕ → Hybrid → Hybrid × Bool
call_vector items index h = (h, false)

-- What pullAndOccupyWithId leaves.
pub record Got : Type 0 where
  pub state : Hybrid
  pub item : Ptr
  pub item_index : ℕ
  pub qstat : QStatus

-- The front entry of `qmapper`, with one item less to come.
count_down : Spec → ℕ → List (Spec × ℕ) → List (Spec × ℕ)
count_down spec n rest = if slt 0 (sub64 n 1) then (spec, sub64 n 1) ∷ rest else rest

from_reg : Hybrid → ℕ → List (Spec × ℕ) → QStatus → Batching.Pull Ptr → Outcome Got
unfolding count_down
from_reg h n rest qstat (Batching.Pull.asleep r) = stuck
from_reg h n rest qstat (Batching.Pull.returned r x true) = done (record {
  state = record h { reg_q = r; qmapper = count_down reg n rest };
  item = x;
  item_index = n;
  qstat = record qstat { validrv = true };
})
from_reg h n rest qstat (Batching.Pull.returned r x false) =
    done
      (record { state = record h { reg_q = r }; item = x; item_index = minus_one; qstat = qstat })

nothing : Hybrid → QStatus → Got
nothing h qstat = record { state = h; item = null; item_index = minus_one; qstat = qstat }

take_reg : Hybrid → ℕ → List (Spec × ℕ) → QStatus → Outcome Got
unfolding from_reg nothing Batching.size Batching.pull
take_reg h n rest qstat =
    let r = (Batching.size h.reg_q).0 in
    let h' = record h { reg_q = r } in
    if slt 0 (Batching.size h.reg_q).1
    then (do p ← Batching.pull r; from_reg h' n rest qstat p)
    else done (nothing h' qstat)

from_blk : Hybrid → ℕ → List (Spec × ℕ) → QStatus → Spec → Blocking.Got Ptr → Got
unfolding count_down
from_blk h n rest qstat spec g =
    if g.success
    then record {
      state = record h { blk_q = some g.state; qmapper = count_down spec n rest };
      item = g.item;
      item_index = n;
      qstat = record qstat { validrv = true; called = true; endbatch = g.end_batch };
    }
    else record {
      state = record h { blk_q = some g.state };
      item = g.item;
      item_index = minus_one;
      qstat = record qstat { endbatch = g.end_batch };
    }

take_blk : Hybrid → Spec → ℕ → List (Spec × ℕ) → QStatus → Got
unfolding from_blk nothing Blocking.pull_and_batch_status
take_blk h spec n rest qstat = elim h.blk_q [
  | none ↦ nothing h qstat
  | some b ↦
      from_blk (record h { last_item = bat }) n rest qstat spec
        (Blocking.pull_and_batch_status false b)
]

-- The front entry's `second` is lowered in place, so the entry keeps its kind.
take_next : Hybrid → QStatus → Spec → ℕ → List (Spec × ℕ) → Outcome Got
unfolding take_reg take_blk
take_next h qstat reg n rest = take_reg (record h { last_item = reg }) n rest qstat
take_next h qstat bat n rest = done (take_blk h bat n rest qstat)
take_next h qstat unknown n rest = done (take_blk h unknown n rest qstat)

occupy : ℕ → Hybrid → Hybrid
occupy id h = record h { base = record (h.base) { occupant = id } }

-- Who occupies the queue behind a call, and what the call says of the rest.
settle : ℕ → Got → Got
unfolding occupy
settle itsid g =
    if g.qstat.validrv
    then (let s = size g.state in
        if slt 0 s.1
        then record g { state = occupy itsid s.0; qstat = record (g.qstat) { empty = false } }
        else record g {
          state = occupy minus_one s.0;
          qstat = record (g.qstat) { empty = true; endbatch = true };
        })
    else record g {
      state = occupy minus_one g.state;
      qstat = record (g.qstat) { empty = true; endbatch = true };
    }

unfoldable pub pull_and_occupy_with_id : ℕ → Hybrid → QStatus → Outcome Got
unfolding take_next settle nothing size
pull_and_occupy_with_id itsid h qstat =
    let qs = record qstat { endbatch = false; validrv = false } in
    if is_taken h.occupant itsid
    then (let s = size h in
        done (nothing s.0 (record qs { empty = if slt 0 s.1 then false else true })))
    else elim h.qmapper [
      | [] ↦
          done (
            nothing (record h { last_item = unknown })
              (record qs { empty = true; endbatch = true }))
      | (spec, n) ∷ rest ↦ do g ← take_next h qs spec n rest; done (settle itsid g)
    ]

-- Inherited; it calls the method above.
unfoldable pub pull : Hybrid → Outcome (Hybrid × Ptr × Bool)
unfolding pull_and_occupy_with_id ThreadpoolQueue.new_status
pull h = do
  g ← pull_and_occupy_with_id minus_one h ThreadpoolQueue.new_status
  done (g.state, g.item, if g.item == null then false else true)

unfoldable pub unoccupy : Hybrid → Hybrid
unfolding occupy
unoccupy h = occupy minus_one h

-- `flush` of this class does nothing.
pub flush : Hybrid → Hybrid
flush h = h

reset_blocking : Option (Blocking Ptr) → Outcome (Option (Blocking Ptr))
unfolding Batching.reset
reset_blocking none = done none
reset_blocking (some b) = do c ← Batching.reset b.batching; done (some (record b { batching = c }))

-- The destructor resets both queues, the blocking one first.
pub destroy : Hybrid → Outcome Hybrid
unfolding reset_blocking Batching.reset
destroy h = do
  b ← reset_blocking h.blk_q
  r ← Batching.reset h.reg_q
  done (record h { blk_q = b; reg_q = r })
