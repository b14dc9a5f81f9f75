-- ===== src/Pool/Scheduling.antt =====
-- CPPAFKThreadpool.cpp: reassignProcs, cloneSessionsMap2Vector, createThreads and the locked part of
-- a turn of `tworker`. Counts are below 2 ^ 63, where signed and unsigned tests agree.
use asyncflow_cpp.Common.{
  ℕ, zero, suc, ◌+◌, ◌-◌, ◌/◌, ◌%◌, ◌^◌, ◌==◌, ◌&&◌, ◌||◌, List, [], ◌∷◌, if◌then◌else◌, ltb, leb,
  length, get_elem?, replicate, add64, uint64_max, Ptr, none, some, Outcome, done, undefined, stuck,
  ◌++◌, ◌>>=◌,
}
use asyncflow_cpp.Session
use asyncflow_cpp.Session.{Session}
use asyncflow_cpp.Pool.{Pool, Config, Range}

abbrev pub no_range : Range
no_range = record { low_bound = 0; count = 0 }

-- The three loops of `reassignProcs`, over `n` processors.
unfoldable pub wrapped_ranges : ℕ → ℕ → ℕ → List Range
wrapped_ranges required proc zero = []
wrapped_ranges required proc (suc n) =
    record { low_bound = proc % required; count = 1 } ∷ wrapped_ranges required (suc proc) n

unfoldable pub even_ranges : ℕ → ℕ → ℕ → ℕ → List Range
even_ranges share residue lb zero = []
even_ranges share residue lb (suc n) =
    let count = share + (if ltb 0 residue then 1 else 0) in
    record { low_bound = lb; count = count } ∷ even_ranges share (residue - 1) (lb + count) n

-- What the loops write, by the configuration they are given; a division by 0 is undefined.
unfoldable pub ranges_for : Config → Outcome (List Range)
unfolding wrapped_ranges even_ranges
ranges_for tpc =
    let required = tpc.required_threads_count in
    let actual = tpc.actual_threads_count in
    if required == 0
    then done (replicate actual no_range)
    else if ltb required actual
    then done (wrapped_ranges required 0 actual)
    else if actual == 0
    then undefined
    else done (even_ranges (required / actual) (required % actual) 0 actual)

-- Writes from index 0 on; one behind the end of the vector is undefined.
unfoldable pub overwrite : List Range → List Range → Outcome (List Range)
overwrite [] vect = done vect
overwrite (r ∷ rs) [] = undefined
overwrite (r ∷ rs) (v ∷ vs) = do rest ← overwrite rs vs; done (r ∷ rest)

-- What a worker goes on with behind the locked part: nothing (`continue`), nothing since the session is
-- to be cancelled, or a session, which is paused or not as it lets the mutex go.
pub data Choice : Type 0 where
  idle : Choice
  cancelled paused selects : Ptr → Choice

unfoldable pub next_slot : Range → ℕ → ℕ
next_slot tcr slot =
    let s = add64 slot 1 in
    if leb tcr.low_bound s && ltb s (add64 tcr.count tcr.low_bound) then s else tcr.low_bound

-- The arguments that the running threads got as their selectors, and `shutdownCont`, of 16 bits.
pub record Threads : Type 0 where
  pub selectors : List ℕ
  pub shutdown_cont : ℕ

-- The loop of `createThreads` from `i` on, with `n` threads to start.
unfoldable pub start_threads : ℕ → ℕ → Threads → Threads
start_threads zero i t = t
start_threads (suc n) i t =
    start_threads n (suc i)
      (record { selectors = t.selectors ++ i ∷ []; shutdown_cont = (t.shutdown_cont + 1) % 2 ^ 16 })

module _ {C : Type 0} where
  -- `tpc` is a copy of `tpcfg` that every caller drops; it is read for the count that is required,
  -- which the call sets in `tpcfg` alone.
  unfoldable pub reassign_procs : Config → ℕ → Pool C → Outcome (Pool C)
  unfolding ranges_for overwrite
  reassign_procs tpc req_threads p = do
    ranges ← ranges_for (record tpc { actual_threads_count = p.num_cpus })
    vect ← overwrite ranges p.vect_proc2_bounds
    done (record p {
      tpcfg = record (p.tpcfg) { required_threads_count = req_threads };
      vect_proc2_bounds = vect;
    })

  unfoldable pub unpaused : (Ptr → Session C) → List (ℕ × Ptr) → List Ptr
  unpaused store [] = []
  unpaused store ((id, a) ∷ m) =
      if Session.is_paused (store a) then unpaused store m else a ∷ unpaused store m

  unfoldable pub clone_sessions_map2vector : Pool C → Pool C
  unfolding unpaused
  clone_sessions_map2vector p = record p { online_sessions = unpaused p.store p.all_sessions }

  -- `hardware` is std::thread::hardware_concurrency(). The threads are as many as the 64-bit word says,
  -- and the counts its lower 16 bits. No `unsigned int` ends the loop where it is 2 ^ 32 or more.
  unfoldable pub create_threads : ℕ → ℕ → ℕ → Pool C → Outcome (Pool C × Threads)
  unfolding start_threads
  create_threads hardware asked cont p =
      let num_procs = if asked == uint64_max || asked == 0 then hardware else asked in
      let cpus = num_procs % 2 ^ 16 in
      let threads = start_threads num_procs 0 (record { selectors = []; shutdown_cont = cont }) in
      if cpus == 0
      then undefined
      else if ltb num_procs (2 ^ 32)
      then done (
        record p {
          num_cpus = cpus;
          tpcfg = record {
            actual_threads_count = cpus;
            required_threads_count = cpus;
            residue = cpus % cpus;
            share = cpus / cpus;
          };
        },
        threads,
      )
      else stuck

  unfoldable pub resize : Pool C → Pool C
  resize p =
      if length p.vect_proc2_bounds == p.tpcfg.actual_threads_count
      then p
      else record p { vect_proc2_bounds = replicate p.tpcfg.actual_threads_count no_range }

  -- The session at an index that is in bounds.
  unfoldable pub serve : Pool C → Ptr → Outcome (Pool C × Choice)
  unfolding reassign_procs clone_sessions_map2vector
  serve p a =
      if Session.cancellation_requested (p.store a)
      then (do
        let q = clone_sessions_map2vector p
        r ← reassign_procs p.tpcfg (length q.online_sessions) q
        done (r, cancelled a))
      else done (p, if Session.is_paused (p.store a) then paused a else selects a)

  unfoldable pub choose : ℕ → Pool C → Outcome (Pool C × Choice)
  unfolding serve
  choose selector p = elim (get_elem? p.online_sessions selector) [
    | none ↦ done (p, idle)
    | some a ↦ serve p a
  ]

  -- `slot` is the variable `selectedSlot`, and the index of the bounds that are read is 0 in every
  -- thread.
  unfoldable pub turn : ℕ → ℕ → Pool C → Outcome (Pool C × ℕ × Choice)
  unfolding reassign_procs resize next_slot choose
  turn selector slot p = do
    q ← reassign_procs p.tpcfg (length p.online_sessions) (resize p)
    elim (get_elem? q.vect_proc2_bounds 0) [
      | none ↦ undefined
      | some tcr ↦
          if tcr.count == 0 || (length q.online_sessions == 0)
          then done (q, slot, idle)
          else (do (r, c) ← choose selector q; done (r, next_slot tcr slot, c))
    ]
