-- ===== src/Pool.antt =====
-- CPPAFKThreadpool.cpp and .hpp: the thread pool's state. A session is an object that the map, the
-- list of sessions to serve and the collector's queue share, so that it stands in a store under its
-- address. `lkMutex1` makes each method, and the locked part of a worker's turn, one step.
pub mod Scheduling
pub mod Sessions
pub mod Control
pub mod Store
pub mod Views
pub mod Specification
pub mod Keeping
pub mod Everyone
pub mod Effects
pub mod Registering
pub mod Refinement
pub mod Partition
pub mod Shares
pub mod Turns
pub mod Counting
pub mod Lifecycle
pub mod Beginning
pub mod Worker
pub mod Configuring
pub mod Creation
pub mod Casting
pub mod Serving
pub mod Delivery
pub mod Shutdown
pub mod Leaks
pub mod Deleting
pub mod Dooming
pub mod Dangling
pub mod Frames
pub mod Sparing
pub mod Calling
pub mod Cleaning
pub mod Arriving
pub mod Interleaving
pub mod Among
use asyncflow_cpp.Common.{ℕ, ◌==◌, Bool, List, if◌then◌else◌, Ptr}
use asyncflow_cpp.Session.{Session}
use asyncflow_cpp.Collector.{Collector}

-- CPPAFKThreadpoolConfig
pub record Config : Type 0 where
  pub share : ℕ
  pub residue : ℕ
  pub actual_threads_count : ℕ
  pub required_threads_count : ℕ

-- CPPAFKThreadpoolConfigRange; `count` is its `length`.
pub record Range : Type 0 where
  pub low_bound : ℕ
  pub count : ℕ

-- The map's order stands for the order in which the code iterates over it, which nothing fixes.
pub record Pool (C : Type 0) : Type 0 where
  pub store : Ptr → Session C
  pub online_sessions : List Ptr
  pub all_sessions : List (ℕ × Ptr)
  pub gc : Collector
  pub tpcfg : Config
  pub vect_proc2_bounds : List Range
  pub num_cpus : ℕ
  pub count_paused : ℕ

module _ {C : Type 0} where
  abbrev pub write : Ptr → Session C → (Ptr → Session C) → Ptr → Session C
  write p s f q = if p == q then s else f q
