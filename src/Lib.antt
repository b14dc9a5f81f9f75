-- ===== src/Lib.antt =====
-- asyncflow-cpp: a thread pool whose workers run sessions; a session feeds each item of its queues
-- through a list of routines.
--
-- The parts, from the bottom up, with the files of the repository (all of them stand in src/):
--   * ControlBlock: CPPAFKControlBlock.cpp and its class in CPPAFKBase.hpp, the flags that ask a session
--     to stop, pause or flush;
--   * Registry: CPPAFKBase.cpp, the map of control blocks, with its mutex and the blocks that live;
--   * Queue: CPPAFKQueue.hpp, the FIFO queue with size limits. Fifo runs it with many readers, as a
--     step relation, and Locking is one thread's calls with begin and commit;
--   * Batching: CPPAFKBatchingQueue.hpp, a queue of batches, with the wrapper of a batch and the loop
--     that disposes of wrappers in Parts. Steps runs any sequence of calls;
--   * Blocking: CPPAFKBatchingQueue2 and 3 of CPPAFKThreadpool.hpp, whose used-up batches wait for
--     their writer;
--   * ThreadpoolQueue: CPPAFKThreadpoolQueue.hpp, the queue that one thread may occupy;
--   * Hybrid: CPPAFKThreadpoolQueueHyb of CPPAFKThreadpool.hpp, a session's data queue, which takes turns
--     between a batching and a blocking queue;
--   * Collector: CPPAFKGarbageCollector of CPPAFKThreadpool.hpp and .cpp;
--   * Session: CPPAFKThreadpoolSession.cpp, what every session keeps, with handlers that are replaced
--     while it runs in Slots;
--   * Composing: CPPAFKComposingSession.cpp, posting, flushing and cancelling. Turn has the parts
--     of `select` (the loop over the routines, cancellation, expiration) and Select the method,
--     which takes items from the data queue and runs the routines on each; Pipeline, Serving,
--     Summaries and Turns are about a whole turn. Starting, Posting and Early follow a new session
--     from its first turn on; Midway and Expiring are the turns that break off;
--   * Pool: CPPAFKThreadpool.cpp. Scheduling shares sessions out among processors and makes the
--     locked part of a worker's turn; Sessions and Control are the methods on sessions, and Worker
--     has the rounds of the workers, whose parts interleave with those of others and with calls;
--     Beginning has the constructor. The sessions stand in a store under their addresses, since
--     the map, the list of sessions to serve and the collector share them. Shutdown interleaves
--     the caller of `shutdown` with the threads that leave their loops, counted by how far they
--     have come. Configuring, Creation, Casting, Serving and Delivery follow a session from the
--     call that creates it, through the calls that cast items to it, to the turns of the worker
--     that serves it; Interleaving has what may happen to other sessions meanwhile, Frames,
--     Arriving, Cleaning and Sparing what that leaves alone, and Among both together.
--     Specification says what the methods do to the identifiers and flags that a caller sees
--     (Views), and Refinement has any sequence of calls; Keeping, Everyone, Effects and
--     Registering are its lemmas. Calling and Leaks follow a session that is cancelled while no
--     worker has chosen it, and Deleting, Dooming and Dangling one that is cancelled between a
--     worker's choice and its turn.
-- Definitions have the names of the C++ methods in snake case; a method's first argument is `this`,
-- which stands last here, and what it changes is returned. Common holds the shared names, 64-bit
-- words as bit patterns (signed tests are slt and sle), and Outcome: a call returns, waits for ever,
-- leaves defined behaviour, or ends the program.
--
-- A method that holds a mutex is one step; a worker chooses a session under the mutex and serves it
-- later, with other steps between. A member that no constructor sets is an argument of the
-- model's constructor. Loops over a deque have fuel one above its length, and a call without
-- fuel counts as one that does not come back, so that a theorem that a call returns says that the
-- fuel was enough.
--
-- The user's routines, summaries and conditions are a parameter, UserCode; a turn of a session is one
-- step, in which other threads do nothing.
--
-- Not modelled: the affinity of threads, and joining them; random identifiers, clocks and logging,
-- which have no part in the logic; the header CPPAFKCondition.hpp, which the repository lacks, so that
-- the type of conditions is a parameter.
mod Common
mod Tests
pub mod ControlBlock
pub mod Registry
pub mod Queue
pub mod Batching
pub mod Blocking
pub mod ThreadpoolQueue
pub mod Hybrid
pub mod Collector
pub mod Session
pub mod Composing
pub mod Pool
