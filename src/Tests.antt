-- ===== src/Tests.antt =====
-- Tests: each theorem at a concrete state of the program.
mod Blocks
mod Queues
mod Batches
mod Mixed
mod Sessions
mod Pools
mod Turns
mod Workers
mod Endings
mod Breaks
mod Deliveries
mod Views
mod Races
mod Among
