-- ===== src/Scheduler.antt =====
-- scheduler.rs and priority_tup.rs: which task of a recording runs next.
pub mod PrioritySet
mod Entries
mod State
mod Placed
mod Moves
mod Keep
mod Queue
mod Clear
mod Reachable
mod Runnable
mod Search
mod Find
mod Timeslice
mod Choose
mod Ready
mod Rounds
mod Chosen
mod Waiting
mod Reschedule
mod WaitKept
mod WaitFails
mod Returns
mod Examples
