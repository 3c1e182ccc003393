-- ===== src/Scheduler.antt =====
-- miniserve/scheduler.py.
pub mod Sequence
pub mod State
pub mod Submit
pub mod Preemption
pub mod Step
pub mod Heap
pub mod Invariant
mod Queues
mod Retire
mod Requeue
pub mod Sampling
mod Sampled
mod Growth
pub mod Victim
mod Outcome
mod Advance
mod Frame
mod Admission
pub mod Admit
mod Batch
pub mod Safety
pub mod Work
pub mod Progress
pub mod Branches
pub mod Accept
pub mod Drain
pub mod Preserved
pub mod Accounts
pub mod Streams
mod Streaming
pub mod LiveIds
mod NewStream
pub mod Reachable
