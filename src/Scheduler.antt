-- ===== src/Scheduler.antt =====
-- services/scheduler/src: the schedule evaluation of the leader, the outbox relay, the election.
pub mod Evaluate
pub mod Fires
pub mod Relay
pub mod Leader
