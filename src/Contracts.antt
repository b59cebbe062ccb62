-- ===== src/Contracts.antt =====
-- packages/contracts/src: the vocabulary that the services share.
pub mod Common
pub mod Json
pub mod Envelope
pub mod Schedule
