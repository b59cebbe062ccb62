-- ===== src/Messaging.antt =====
-- packages/messaging/src: the broker's topology and the confirmed publish.
pub mod Topology
pub mod Publisher
