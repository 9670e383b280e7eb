-- ===== src/Coordinator.antt =====
-- coordinator/*.go: the coordinator of the cluster.
pub mod Membership
pub mod Leader
pub mod Migration
pub mod Server
mod Examples
