-- ===== src/Node.antt =====
-- node/*.go: a leaf node.
pub mod DiskState
pub mod StateMachine
pub mod Replica
pub mod Quorum
pub mod Rpc
pub mod Election
pub mod Write
pub mod Recovery
pub mod Server
mod Examples
