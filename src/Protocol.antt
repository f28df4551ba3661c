-- ===== src/Protocol.antt =====
-- src/protocol: the hybrid logical clock and the commit coordinators.
pub mod Clock
pub mod Cxl
pub mod Raft
pub mod Commit
mod Examples
