-- ===== src/Engine.antt =====
-- src/engine/mod.rs: the part of `QueryEngine` that makes statements durable: transaction control,
-- savepoints, the log, and its replay.
pub mod Session
pub mod Replay
mod Examples
