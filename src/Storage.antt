-- ===== src/Storage.antt =====
-- src/storage: the durable layer.
pub mod Bytes
pub mod Wal
pub mod Recovery
pub mod BufferPool
pub mod Page
pub mod SsTable
pub mod Tablet
