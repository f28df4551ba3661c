-- ===== src/Storage/Wal.antt =====
-- src/storage/wal.rs: the write-ahead log. `Format` is the record format with its reader, `Log` the
-- writer with its zones.
pub mod Format
pub mod Action
pub mod Log
mod Examples
