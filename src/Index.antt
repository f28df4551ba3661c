-- ===== src/Index.antt =====
-- src/index: the secondary indexes.
pub mod Manager
