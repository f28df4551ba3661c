-- ===== src/Txn.antt =====
-- src/txn: transactions. Row versions and the MVCC manager of mvcc.rs, and the deep-clone manager
-- of mod.rs.
pub mod RowVersion
pub mod Mvcc
pub mod Manager
