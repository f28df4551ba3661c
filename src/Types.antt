-- ===== src/Types.antt =====
-- src/types: the values of SQL.
pub mod DateTime
pub mod ColumnNulls
pub mod NullBitmap
pub mod TriBool
