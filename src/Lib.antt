-- ===== src/Lib.antt =====
-- turboGP (repository tensorvault): an instruction-first relational database engine in Rust.
--
-- These modules model what the engine promises when transactions interleave and processes crash:
-- * Txn (src/txn/mvcc.rs, src/txn/mod.rs): `RowVersion` and `MvccTxnManager`, the visibility of
--   transactions and rows, in Txn.RowVersion and Txn.Mvcc; `TxnManager`, which gives a transaction
--   a clone of the catalog, in Txn.Manager. The global counter NEXT_TXN_ID is passed in and out.
-- * Protocol (src/protocol): the hybrid logical clock in Protocol.Clock, and the commit
--   coordinators over it and the log, `CxlCoordinator` in Protocol.Cxl and `RaftCoordinator` in
--   Protocol.Raft. Readings of the system clock are arguments.
-- * Storage.Wal (src/storage/wal.rs): the record format with its reader in Storage.Wal.Format, and
--   the writer with its zones and its buffer in Storage.Wal.Log. A method is an action on a `Wal`:
--   it returns Ok or an error beside the log that it leaves, and takes the device's answers from a
--   list in the state; a write that fails may have written a part of its bytes. xxh3_64, of an
--   external library, is an argument.
-- * Storage.Recovery (src/storage/recovery.rs): the records of the SQL log.
-- * Storage.BufferPool (src/storage/buffer_pool.rs): frames, pins, the clock, write-back and flushes,
--   over a type of pages. Storage.BufferPool.Coherence says when frames, table and files agree.
-- * Storage.Page (src/storage/page.rs): header, cells and bytes of a page, its CRC32C by the loop and
--   by the instructions of SSE4.2, which are an argument, its parity, and `verify_and_correct`.
--   Storage.Page.Castagnoli has the division of polynomials that the processor's manual describes.
-- * Storage.SsTable (src/storage/sstable.rs): the writer and the reader of a sorted table over the
--   bytes of its file. The bounds of the search are words of 64 bits, the two's complement
--   of an i64, and wrap; it takes 64 rounds of fuel, enough for any page count up to 2 ^ 62, where
--   nothing wraps.
-- * Kernel.Leapfrog (src/kernel/leapfrog.rs): the leapfrog join over sorted slices. Its loop takes
--   fuel, one more than the number of keys, since every round but the last passes over a key.
-- * Exec.BloomFilter (src/exec/bloom_filter.rs): the filter and its scalar operations.
-- * Exec.FlatHashTable (src/exec/flat_hash_table.rs): the open-addressed table of group keys, the
--   aggregation states, and `hash_group_by_flat` in Exec.FlatHashTable.GroupBy. The hash function is
--   an argument. The probing takes a round of fuel for each slot, enough while a slot is free; calls
--   of `insert` by `resize` are bounded by a depth of 2, enough since a doubled table has room.
-- * Exec.Bitmap (src/exec/bitmap.rs): the packed bitmaps and the filters of integer columns, on a
--   processor without AVX-512.
-- * Types.DateTime (src/types/datetime.rs): dates, times, timestamps and intervals, and in
--   Types.DateTime.Civil what goes through the dates of the time crate, an argument with the record
--   `Calendar`; Exec.DateTimeOps (src/exec/datetime_ops.rs): their fields, and `date_trunc`.
-- * Index.Manager (src/index/manager.rs): the indexes of columns, their names and hash indexes.
-- * Exec.ZoneMap (src/exec/zone_map.rs), Sketch.CountMin (src/sketch/count_min.rs), Types.TriBool and
--   Types.NullBitmap (src/types/null.rs): the pages that a scan reads, the frequency sketch, the logic
--   of SQL and its nulls. Types.ColumnNulls (src/types/null_bitmap.rs): the nulls of a column.
-- * Storage.Tablet (src/storage/tablet.rs): the slots of a tablet's regions.
-- * Catalog (src/catalog/mod.rs, and `clone_catalog` of src/txn/mod.rs): the registry of tables.
-- * Engine (src/engine/mod.rs): `execute` on transaction control, savepoints and statements in
--   Engine.Session, `replay_wal` in Engine.Replay. Running a DDL or DML statement, and applying a
--   physical change, are arguments. Whether the writes of the log succeed is a list in the state: one
--   that fails leaves nothing of its record, and its error is discarded.
--
-- The coordinators append to the log and sync it; the engine drives `TxnManager` and writes the SQL
-- log; a new process starts from the replay of that log.
--
-- Prelude has what the modules share: numbers and tests, lists by index, `Result`, hash maps as
-- association lists with a unique key, predicates on lists. Machine integers are native natural
-- numbers, with their wrap-around written out; the dates' signed ones are in Prelude.Ints.
-- The reader of the log takes fuel; a record has 25 bytes or more, so a number above the records in
-- the file, such as the file's length plus one, is enough.
--
-- Not modelled: the SQL front end, the planner, the other executors and kernels (SIMD, threads,
-- floating point, the batch operations of the filter), the bit-sliced and the similarity index,
-- other sketches, data sources, the server, the texts of dates and intervals, and the JSON lines of
-- the SQL log, which are I/O or left to further modules. Locks are
-- left out where a single caller never waits for them, and failed writes of a sorted table, after
-- which its writer is dropped. A write of the SQL log that fails in the midst of a line is left out.
pub mod Prelude
pub mod Txn
pub mod Protocol
pub mod Storage
pub mod Catalog
pub mod Engine
pub mod Exec
pub mod Sketch
pub mod Types
pub mod Index
pub mod Kernel
