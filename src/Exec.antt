-- ===== src/Exec.antt =====
-- src/exec: the data structures that scans use.
pub mod ZoneMap
pub mod Bitmap
pub mod BloomFilter
pub mod DateTimeOps
pub mod FlatHashTable
