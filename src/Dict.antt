-- ===== src/Dict.antt =====
-- The hash table of src/dict.c: two tables with chains, and incremental rehashing between them.
pub mod Types
pub mod Chain
pub mod Size
pub mod Rehash
pub mod Search
pub mod Iterate
pub mod Update
pub mod Model
pub mod Placement
pub mod Rechain
pub mod Session
