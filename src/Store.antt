-- ===== src/Store.antt =====
-- The storage traits of salt/src/traits.rs, and the stores that implement them in memory.
pub mod Traits
pub mod TrieReader
pub mod MemStore
pub mod EmptySalt
pub mod Counts
pub mod Apply
pub mod Sessions
