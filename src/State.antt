-- ===== src/State.antt =====
-- salt/src/state: the accumulated updates, the SHI hash table, and the view over a store.
pub mod Updates
pub mod Probe
pub mod Search
pub mod Ephemeral
pub mod Rehash
pub mod Shi
pub mod Batch
pub mod Tracking
