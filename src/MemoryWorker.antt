-- ===== src/MemoryWorker.antt =====
-- The memory worker's own logic (packages/memory-worker/src): request bodies, names of profiles, the
-- comparison of states, and the migration of legacy profiles.
pub mod Bits
pub mod Security
pub mod Body
pub mod Migration
mod Examples
