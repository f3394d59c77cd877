-- ===== src/DurableSql.antt =====
-- The durable SQL store (saas/src/durable-sql): the fence that stops writes during a cutover.
pub mod Fence
mod Examples
