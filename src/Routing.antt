-- ===== src/Routing.antt =====
-- saas/src/routing: where a memory request may go, and the ledgers that account for it.
pub mod Schema
pub mod Month
pub mod Consent
pub mod Policy
pub mod Capabilities
pub mod SpaceLedger
pub mod ConsentLedger
pub mod Budget
pub mod Executor
