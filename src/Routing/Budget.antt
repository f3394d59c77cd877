-- ===== src/Routing/Budget.antt =====
-- The deployment's provider budget: reservations, and the months that account for them
-- (saas/src/routing/budget-ledger.ts).
pub mod Rows
pub mod Inputs
pub mod Reservations
pub mod History
pub mod Steps
pub mod Refinement
pub mod Invariant
pub mod Preservation
pub mod Limits
pub mod Persistence
pub mod Replays
pub mod Reports
mod Examples
