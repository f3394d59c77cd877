-- ===== src/Routing/ConsentLedger.antt =====
-- The ledger of an organization's consent: its records with their audit trail, one-time receipts, and
-- the tickets that receipts are exchanged for (saas/src/routing/ledger.ts).
pub mod Rows
pub mod Inputs
pub mod Methods
pub mod Exchanges
pub mod History
pub mod Steps
pub mod Refinement
pub mod Invariant
pub mod Receipts
pub mod Tickets
mod Examples
