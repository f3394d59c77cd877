-- ===== src/Routing/SpaceLedger.antt =====
-- saas/src/routing/general-ledger.ts: the ledger of one Space of general memories.
-- `Rows` has the tables with their constraints and triggers, `Inputs` what the calls take and give,
-- `Admissions` and `Retirements` the methods of `GeneralSpaceLedger`, `History` sequences of calls.
pub mod Rows
pub mod Inputs
pub mod Admissions
pub mod Retirements
pub mod History
pub mod Steps
pub mod Refinement
pub mod Invariant
pub mod Preservation
pub mod Persistence
pub mod Tickets
pub mod Reports
mod Examples
