-- ===== src/Routing/Executor.antt =====
-- saas/src/routing/general-executor.ts: the boundary that runs a request against the ledgers of a
-- Space and of the budget, and the memory provider.
pub mod Encodings
pub mod Requests
pub mod Ports
pub mod Answers
pub mod Admission
pub mod Clearing
pub mod Dispatching
pub mod Execution
pub mod Traces
pub mod Calls
pub mod Clearance
pub mod Outcomes
pub mod Settling
pub mod Steps
pub mod Disclosure
pub mod Retiring
pub mod Reserving
pub mod Dispatches
pub mod Exchanges
pub mod Identifying
pub mod Safety
pub mod Worlds
pub mod Invariants
pub mod Singles
pub mod Once
pub mod Runs
pub mod Reconciliation
pub mod Deletions
pub mod Acknowledgements
mod Examples
