-- ===== src/Residency.antt =====
-- Where data may be stored, by the policy that its owner declared
-- (saas/src/postgres/residency-policy.ts).
pub mod Policies
pub mod Placement
pub mod Derivation
mod Examples
