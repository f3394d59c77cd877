-- ===== src/Routing/Policy.antt =====
-- saas/src/routing/policy.ts: where a request with a declared classification may go. A literal field
-- with one value is left out; an optional field with one value is a Boolean.
pub mod Routes
pub mod Servers
mod Examples
use memory_server_worker.Prelude.{
  ℕ, String, Bool, true, false, not, ◌&&◌, ◌||◌, Option, none, some, List, leb, ◌==◌, ◌!=◌, Eq,
  enum_eq, length, all_rows, any_row, if◌then◌else◌, ◌≡◌, ◌↔◌, Result, ok, err, reject_if, ◌>>=◌,
  ◌>>◌, arith, nat_eq,
}
use memory_server_worker.Routing.Consent
use memory_server_worker.Routing.Consent.{Reference, Context, assert_consent, is_reference, is_some}

pub data Classification : Type 0 where
  general medical region_locked uncertain : Classification

pub data Destination : Type 0 where
  auto to_agent_memory to_seoul : Destination

pub data Route : Type 0 where
  agent_memory seoul : Route

pub data Storage : Type 0 where
  cloudflare_agent_memory postgres : Storage

pub data Vector : Type 0 where
  managed_agent_memory pgvector : Vector

pub data Region : Type 0 where
  cloudflare kr_seoul : Region

-- A reference to a record of consent, or the standing consent of the organization.
pub data Selector : Type 0 where
  by_reference : Reference → Selector
  of_organization : Selector

-- The codes of this module, and those of consent.ts that pass through it.
pub data Code : Type 0 where
  decision_invalid restrictions_invalid downgrade_denied target_unavailable plan_invalid : Code
  consent_context_invalid : Code
  consent_refused : Consent.Code → Code

abbrev pub route_rank : Route → ℕ
route_rank agent_memory = 0
route_rank seoul = 1

abbrev pub storage_rank : Storage → ℕ
storage_rank cloudflare_agent_memory = 0
storage_rank postgres = 1

abbrev pub vector_rank : Vector → ℕ
vector_rank managed_agent_memory = 0
vector_rank pgvector = 1

abbrev pub region_rank : Region → ℕ
region_rank cloudflare = 0
region_rank kr_seoul = 1

pub route_rank_iff : (a b : Route) → ((route_rank a == route_rank b) ≡ true) ↔ (a ≡ b)
route_rank_iff a b = ground arith

pub storage_rank_iff : (a b : Storage) → ((storage_rank a == storage_rank b) ≡ true) ↔ (a ≡ b)
storage_rank_iff a b = ground arith

pub vector_rank_iff : (a b : Vector) → ((vector_rank a == vector_rank b) ≡ true) ↔ (a ≡ b)
vector_rank_iff a b = ground arith

pub region_rank_iff : (a b : Region) → ((region_rank a == region_rank b) ≡ true) ↔ (a ≡ b)
region_rank_iff a b = ground arith

instance abbrev pub route_eq : Eq Route
route_eq = enum_eq route_rank route_rank_iff

instance abbrev pub storage_eq : Eq Storage
storage_eq = enum_eq storage_rank storage_rank_iff

instance abbrev pub vector_eq : Eq Vector
vector_eq = enum_eq vector_rank vector_rank_iff

instance abbrev pub region_eq : Eq Region
region_eq = enum_eq region_rank region_rank_iff

pub record Decision : Type 0 where
  pub classification : Classification
  pub destination : Option Destination
  pub requires_seoul : Bool
  pub consent : Option Selector

pub record Restriction : Type 0 where
  pub route : Route
  pub requires_seoul : Bool

pub record Plan : Type 0 where
  pub route : Route
  pub storage : Storage
  pub vector : Vector
  pub required_region : Option Region

pub record Target : Type 0 where
  pub route : Route
  pub storage : Storage
  pub vector : Vector
  pub region : Region
  pub ready : Bool

abbrev pub agent_plan : Plan
agent_plan = record {
  route = agent_memory;
  storage = cloudflare_agent_memory;
  vector = managed_agent_memory;
  required_region = none;
}

abbrev pub seoul_plan : Plan
seoul_plan = record {
  route = seoul;
  storage = postgres;
  vector = pgvector;
  required_region = some kr_seoul;
}

abbrev pub is_selector : Selector → Bool
is_selector (by_reference r) = is_reference r
is_selector of_organization = true

-- routingDecisionSchema
unfoldable pub is_decision : Decision → Bool
is_decision d = Consent.optional is_selector d.consent

-- restrictionSchema
unfoldable pub is_restriction : Restriction → Bool
is_restriction r = r.route != agent_memory || not r.requires_seoul

unfoldable pub are_restrictions : List Restriction → Bool
are_restrictions rs = leb (length rs) 128 && all_rows is_restriction rs

-- The classifications that stay in Seoul: all but general ones and medical ones with a consent.
abbrev pub is_confined : Classification → Option Selector → Bool
is_confined general consent = false
is_confined medical consent = not (is_some consent)
is_confined region_locked consent = true
is_confined uncertain consent = true

unfoldable pub is_locked : Decision → List Restriction → Bool
is_locked d rs =
    is_confined d.classification d.consent
    || (d.requires_seoul || any_row (λ r. r.route == seoul) rs)

abbrev pub wants_agent_memory : Option Destination → Bool
wants_agent_memory (some to_agent_memory) = true
wants_agent_memory _ = false

abbrev pub wants_seoul : Option Destination → Bool
wants_seoul (some to_seoul) = true
wants_seoul _ = false

unfoldable pub resolve_memory_route : Decision → List Restriction → Result Code Plan
resolve_memory_route d rs = do
  reject_if (not (is_decision d)) decision_invalid
  reject_if (not (are_restrictions rs)) restrictions_invalid
  reject_if (is_locked d rs && wants_agent_memory d.destination) downgrade_denied
  ok (if is_locked d rs || wants_seoul d.destination then seoul_plan else agent_plan)

-- seoulPlacementSchema: the route, the storage and the region of the plan.
unfoldable pub resolve_seoul_placement :
    Decision → List Restriction → Result Code (Route × Storage × Region)
resolve_seoul_placement d rs = do
  plan ← resolve_memory_route d rs
  reject_if (plan.route != seoul) target_unavailable
  ok (seoul, postgres, kr_seoul)

abbrev pub same_region : Option Region → Option Region → Bool
same_region none none = true
same_region (some a) (some b) = a == b
same_region _ _ = false

-- planSchema
unfoldable pub is_plan : Plan → Bool
is_plan p =
    (p.route == agent_memory
      && (p.storage == cloudflare_agent_memory
          && (p.vector == managed_agent_memory && not (is_some p.required_region))))
    || (p.route == seoul
        && (p.storage == postgres
            && (p.vector == pgvector && same_region p.required_region (some kr_seoul))))

-- routingTargetSchema
unfoldable pub is_target : Target → Bool
is_target t =
    (t.route == agent_memory
      && (t.storage == cloudflare_agent_memory
          && (t.vector == managed_agent_memory && t.region == cloudflare)))
    || (t.route == seoul
        && (t.storage == postgres && (t.vector == pgvector && t.region == kr_seoul)))

-- `none` stands for a target that has not the shape of one.
abbrev pub fits_target : Plan → Option Target → Bool
fits_target p none = false
fits_target p (some t) =
    is_target t
    && (t.ready
        && (t.route == p.route
            && (t.storage == p.storage
                && (t.vector == p.vector
                    && Consent.optional (λ r. t.region == r) p.required_region))))

unfoldable pub assert_routing_target : Plan → Option Target → Result Code (Unit {0})
assert_routing_target p t = do
  reject_if (not (is_plan p)) plan_invalid
  reject_if (not (fits_target p t)) target_unavailable
  ok tt

abbrev pub selected_reference : Option Selector → Option Reference
selected_reference (some (by_reference r)) = some r
selected_reference _ = none

abbrev pub is_medical : Classification → Bool
is_medical medical = true
is_medical _ = false

abbrev pub refuse {ℓ} : {A : Type ℓ} → Result Consent.Code A → Result Code A
refuse (ok a) = ok a
refuse (err e) = err (consent_refused e)

-- The consent that the service supplies: never with a reference, which the decision selects.
unfoldable pub assert_medical : Decision → Option Context → Result Code (Unit {0})
assert_medical d none = err consent_context_invalid
assert_medical d (some c) = do
  reject_if (is_some c.reference) consent_context_invalid
  permit ← refuse (assert_consent (record c { reference = selected_reference d.consent }))
  ok tt

unfoldable pub assert_server_routing :
    Decision → Option Target → List Restriction → Option Context → Result Code Plan
assert_server_routing d target rs context = do
  plan ← resolve_memory_route d rs
  assert_routing_target plan target
  if plan.route == agent_memory && is_medical d.classification
      then assert_medical d context >> ok plan
      else ok plan
