-- ===== src/Routing/Consent.antt =====
-- saas/src/routing/consent.ts: the standing consent of an organization to keep medical memories in
-- Cloudflare Agent Memory. `none` stands for a value that has not the shape of a record.
-- `provider` and `classification` have one value each and are left out.
pub mod Permits
pub mod Revocation
mod Examples
use memory_server_worker.Prelude.{
  ℕ, ◌+◌, ◌-◌, min, String, Bool, true, false, not, ◌&&◌, ◌||◌, Option, none, some, List, [], ◌∷◌,
  ltb, leb, ◌==◌, ◌!=◌, Eq, enum_eq, nat_eq, string_eq, length, all_rows, any_row, contains, unique,
  if◌then◌else◌, ◌≡◌, ◌↔◌, Result, ok, err, reject_if, ◌>>=◌, ◌>>◌, arith,
}
use memory_server_worker.Routing.Schema.{is_identifier, max_safe_integer, max_timestamp}

pub data Operation : Type 0 where
  memory_ingest memory_search : Operation

pub data Scope : Type 0 where
  ingest storage extraction embedding recall : Scope

pub data SpaceScope : Type 0 where
  all_spaces : SpaceScope
  spaces : List String → SpaceScope

pub data Status : Type 0 where
  granted revoked : Status

pub data Membership : Type 0 where
  active suspended removed : Membership

pub data Code : Type 0 where
  consent_unavailable consent_context_invalid consent_scope_denied : Code
  consent_reference_mismatch consent_transition_invalid : Code

abbrev operation_rank : Operation → ℕ
operation_rank memory_ingest = 0
operation_rank memory_search = 1

abbrev scope_rank : Scope → ℕ
scope_rank ingest = 0
scope_rank storage = 1
scope_rank extraction = 2
scope_rank embedding = 3
scope_rank recall = 4

pub operation_rank_iff :
    (a b : Operation) → ((operation_rank a == operation_rank b) ≡ true) ↔ (a ≡ b)
operation_rank_iff a b = ground arith

pub scope_rank_iff : (a b : Scope) → ((scope_rank a == scope_rank b) ≡ true) ↔ (a ≡ b)
scope_rank_iff a b = ground arith

instance abbrev pub operation_eq : Eq Operation
operation_eq = enum_eq operation_rank operation_rank_iff

instance abbrev pub scope_eq : Eq Scope
scope_eq = enum_eq scope_rank scope_rank_iff

abbrev pub is_granted : Status → Bool
is_granted granted = true
is_granted revoked = false

abbrev pub is_active : Membership → Bool
is_active active = true
is_active _ = false

pub record Reference : Type 0 where
  pub consent_id : String
  pub version : ℕ

pub record Consent : Type 0 where
  pub id : String
  pub version : ℕ
  pub organization_id : String
  pub space_scope : SpaceScope
  pub scopes : List Scope
  pub valid_from_ms : ℕ
  pub expires_at_ms : Option ℕ
  pub status : Status
  pub approved_by : String
  pub evidence_ref : String
  pub revoked_at_ms : Option ℕ

pub record Context : Type 0 where
  pub organization_id : String
  pub account_id : String
  pub space_id : String
  pub member_organization_id : String
  pub member_account_id : String
  pub member_status : Membership
  pub space_authorized : Bool
  pub operation : Operation
  pub consent : Option Consent
  pub reference : Option Reference
  pub now : ℕ

pub record Permit : Type 0 where
  pub consent_id : String
  pub version : ℕ
  pub organization_id : String
  pub account_id : String
  pub space_id : String
  pub operation : Operation
  pub checked_at_ms : ℕ
  pub valid_until_ms : ℕ

abbrev pub is_some {ℓ} : {A : Type ℓ} → Option A → Bool
is_some none = false
is_some (some a) = true

-- A field that is absent, or satisfies the test.
abbrev pub optional {ℓ} : {A : Type ℓ} → (A → Bool) → Option A → Bool
optional p none = true
optional p (some a) = p a

abbrev pub is_version : ℕ → Bool
is_version n = ltb 0 n && leb n max_safe_integer

abbrev pub is_timestamp : ℕ → Bool
is_timestamp n = leb n max_timestamp

abbrev pub is_space_scope : SpaceScope → Bool
is_space_scope all_spaces = true
is_space_scope (spaces ids) =
    ltb 0 (length ids) && leb (length ids) 1024 && all_rows is_identifier ids && unique ids

abbrev pub is_scopes : List Scope → Bool
is_scopes scopes = ltb 0 (length scopes) && leb (length scopes) 5 && unique scopes

-- The fields that a revocation leaves alone.
unfoldable pub is_terms : Consent → Bool
is_terms r =
    is_identifier r.id
    && is_identifier r.organization_id
    && is_space_scope r.space_scope
    && is_scopes r.scopes
    && is_timestamp r.valid_from_ms
    && optional is_timestamp r.expires_at_ms
    && is_identifier r.approved_by
    && is_identifier r.evidence_ref
    && optional (λ t. ltb r.valid_from_ms t) r.expires_at_ms

-- `granted` has no time of revocation, `revoked` has one.
abbrev pub revocation_fits : Status → Option ℕ → Bool
revocation_fits granted t = not (is_some t)
revocation_fits revoked t = is_some t

-- cloudflareMedicalConsentSchema
unfoldable pub is_consent : Consent → Bool
is_consent r =
    is_terms r
    && is_version r.version
    && optional is_timestamp r.revoked_at_ms
    && revocation_fits r.status r.revoked_at_ms

abbrev pub is_reference : Reference → Bool
is_reference r = is_identifier r.consent_id && is_version r.version

-- medicalCloudflareConsentContextSchema
unfoldable pub is_context : Context → Bool
is_context c =
    is_identifier c.organization_id
    && is_identifier c.account_id
    && is_identifier c.space_id
    && is_identifier c.member_organization_id
    && is_identifier c.member_account_id
    && optional is_reference c.reference
    && leb c.now (max_timestamp - 60000)

unfoldable pub parse_consent : Option Consent → Result Code Consent
parse_consent none = err consent_unavailable
parse_consent (some r) = if is_consent r then ok r else err consent_unavailable

unfoldable pub is_current : Consent → ℕ → Bool
is_current r now =
    is_granted r.status
    && not (ltb now r.valid_from_ms)
    && optional (λ t. ltb now t) r.expires_at_ms

abbrev pub covers_space : SpaceScope → String → Bool
covers_space all_spaces id = true
covers_space (spaces ids) id = contains id ids

unfoldable pub is_in_scope : Consent → Context → Bool
is_in_scope r c =
    r.organization_id == c.organization_id
    && c.member_organization_id == c.organization_id
    && c.member_account_id == c.account_id
    && is_active c.member_status
    && c.space_authorized
    && covers_space r.space_scope c.space_id

unfoldable pub refers_to : Option Reference → Consent → Bool
refers_to reference r = optional (λ f. (f.consent_id == r.id) && (f.version == r.version)) reference

abbrev pub needed : Operation → List Scope
needed memory_ingest = ingest ∷ storage ∷ extraction ∷ embedding ∷ []
needed memory_search = storage ∷ embedding ∷ recall ∷ []

abbrev pub or_max : Option ℕ → ℕ
or_max none = max_timestamp
or_max (some t) = t

unfoldable pub permit_of : Consent → Context → Permit
permit_of r c = record {
  consent_id = r.id;
  version = r.version;
  organization_id = c.organization_id;
  account_id = c.account_id;
  space_id = c.space_id;
  operation = c.operation;
  checked_at_ms = c.now;
  valid_until_ms = min (c.now + 60000) (or_max r.expires_at_ms);
}

unfoldable pub assert_consent : Context → Result Code Permit
assert_consent c = do
  reject_if (not (is_context c)) consent_context_invalid
  r ← parse_consent c.consent
  reject_if (not (is_current r c.now)) consent_unavailable
  reject_if (not (is_in_scope r c)) consent_scope_denied
  reject_if (not (refers_to c.reference r)) consent_reference_mismatch
  reject_if (any_row (λ s. not (contains s r.scopes)) (needed c.operation)) consent_scope_denied
  ok (permit_of r c)

-- `now` has not passed the time of an earlier revocation.
abbrev pub is_after_revocation : Option ℕ → ℕ → Bool
is_after_revocation revoked_at now = optional (λ t. leb t now) revoked_at

unfoldable pub revoked_record : Consent → ℕ → Consent
revoked_record r now = record r {
  status = revoked;
  version = r.version + 1;
  revoked_at_ms = some now;
}

unfoldable pub revoke_consent : Option Consent → ℕ → ℕ → Result Code Consent
revoke_consent input now expected = do
  r ← parse_consent input
  reject_if
      (not (
        is_timestamp now
        && is_version expected
        && expected == r.version
        && is_after_revocation r.revoked_at_ms now))
      consent_transition_invalid
  if is_granted r.status
      then (do
        reject_if (r.version == max_safe_integer) consent_transition_invalid
        parse_consent (some (revoked_record r now)))
      else ok r
