-- ===== src/Routing/ConsentLedger/Methods.antt =====
-- The methods of `ConsentLedger` on the record of consent, and what all of its methods share
-- (saas/src/routing/ledger.ts). Each runs in one transaction over the ledger.
use Prim.Native.String.{◌++◌ as append}
use memory_server_worker.Prelude.{
  ℕ, ◌+◌, String, Bool, true, false, not, Option, none, some, leb, ◌!=◌, nat_eq, string_eq, Result,
  ok, err, reject_if, ◌>>=◌, ◌>>◌, if◌then◌else◌,
}
use memory_server_worker.Routing.Schema.{is_identifier}
use memory_server_worker.Routing.Consent
use memory_server_worker.Routing.Consent.{
  Reference, granted, active, memory_search, operation_eq, is_granted, is_some, parse_consent,
  assert_consent, revoke_consent, Permit,
}
use memory_server_worker.Routing.SpaceLedger.Admissions.{or_else}
use memory_server_worker.Routing.ConsentLedger.Rows.{
  grants, revokes, Code, Error, rejected, consent_rejected, consent_thrown, input_invalid,
  organization_mismatch, version_conflict, authority_expired, Ledger, state_eq, save,
}
use memory_server_worker.Routing.ConsentLedger.Inputs.{
  Env, GrantInput, RevokeInput, Actor, is_timestamp, is_grant, is_revoke,
}

abbrev pub reject_when : Bool → Code → Result Error (Unit {0})
reject_when bad code = reject_if bad (rejected code)

abbrev pub clock : Env → Result Error ℕ
clock env = if is_timestamp env.now then ok env.now else err (rejected input_invalid)

abbrev pub wrong_object : Option String → String → Bool
wrong_object none organization_id = false
wrong_object (some name) organization_id = name != append "organization:" organization_id

-- `this.organization(id)`: the first call binds the object, later ones have to fit.
unfoldable pub bind_organization : Env → String → Ledger → Result Error Ledger
bind_organization env organization_id s = do
  reject_when (wrong_object env.object_name organization_id) organization_mismatch
  let bound = or_else s.identity organization_id
  reject_when (bound != organization_id) organization_mismatch
  ok (record s { identity = some bound })

-- An error of the consent module that is not caught.
abbrev pub thrown : {A : Type 0} → Result Consent.Code A → Result Error A
thrown (ok a) = ok a
thrown (err code) = err (consent_thrown code)

-- An error of the consent module that becomes one of the ledger: every code of that module has a
-- status.
abbrev pub caught : {A : Type 0} → Result Consent.Code A → Result Error A
caught (ok a) = ok a
caught (err code) = err (consent_rejected code)

-- `this.current()`
abbrev pub current : Ledger → Result Consent.Code (Option Consent.Consent)
current s = elim s.current [
  | none ↦ ok none
  | some r ↦ parse_consent (some r) >>= λ checked. ok (some checked)
]

abbrev pub context_of : Actor → Option Reference → ℕ → Option Consent.Consent → Consent.Context
context_of a reference now current = record {
  organization_id = a.organization_id;
  account_id = a.account_id;
  space_id = a.space_id;
  member_organization_id = a.organization_id;
  member_account_id = a.account_id;
  member_status = active;
  space_authorized = true;
  operation = a.operation;
  consent = current;
  reference = reference;
  now = now;
}

-- The permit for the current record.
unfoldable pub permitted : Actor → ℕ → Option Reference → Ledger → Result Consent.Code Permit
permitted a now reference s = current s >>= λ r. assert_consent (context_of a reference now r)

-- `this.consent(input, now, reference)`
unfoldable pub consent : Actor → ℕ → ℕ → Option Reference → Ledger → Result Error Permit
consent a expires now reference s = do
  reject_when (leb expires now) authority_expired
  caught (permitted a now reference s)

unfoldable pub get : Env → String → Ledger → Result Error (Option Consent.Consent × Ledger)
get env organization_id s = do
  reject_when (not (is_identifier organization_id)) input_invalid
  bound ← bind_organization env organization_id s
  r ← thrown (current bound)
  ok (r, bound)

abbrev pub version_of : Option Consent.Consent → ℕ
version_of none = 0
version_of (some r) = r.version

-- A grant on top of a grant keeps its identifier.
abbrev pub id_of : Option Consent.Consent → String → String
id_of none fresh = fresh
id_of (some r) fresh = if is_granted r.status then r.id else fresh

abbrev pub granted_record : Env → GrantInput → Option Consent.Consent → Consent.Consent
granted_record env v previous = record {
  id = id_of previous env.fresh_id;
  version = v.expected_version + 1;
  organization_id = v.organization_id;
  space_scope = v.grant.space_scope;
  scopes = v.grant.scopes;
  valid_from_ms = v.grant.valid_from_ms;
  expires_at_ms = v.grant.expires_at_ms;
  status = granted;
  approved_by = v.approved_by;
  evidence_ref = v.grant.evidence_ref;
  revoked_at_ms = none;
}

-- The part of `grant` behind `organization`.
unfoldable pub grant_bound : Env → GrantInput → ℕ → Ledger → Result Error (Consent.Consent × Ledger)
grant_bound env v now s = do
  previous ← thrown (current s)
  reject_when (version_of previous != v.expected_version) version_conflict
  r ← thrown (parse_consent (some (granted_record env v previous)))
  s' ← save r v.approved_by grants now s
  ok (r, s')

unfoldable pub grant : Env → GrantInput → Ledger → Result Error (Consent.Consent × Ledger)
grant env v s = do
  reject_when (not (is_grant v)) input_invalid
  bound ← bind_organization env v.organization_id s
  now ← clock env
  grant_bound env v now bound

unfoldable pub revoke_live :
    Consent.Consent → RevokeInput → ℕ → Ledger → Result Error (Consent.Consent × Ledger)
revoke_live previous v now s = do
  r ← thrown (revoke_consent (some previous) now v.expected_version)
  s' ← save r v.approved_by revokes now s
  ok (r, s')

unfoldable pub revoke_known :
    Consent.Consent → RevokeInput → ℕ → Ledger → Result Error (Consent.Consent × Ledger)
revoke_known previous v now s = do
  reject_when (previous.version != v.expected_version) version_conflict
  if is_granted previous.status then revoke_live previous v now s else ok (previous, s)

-- The part of `revoke` behind `organization`.
unfoldable pub revoke_bound : RevokeInput → ℕ → Ledger → Result Error (Consent.Consent × Ledger)
revoke_bound v now s = do
  previous ← thrown (current s)
  elim previous [ none ↦ err (rejected version_conflict) | some r ↦ revoke_known r v now s ]

unfoldable pub revoke : Env → RevokeInput → Ledger → Result Error (Consent.Consent × Ledger)
revoke env v s = do
  reject_when (not (is_revoke v)) input_invalid
  bound ← bind_organization env v.organization_id s
  now ← clock env
  revoke_bound v now bound
