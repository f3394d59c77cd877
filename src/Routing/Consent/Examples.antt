-- ===== src/Routing/Consent/Examples.antt =====
-- A consent for all spaces, a request that it allows, and its revocation.
use mathlib.Core.Path.{subst}
use memory_server_worker.Prelude.{true, none, some, [], ◌∷◌, ◌≡◌, refl, ok, err, arith}
use memory_server_worker.Routing.Schema.{is_identifier}
use memory_server_worker.Routing.Consent.{
  Consent, Context, memory_search, storage, embedding, recall, all_spaces, granted, active,
  consent_reference_mismatch, is_consent, is_context, is_terms, parse_consent, is_current,
  is_in_scope, refers_to, permit_of, assert_consent, revoked_record, revoke_consent,
}
use memory_server_worker.Routing.Consent.Permits.{
  Allows, assert_consent_sound, assert_consent_complete,
}
use memory_server_worker.Routing.Consent.Revocation.{
  revoke_consent_granted, assert_consent-revoke_consent,
}

abbrev standing : Consent
standing = record {
  id = "consent-1";
  version = 3;
  organization_id = "org";
  space_scope = all_spaces;
  scopes = storage ∷ embedding ∷ recall ∷ [];
  valid_from_ms = 1000;
  expires_at_ms = some 50000;
  status = granted;
  approved_by = "admin";
  evidence_ref = "ref-1";
  revoked_at_ms = none;
}

abbrev search_request : Context
search_request = record {
  organization_id = "org";
  account_id = "alice";
  space_id = "s1";
  member_organization_id = "org";
  member_account_id = "alice";
  member_status = active;
  space_authorized = true;
  operation = memory_search;
  consent = some standing;
  reference = some (record { consent_id = "consent-1"; version = 3 });
  now = 2000;
}

standing_valid : is_consent standing ≡ true
unfolding is_consent is_terms is_identifier
standing_valid = refl

search_request_valid : is_context search_request ≡ true
unfolding is_context is_identifier
search_request_valid = refl

search_allowed : assert_consent search_request ≡ ok (permit_of standing search_request)
unfolding assert_consent parse_consent is_context is_consent is_terms is_current is_in_scope
    refers_to is_identifier
search_allowed = refl

stale_reference :
    assert_consent (record search_request {
      reference = some (record { consent_id = "consent-1"; version = 2 });
    })
    ≡ err consent_reference_mismatch
unfolding assert_consent parse_consent is_context is_consent is_terms is_current is_in_scope
    refers_to is_identifier
stale_reference = refl

assert_consent_sound_example :
    (r : Consent) × (search_request.consent ≡ some r)
    × (is_consent r ≡ true)
    × Allows search_request r
    × (permit_of standing search_request ≡ permit_of r search_request)
assert_consent_sound_example = assert_consent_sound search_request search_allowed

search-Allows : Allows search_request standing
search-Allows =
    let (r, e, valid, allows, rest) = assert_consent_sound_example in
    let same : r ≡ standing = cc in subst (λ x. Allows search_request x) same allows

assert_consent_complete_example :
    assert_consent search_request ≡ ok (permit_of standing search_request)
assert_consent_complete_example =
    assert_consent_complete search_request standing search_request_valid refl standing_valid
      search-Allows

revoke_first : revoke_consent (some standing) 3000 3 ≡ ok (revoked_record standing 3000)
revoke_first = revoke_consent_granted standing 3000 standing_valid refl (omega arith) (omega arith)

assert_consent-revoke_consent_example : ¬ (
    assert_consent (record search_request { consent = some (revoked_record standing 3000) })
    ≡ ok (permit_of standing search_request))
assert_consent-revoke_consent_example =
    assert_consent-revoke_consent (some standing) 3000 3
      (record search_request { consent = some (revoked_record standing 3000) }) revoke_first refl
