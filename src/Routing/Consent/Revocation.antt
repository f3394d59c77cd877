-- ===== src/Routing/Consent/Revocation.antt =====
-- Revocation is final (revokeCloudflareMedicalConsent).
use memory_server_worker.Prelude.{
  ℕ, ◌≤◌, ◌<◌, true, Option, none, some, ◌≡◌, ok, nat_eq, arith, ◌⊎◌,
}
use memory_server_worker.Routing.Schema.{max_timestamp, max_safe_integer}
use memory_server_worker.Routing.Consent.{
  is_after_revocation, Consent, Context, Permit, granted, revoked, is_consent, is_terms,
  parse_consent, revoked_record, revoke_consent, assert_consent,
}
use memory_server_worker.Routing.Consent.Permits.{assert_consent_sound}

revoked_record-is_consent :
    (r : Consent) (now : ℕ)
    → is_consent r ≡ true
    → now ≤ max_timestamp
    → r.version < max_safe_integer
    → is_consent (revoked_record r now) ≡ true
unfolding is_consent revoked_record is_terms
revoked_record-is_consent r now h t v = ground arith

is_consent-version :
    (r : Consent) → is_consent r ≡ true → (0 < r.version) × (r.version ≤ max_safe_integer)
unfolding is_consent
is_consent-version r h = ground arith

is_consent-not_revoked :
    (r : Consent) → is_consent r ≡ true → r.status ≡ granted → r.revoked_at_ms ≡ none
unfolding is_consent
is_consent-not_revoked r h g = ground arith

-- A valid granted record is revoked at any time value, against its own version.
pub revoke_consent_granted :
    (r : Consent) (now : ℕ)
    → is_consent r ≡ true
    → r.status ≡ granted
    → now ≤ max_timestamp
    → r.version < max_safe_integer
    → revoke_consent (some r) now r.version ≡ ok (revoked_record r now)
unfolding revoke_consent parse_consent
revoke_consent_granted r now h g t v = ground (
  arith,
  revoked_record-is_consent r now h t v,
  is_consent-version r h,
  is_consent-not_revoked r h g,
)

-- A revocation returns a valid revoked record with the terms of the old one.
pub revoke_consent_sound :
    (r : Consent) (now expected : ℕ) {r' : Consent}
    → revoke_consent (some r) now expected ≡ ok r'
    → (expected ≡ r.version)
      × (is_consent r' ≡ true)
      × (r'.status ≡ revoked)
      × (r'.id ≡ r.id)
      × (((r.status ≡ revoked) × (r' ≡ r)) ⊎ ((r.status ≡ granted) × (r' ≡ revoked_record r now)))
unfolding revoke_consent parse_consent revoked_record
revoke_consent_sound r now expected h = ground arith

revoke_consent-revoked :
    (input : Option Consent) (now expected : ℕ) {r : Consent}
    → revoke_consent input now expected ≡ ok r
    → (is_consent r ≡ true)
      × (r.status ≡ revoked)
      × (is_after_revocation r.revoked_at_ms now ≡ true)
unfolding revoke_consent parse_consent revoked_record
revoke_consent-revoked input now expected h = ground arith

-- No request gets a permit from the record that a revocation returns.
pub assert_consent-revoke_consent :
    (input : Option Consent) (now expected : ℕ) {r : Consent} (c : Context) {p : Permit}
    → revoke_consent input now expected ≡ ok r
    → c.consent ≡ some r
    → ¬ (assert_consent c ≡ ok p)
assert_consent-revoke_consent input now expected {r} c h e allowed =
    let (r', same, valid, allows, rest) = assert_consent_sound c allowed in
    let g = allows.is_granted in let f = revoke_consent-revoked input now expected h in ground arith

-- To revoke again, at that time or later, changes nothing.
pub revoke_consent_twice :
    (input : Option Consent) (now later expected : ℕ) {r : Consent}
    → revoke_consent input now expected ≡ ok r
    → now ≤ later
    → later ≤ max_timestamp
    → revoke_consent (some r) later r.version ≡ ok r
unfolding revoke_consent parse_consent
revoke_consent_twice input now later expected {r} h le lt =
    let f = revoke_consent-revoked input now expected h in ground (arith, is_consent-version r f.0)
