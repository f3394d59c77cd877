-- ===== src/Routing/Consent/Permits.antt =====
-- When a medical request gets a permit, and for how long (assertMedicalCloudflareConsent).
use mathlib.Core.List.{Mem}
use memory_server_worker.Prelude.{
  ℕ, ◌+◌, ◌≤◌, ◌<◌, String, true, false, not, Option, none, some, List, nat_eq, string_eq, contains,
  contains_iff, any_row, ◌≡◌, refl, ok, Option-cases, inl, inr, arith,
}
use memory_server_worker.Routing.Consent.{
  Operation, memory_ingest, memory_search, Scope, ingest, storage, extraction, embedding, recall,
  SpaceScope, all_spaces, spaces, granted, active, Reference, Consent, Context, Permit, scope_eq,
  is_consent, is_context, parse_consent, is_current, covers_space, is_in_scope, refers_to, needed,
  permit_of, assert_consent,
}

-- The scopes that an operation needs, all of them.
pub HasScopes : Operation → List Scope → Type 0
HasScopes memory_ingest scopes =
    Mem ingest scopes × Mem storage scopes × Mem extraction scopes × Mem embedding scopes
HasScopes memory_search scopes = Mem storage scopes × Mem embedding scopes × Mem recall scopes

-- What the consent `r` has to say for the request `c` to be allowed.
pub record Allows (c : Context) (r : Consent) : Type 0 where
  pub is_granted : r.status ≡ granted
  pub started : r.valid_from_ms ≤ c.now
  pub unexpired : (t : ℕ) → r.expires_at_ms ≡ some t → c.now < t
  pub same_organization : r.organization_id ≡ c.organization_id
  pub member_organization : c.member_organization_id ≡ c.organization_id
  pub member_account : c.member_account_id ≡ c.account_id
  pub is_member : c.member_status ≡ active
  pub authorized : c.space_authorized ≡ true
  pub space : (ids : List String) → r.space_scope ≡ spaces ids → Mem c.space_id ids
  pub referred :
      (f : Reference) → c.reference ≡ some f → (f.consent_id ≡ r.id) × (f.version ≡ r.version)
  pub scoped : HasScopes c.operation r.scopes

needed_sound :
    (o : Operation) (scopes : List Scope)
    → any_row (λ s. not (contains s scopes)) (needed o) ≡ false
    → HasScopes o scopes
unfolding HasScopes
needed_sound memory_ingest scopes h = (
  (contains_iff ingest scopes).0 (ground arith),
  (contains_iff storage scopes).0 (ground arith),
  (contains_iff extraction scopes).0 (ground arith),
  (contains_iff embedding scopes).0 (ground arith),
)
needed_sound memory_search scopes h = (
  (contains_iff storage scopes).0 (ground arith),
  (contains_iff embedding scopes).0 (ground arith),
  (contains_iff recall scopes).0 (ground arith),
)

needed_complete :
    (o : Operation) (scopes : List Scope)
    → HasScopes o scopes
    → any_row (λ s. not (contains s scopes)) (needed o) ≡ false
unfolding HasScopes
needed_complete memory_ingest scopes (i, s, x, e) = rw (
  (contains_iff ingest scopes).1 i,
  (contains_iff storage scopes).1 s,
  (contains_iff extraction scopes).1 x,
  (contains_iff embedding scopes).1 e,
)
needed_complete memory_search scopes (s, e, r) = rw (
  (contains_iff storage scopes).1 s,
  (contains_iff embedding scopes).1 e,
  (contains_iff recall scopes).1 r,
)

is_current_sound :
    (r : Consent) (now : ℕ)
    → is_current r now ≡ true
    → (r.status ≡ granted)
      × (r.valid_from_ms ≤ now)
      × ((t : ℕ) → r.expires_at_ms ≡ some t → now < t)
unfolding is_current
is_current_sound r now h = (ground arith, ground arith, λ t e. ground arith)

is_in_scope_sound :
    (r : Consent) (c : Context)
    → is_in_scope r c ≡ true
    → (r.organization_id ≡ c.organization_id)
      × (c.member_organization_id ≡ c.organization_id)
      × (c.member_account_id ≡ c.account_id)
      × (c.member_status ≡ active)
      × (c.space_authorized ≡ true)
      × (covers_space r.space_scope c.space_id ≡ true)
unfolding is_in_scope
is_in_scope_sound r c h = ground (
  arith,
  string_eq.beq_iff r.organization_id c.organization_id,
  string_eq.beq_iff c.member_organization_id c.organization_id,
  string_eq.beq_iff c.member_account_id c.account_id,
)

covers_space_sound :
    (scope : SpaceScope) (id : String)
    → covers_space scope id ≡ true
    → (ids : List String) → scope ≡ spaces ids
    → Mem id ids
covers_space_sound scope id h ids e = (contains_iff id ids).0 (ground arith)

refers_to_sound :
    (reference : Option Reference) (r : Consent)
    → refers_to reference r ≡ true
    → (f : Reference) → reference ≡ some f
    → (f.consent_id ≡ r.id) × (f.version ≡ r.version)
unfolding refers_to
refers_to_sound reference r h f e = ground (arith, string_eq.beq_iff f.consent_id r.id)

is_current_complete :
    (r : Consent) (now : ℕ)
    → r.status ≡ granted
    → r.valid_from_ms ≤ now
    → ((t : ℕ) → r.expires_at_ms ≡ some t → now < t)
    → is_current r now ≡ true
unfolding is_current
is_current_complete r now g v h = elim (Option-cases r.expires_at_ms) [
  | inl e ↦ ground arith
  | inr (t, e) ↦ ground (arith, h t e)
]

covers_space_complete :
    (scope : SpaceScope) (id : String)
    → ((ids : List String) → scope ≡ spaces ids → Mem id ids)
    → covers_space scope id ≡ true
covers_space_complete all_spaces id h = refl
covers_space_complete (spaces ids) id h = (contains_iff id ids).1 (h ids refl)

refers_to_complete :
    (reference : Option Reference) (r : Consent)
    → ((f : Reference) → reference ≡ some f → (f.consent_id ≡ r.id) × (f.version ≡ r.version))
    → refers_to reference r ≡ true
unfolding refers_to
refers_to_complete none r h = refl
refers_to_complete (some f) r h = ground (arith, h f refl, string_eq.beq_iff f.consent_id r.id)

is_in_scope_complete : (r : Consent) (c : Context) → Allows c r → is_in_scope r c ≡ true
unfolding is_in_scope
is_in_scope_complete r c a = ground (
  arith,
  string_eq.beq_iff r.organization_id c.organization_id,
  string_eq.beq_iff c.member_organization_id c.organization_id,
  string_eq.beq_iff c.member_account_id c.account_id,
  a.same_organization,
  a.member_organization,
  a.member_account,
  a.is_member,
  a.authorized,
  covers_space_complete r.space_scope c.space_id a.space,
)

pub parse_consent-eq-ok :
    (input : Option Consent) {r : Consent}
    → parse_consent input ≡ ok r
    → (input ≡ some r) × (is_consent r ≡ true)
unfolding parse_consent
parse_consent-eq-ok input h = ground arith

-- The checks that a permit has passed.
record Passed (c : Context) (r : Consent) : Type 0 where
  context : is_context c ≡ true
  consent : (c.consent ≡ some r) × (is_consent r ≡ true)
  current : is_current r c.now ≡ true
  in_scope : is_in_scope r c ≡ true
  referred : refers_to c.reference r ≡ true
  scoped : any_row (λ s. not (contains s r.scopes)) (needed c.operation) ≡ false

assert_consent-Passed :
    (c : Context) {p : Permit}
    → assert_consent c ≡ ok p
    → (r : Consent) × Passed c r × (p ≡ permit_of r c)
unfolding assert_consent parse_consent
assert_consent-Passed c h = elim (Option-cases c.consent) [
  | inl e ↦ absurd (ground arith)
  | inr (r, e) ↦ (r, ground arith, ground arith)
]

Passed-Allows : (c : Context) (r : Consent) → Passed c r → Allows c r
Passed-Allows c r h =
    let (current, started, unexpired) = is_current_sound r c.now h.current in
    let (o, mo, ma, m, au, sp) = is_in_scope_sound r c h.in_scope in
    record {
      is_granted = current;
      started = started;
      unexpired = unexpired;
      same_organization = o;
      member_organization = mo;
      member_account = ma;
      is_member = m;
      authorized = au;
      space = covers_space_sound r.space_scope c.space_id sp;
      referred = refers_to_sound c.reference r h.referred;
      scoped = needed_sound c.operation r.scopes h.scoped;
    }

-- A permit is given only for a valid record of consent that allows the request, and describes it.
pub assert_consent_sound :
    (c : Context) {p : Permit}
    → assert_consent c ≡ ok p
    → (r : Consent) × (c.consent ≡ some r)
      × (is_consent r ≡ true)
      × Allows c r
      × (p ≡ permit_of r c)
assert_consent_sound c h =
    let (r, passed, same) = assert_consent-Passed c h in
    (r, passed.consent.0, passed.consent.1, Passed-Allows c r passed, same)

-- A well-formed request for which a valid record of consent allows everything gets the permit.
pub assert_consent_complete :
    (c : Context) (r : Consent)
    → is_context c ≡ true
    → c.consent ≡ some r
    → is_consent r ≡ true
    → Allows c r
    → assert_consent c ≡ ok (permit_of r c)
unfolding assert_consent parse_consent
assert_consent_complete c r hc e hr a = ground (
  arith,
  is_current_complete r c.now a.is_granted a.started a.unexpired,
  is_in_scope_complete r c a,
  refers_to_complete c.reference r a.referred,
  needed_complete c.operation r.scopes a.scoped,
)

permit_of_window :
    (c : Context) (r : Consent)
    → Passed c r
    → ((permit_of r c).checked_at_ms ≡ c.now)
      × (c.now < (permit_of r c).valid_until_ms)
      × ((permit_of r c).valid_until_ms ≤ c.now + 60000)
      × ((t : ℕ) → r.expires_at_ms ≡ some t → (permit_of r c).valid_until_ms ≤ t)
unfolding permit_of is_context is_current
permit_of_window c r h =
    let current = h.current in
    let context = h.context in (refl, ground arith, omega arith, λ t e. ground arith)

-- A permit is still valid when it is given, for a minute at most, and never past the consent.
pub assert_consent_window :
    (c : Context) {p : Permit}
    → assert_consent c ≡ ok p
    → (p.checked_at_ms ≡ c.now)
      × (c.now < p.valid_until_ms)
      × (p.valid_until_ms ≤ c.now + 60000)
      × ((r : Consent) (t : ℕ)
          → c.consent ≡ some r
          → r.expires_at_ms ≡ some t
          → p.valid_until_ms ≤ t)
assert_consent_window c {p} h =
    let (r, passed, same) = assert_consent-Passed c h in
    let (checked, later, minute, limit) = permit_of_window c r passed in
    rw same (checked, later, minute, λ r' t e f. limit t (ground arith))
