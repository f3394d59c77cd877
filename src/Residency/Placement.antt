-- ===== src/Residency/Placement.antt =====
-- Sensitive data is stored in Seoul.
use memory_server_worker.Prelude.{
  Bool, true, false, ◌&&◌, List, [], ◌∷◌, ◌==◌, ◌!=◌, nat_eq, ◌≡◌, ◌≢◌, refl, ok, >>=-eq-ok, arith,
  Bool-cases, inl, inr,
}
use memory_server_worker.Residency.Policies.{
  Residency, sg, Tag, Profile, standard, medical_strict, approved_processors, unclassified, Policy,
  Request, Context, Chosen, residency_eq, profile_eq, boundary_eq, tag_eq, class_eq, is_sensitive,
  place, select_storage_placement, is_policy, is_incoherent, implied_tags, sorted_tags,
  parse_data_policy, assert_regional_storage_admission,
}

-- A policy whose storage fits its profile, and is in Seoul for sensitive data.
pub record IsLawful (p : Policy) : Type 0 where
  pub plain_profile : p.profile ≡ standard → p.residency ≡ sg
  pub seoul_profile : p.profile ≢ standard → p.residency ≡ Residency.kr_seoul
  pub strict_boundary : p.profile ≡ medical_strict → p.processing_boundary ≢ approved_processors
  pub sensitive :
      is_sensitive p.data_class p.sensitivity_tags ≡ true → p.residency ≡ Residency.kr_seoul

sorted_tags_none : sorted_tags [] ≡ []
unfolding sorted_tags
sorted_tags_none = refl

sensitive-sorted_tags :
    (p : Policy) (tags : List Tag)
    → is_sensitive p.data_class (sorted_tags tags) ≡ true
    → is_sensitive p.data_class tags ≡ true
sensitive-sorted_tags p [] h = rw sorted_tags_none at h
sensitive-sorted_tags p (t ∷ tags) h = ground arith

is_incoherent_sound :
    (p : Policy)
    → is_incoherent p ≡ false
    → (p.profile ≡ standard → p.residency ≡ sg)
      × (p.profile ≢ standard → p.residency ≡ Residency.kr_seoul)
      × (p.profile ≡ medical_strict → p.processing_boundary ≢ approved_processors)
unfolding is_incoherent
is_incoherent_sound p h = (
  λ e. ground arith,
  λ n. seoul p.profile p.residency n (ground arith),
  λ e n. absurd (ground arith),
)
  where
    seoul :
        (a : Profile) (r : Residency)
        → a ≢ standard
        → (a != standard && r != Residency.kr_seoul) ≡ false
        → r ≡ Residency.kr_seoul
    seoul a r n h = elim (Bool-cases (a == standard)) [
      | inl same ↦ absurd (n ((profile_eq.beq_iff a standard).0 same))
      | inr other ↦ ground arith
    ]

parse_data_policy-eq-ok :
    (p : Policy) {q : Policy}
    → parse_data_policy p ≡ ok q
    → (is_policy p ≡ true)
      × (is_incoherent p ≡ false)
      × ((p.residency != Residency.kr_seoul
            && is_sensitive p.data_class (implied_tags p.data_class p.sensitivity_tags))
          ≡ false)
      × (q ≡ record p {
        sensitivity_tags = sorted_tags (implied_tags p.data_class p.sensitivity_tags);
      })
unfolding parse_data_policy
parse_data_policy-eq-ok p h = (ground arith, ground arith, ground arith, ground arith)

-- A policy that parses keeps its residency, profile, boundary, class, status and epoch. It is lawful:
-- the standard profile is stored in Singapore and the others in Seoul, the strict profile does not
-- use the approved processors, and sensitive data is in Seoul.
pub parse_data_policy-IsLawful :
    (p : Policy) {q : Policy}
    → parse_data_policy p ≡ ok q
    → IsLawful q
      × ((q.residency ≡ p.residency)
          × (q.profile ≡ p.profile)
          × (q.processing_boundary ≡ p.processing_boundary)
          × (q.data_class ≡ p.data_class)
          × (q.classification_status ≡ p.classification_status)
          × (q.placement_epoch ≡ p.placement_epoch))
parse_data_policy-IsLawful p h =
    let (valid, coherent, seoul, same) = parse_data_policy-eq-ok p h in
    let (plain, others, strict) = is_incoherent_sound p coherent in
    let implied = implied_tags p.data_class p.sensitivity_tags in
    rw same (
      record {
        plain_profile = plain;
        seoul_profile = others;
        strict_boundary = strict;
        sensitive = λ e. in_seoul p.residency (sensitive-sorted_tags p implied e) seoul;
      },
      (refl, refl, refl, refl, refl, refl),
    )
  where
    in_seoul :
        {b : Bool} (r : Residency)
        → b ≡ true
        → (r != Residency.kr_seoul && b) ≡ false
        → r ≡ Residency.kr_seoul
    in_seoul r e h = ground arith

-- Data is admitted to a region only if its policy parses to a lawful one that is classified, and the
-- database, the credential and the tenant are all in the region of that policy.
pub assert_regional_storage_admission_sound :
    (p : Policy) (c : Context)
    → assert_regional_storage_admission p c ≡ ok tt
    → (q : Policy) × (parse_data_policy p ≡ ok q)
      × IsLawful q
      × (c.database_region ≡ q.residency)
      × (c.credential_region ≡ q.residency)
      × (c.tenant_region ≡ q.residency)
      × (q.classification_status ≢ unclassified)
unfolding assert_regional_storage_admission
assert_regional_storage_admission_sound p c h =
    let (q, parsed, rest) = >>=-eq-ok (parse_data_policy p) _ h in
    (
      q,
      parsed,
      (parse_data_policy-IsLawful p parsed).0,
      ground arith,
      ground arith,
      ground arith,
      λ e. absurd (ground arith),
    )

-- A placement that is chosen for sensitive data is in Seoul; a chosen standard profile is stored in
-- Singapore, and any other profile in Seoul.
pub select_storage_placement_sound :
    (r : Request) {c : Chosen}
    → select_storage_placement r ≡ ok c
    → (is_sensitive r.data_class r.sensitivity_tags ≡ true → c.residency ≡ Residency.kr_seoul)
      × (c.profile ≡ standard → c.residency ≡ sg)
      × (c.profile ≢ standard → c.residency ≡ Residency.kr_seoul)
unfolding select_storage_placement place
select_storage_placement_sound r {c} h = (
  λ e. ground arith,
  λ e. ground arith,
  λ n. elim (Bool-cases (c.profile == standard)) [
    | inl same ↦ absurd (n ((profile_eq.beq_iff c.profile standard).0 same))
    | inr other ↦ ground arith
  ],
)
