-- ===== src/Residency/Derivation.antt =====
-- The policy of data that is derived from several sources (deriveDataPolicy of
-- saas/src/postgres/residency-policy.ts).
use memory_server_worker.Prelude.{
  ◌≤◌, ◌≡◌, Bool, false, ◌||◌, List, [], ◌∷◌, ltb, ◌==◌, ◌!=◌, nat_eq, length, any_row, select_rows,
  contains, All, All-map, All-both, any_row-false, Result, ok, err, reject_if, ◌>>=◌, ◌>>◌,
  Result-cases, inl, inr, ap, sym, ◌∙◌, if◌then◌else◌, arith,
}
use memory_server_worker.Residency.Policies.{
  DataClass, personal, clinical, restricted, unclassified, Tag, clinical_origin, government_id,
  credential, Code, derived_conflict, Policy, residency_eq, profile_eq, boundary_eq, tag_eq,
  class_eq, class_rank, parse_data_policy,
}
use memory_server_worker.Residency.Placement.{IsLawful, parse_data_policy-IsLawful}

unfoldable pub parse_all : List Policy → Result Code (List Policy)
parse_all [] = ok []
parse_all (p ∷ ps) = do q ← parse_data_policy p; qs ← parse_all ps; ok (q ∷ qs)

abbrev has_class : DataClass → List Policy → Bool
has_class c policies = any_row (λ p. p.data_class == c) policies

-- The first of the classes, the most restricted first, that a policy has.
unfoldable pub strictest : List Policy → DataClass
strictest policies =
    if has_class restricted policies
    then restricted
    else if has_class clinical policies
    then clinical
    else if has_class DataClass.health policies
    then DataClass.health
    else if has_class personal policies
    then personal
    else DataClass.general

abbrev has_tag : Tag → List Policy → Bool
has_tag t policies = any_row (λ p. contains t p.sensitivity_tags) policies

-- The set of the tags of the policies.
unfoldable pub union_tags : List Policy → List Tag
union_tags policies =
    select_rows (λ t. has_tag t policies)
      (clinical_origin ∷ credential ∷ government_id ∷ Tag.health ∷ [])

abbrev pub differs : Policy → Policy → Bool
differs first p =
    p.residency != first.residency
    || (p.profile != first.profile
        || (p.processing_boundary != first.processing_boundary
            || p.placement_epoch != first.placement_epoch))

unfoldable pub merge_policies : List Policy → Result Code Policy
merge_policies [] = err derived_conflict
merge_policies (first ∷ rest) = do
  reject_if (any_row (differs first) (first ∷ rest)) derived_conflict
  parse_data_policy (record first {
    data_class = strictest (first ∷ rest);
    classification_status = unclassified;
    sensitivity_tags = union_tags (first ∷ rest);
  })

unfoldable pub derive_data_policy : List Policy → Result Code Policy
derive_data_policy sources = do
  reject_if (length sources == 0 || ltb 32 (length sources)) derived_conflict
  policies ← parse_all sources
  merge_policies policies

strictest_head :
    (p : Policy) (ps : List Policy) → class_rank p.data_class ≤ class_rank (strictest (p ∷ ps))
unfolding strictest
strictest_head p ps = ground arith

strictest_tail :
    (p : Policy) (ps : List Policy) → class_rank (strictest ps) ≤ class_rank (strictest (p ∷ ps))
unfolding strictest
strictest_tail p ps = ground arith

strictest_above :
    (ps : List Policy) → All (λ p. class_rank p.data_class ≤ class_rank (strictest ps)) ps
strictest_above [] = tt
strictest_above (p ∷ ps) = (
  strictest_head p ps,
  All-map ps (λ x below. omega (arith, below, strictest_tail p ps)) (strictest_above ps),
)

-- `q` is stored where `p` is, under the same profile and boundary, and is no less restricted.
pub record IsDerived (p q : Policy) : Type 0 where
  pub residency : p.residency ≡ q.residency
  pub profile : p.profile ≡ q.profile
  pub boundary : p.processing_boundary ≡ q.processing_boundary
  pub epoch : p.placement_epoch ≡ q.placement_epoch
  pub restricted : class_rank p.data_class ≤ class_rank q.data_class

differs_sound :
    (first p : Policy)
    → differs first p ≡ false
    → (p.residency ≡ first.residency)
      × (p.profile ≡ first.profile)
      × (p.processing_boundary ≡ first.processing_boundary)
      × (p.placement_epoch ≡ first.placement_epoch)
differs_sound first p h = (ground arith, ground arith, ground arith, ground arith)

merge_policies-IsDerived :
    (policies : List Policy) {q : Policy}
    → merge_policies policies ≡ ok q
    → All (λ p. IsDerived p q) policies × IsLawful q × (q.classification_status ≡ unclassified)
unfolding merge_policies
merge_policies-IsDerived [] h = absurd (cc)
merge_policies-IsDerived (first ∷ rest) {q} h =
    let merged : Policy = record first {
      data_class = strictest (first ∷ rest);
      classification_status = unclassified;
      sensitivity_tags = union_tags (first ∷ rest);
    } in
    let parsed : parse_data_policy merged ≡ ok q = ground arith in
    let (lawful, (r, p, b, c, status, e)) = parse_data_policy-IsLawful merged parsed in
    let alike : any_row (differs first) (first ∷ rest) ≡ false = ground arith in
    (
      All-map (first ∷ rest)
          (λ x h.
            let (xr, xp, xb, xe) = differs_sound first x h.0 in
            record {
              residency = xr ∙ sym r;
              profile = xp ∙ sym p;
              boundary = xb ∙ sym b;
              epoch = xe ∙ sym e;
              restricted = omega (arith, h.1, ap class_rank c);
            })
          (All-both (λ x. differs first x ≡ false)
            (λ x. class_rank x.data_class ≤ class_rank (strictest (first ∷ rest))) (first ∷ rest)
            (any_row-false (differs first) (first ∷ rest) alike) (strictest_above (first ∷ rest))),
      lawful,
      status,
    )

-- A policy that is derived from several sources, each of which parses, has the placement of all of
-- them and a class at least as restricted as that of each. It is lawful, and unclassified until it
-- is classified anew.
pub derive_data_policy-IsDerived :
    (sources : List Policy) {q : Policy}
    → derive_data_policy sources ≡ ok q
    → (policies : List Policy) × (parse_all sources ≡ ok policies)
      × All (λ p. IsDerived p q) policies
      × IsLawful q
      × (q.classification_status ≡ unclassified)
unfolding derive_data_policy
derive_data_policy-IsDerived sources {q} h = elim (Result-cases (parse_all sources)) [
  | inl (policies, e) ↦
      let merged : merge_policies policies ≡ ok q = ground arith in
      let (derived, lawful, status) = merge_policies-IsDerived policies merged in
      (policies, e, derived, lawful, status)
  | inr (code, e) ↦ absurd (ground arith)
]
