-- ===== src/Residency/Policies.antt =====
-- The data policies of saas/src/postgres/residency-policy.ts, and the functions on them.
use memory_server_worker.Prelude.{
  ℕ, Bool, true, false, not, ◌&&◌, ◌||◌, Option, none, some, List, [], ◌∷◌, ltb, leb, ◌==◌, ◌!=◌,
  Eq, enum_eq, nat_eq, length, any_row, select_rows, contains, ◌≡◌, ◌↔◌, Result, ok, err, reject_if,
  ◌>>=◌, ◌>>◌, if◌then◌else◌, arith,
}
use memory_server_worker.Routing.Schema.{max_safe_integer}

pub data Residency : Type 0 where
  sg kr_seoul : Residency

pub data Profile : Type 0 where
  standard kr_primary_storage medical_strict : Profile

pub data Boundary : Type 0 where
  approved_processors kr kr_seoul : Boundary

pub data DataClass : Type 0 where
  general personal health clinical restricted : DataClass

pub data Status : Type 0 where
  unclassified declared verified : Status

pub data Tag : Type 0 where
  health clinical_origin government_id credential : Tag

-- The profile that a placement request may ask for.
pub data Wish : Type 0 where
  general medical strict : Wish

pub data Code : Type 0 where
  policy_invalid requires_seoul region_mismatch classification_required derived_conflict : Code

abbrev pub residency_rank : Residency → ℕ
residency_rank sg = 0
residency_rank Residency.kr_seoul = 1

abbrev pub tag_rank : Tag → ℕ
tag_rank Tag.health = 0
tag_rank clinical_origin = 1
tag_rank government_id = 2
tag_rank credential = 3

abbrev pub profile_rank : Profile → ℕ
profile_rank standard = 0
profile_rank kr_primary_storage = 1
profile_rank medical_strict = 2

abbrev pub boundary_rank : Boundary → ℕ
boundary_rank approved_processors = 0
boundary_rank kr = 1
boundary_rank Boundary.kr_seoul = 2

-- By how far a class restricts what may be done.
abbrev pub class_rank : DataClass → ℕ
class_rank DataClass.general = 0
class_rank personal = 1
class_rank DataClass.health = 2
class_rank clinical = 3
class_rank restricted = 4

pub residency_rank_iff :
    (a b : Residency) → ((residency_rank a == residency_rank b) ≡ true) ↔ (a ≡ b)
residency_rank_iff a b = ground arith

pub tag_rank_iff : (a b : Tag) → ((tag_rank a == tag_rank b) ≡ true) ↔ (a ≡ b)
tag_rank_iff a b = ground arith

pub profile_rank_iff : (a b : Profile) → ((profile_rank a == profile_rank b) ≡ true) ↔ (a ≡ b)
profile_rank_iff a b = ground arith

pub boundary_rank_iff : (a b : Boundary) → ((boundary_rank a == boundary_rank b) ≡ true) ↔ (a ≡ b)
boundary_rank_iff a b = ground arith

pub class_rank_iff : (a b : DataClass) → ((class_rank a == class_rank b) ≡ true) ↔ (a ≡ b)
class_rank_iff a b = ground arith

instance abbrev pub residency_eq : Eq Residency
residency_eq = enum_eq residency_rank residency_rank_iff

instance abbrev pub tag_eq : Eq Tag
tag_eq = enum_eq tag_rank tag_rank_iff

instance abbrev pub profile_eq : Eq Profile
profile_eq = enum_eq profile_rank profile_rank_iff

instance abbrev pub boundary_eq : Eq Boundary
boundary_eq = enum_eq boundary_rank boundary_rank_iff

instance abbrev pub class_eq : Eq DataClass
class_eq = enum_eq class_rank class_rank_iff

-- `policyVersion` has one value.
pub record Policy : Type 0 where
  pub residency : Residency
  pub profile : Profile
  pub processing_boundary : Boundary
  pub data_class : DataClass
  pub classification_status : Status
  pub sensitivity_tags : List Tag
  pub placement_epoch : ℕ

pub record Request : Type 0 where
  pub data_class : DataClass
  pub profile : Option Wish
  pub sensitivity_tags : List Tag

pub record Context : Type 0 where
  pub database_region : Residency
  pub credential_region : Residency
  pub tenant_region : Residency

pub record Chosen : Type 0 where
  pub residency : Residency
  pub profile : Profile

abbrev pub is_sensitive_class : DataClass → Bool
is_sensitive_class DataClass.general = false
is_sensitive_class personal = false
is_sensitive_class DataClass.health = true
is_sensitive_class clinical = true
is_sensitive_class restricted = true

abbrev pub is_sensitive : DataClass → List Tag → Bool
is_sensitive data_class tags = is_sensitive_class data_class || ltb 0 (length tags)

abbrev pub is_unclassified : Status → Bool
is_unclassified unclassified = true
is_unclassified declared = false
is_unclassified verified = false

unfoldable pub place : Option Wish → (sensitive : Bool) → Result Code Chosen
place (some Wish.general) sensitive =
    if sensitive then err requires_seoul else ok (record { residency = sg; profile = standard })
place (some strict) sensitive =
    ok (record { residency = Residency.kr_seoul; profile = medical_strict })
place (some medical) sensitive =
    ok (record { residency = Residency.kr_seoul; profile = kr_primary_storage })
place none sensitive =
    if sensitive
    then ok (record { residency = Residency.kr_seoul; profile = kr_primary_storage })
    else ok (record { residency = sg; profile = standard })

unfoldable pub select_storage_placement : Request → Result Code Chosen
select_storage_placement p = do
  reject_if (ltb 4 (length p.sensitivity_tags)) policy_invalid
  place p.profile (is_sensitive p.data_class p.sensitivity_tags)

-- policySchema
unfoldable pub is_policy : Policy → Bool
is_policy p =
    leb (length p.sensitivity_tags) 4
    && (ltb 0 p.placement_epoch && leb p.placement_epoch max_safe_integer)

unfoldable pub is_incoherent : Policy → Bool
is_incoherent p =
    p.profile == standard && p.residency != sg
    || (p.profile != standard && p.residency != Residency.kr_seoul
        || (if p.profile == medical_strict
            then p.processing_boundary == approved_processors
            else p.processing_boundary != approved_processors))

-- The tags that the class and the other tags imply.
unfoldable pub implied_tags : DataClass → List Tag → List Tag
implied_tags data_class tags =
    let with_health =
      (if data_class == DataClass.health
          || (data_class == clinical || contains clinical_origin tags)
        then Tag.health ∷ tags
        else tags) in
    if data_class == clinical then clinical_origin ∷ with_health else with_health

-- The set of the tags in the order of their names.
unfoldable pub sorted_tags : List Tag → List Tag
sorted_tags tags =
    select_rows (λ t. contains t tags)
      (clinical_origin ∷ credential ∷ government_id ∷ Tag.health ∷ [])

unfoldable pub parse_data_policy : Policy → Result Code Policy
parse_data_policy p = do
  reject_if (not (is_policy p)) policy_invalid
  reject_if (is_incoherent p) policy_invalid
  let tags = implied_tags p.data_class p.sensitivity_tags
  reject_if (p.residency != Residency.kr_seoul && is_sensitive p.data_class tags) requires_seoul
  ok (record p { sensitivity_tags = sorted_tags tags })

unfoldable pub assert_regional_storage_admission : Policy → Context → Result Code (Unit {0})
assert_regional_storage_admission input c = do
  p ← parse_data_policy input
  reject_if
      (any_row (λ region. region != p.residency)
        (c.database_region ∷ c.credential_region ∷ c.tenant_region ∷ []))
      region_mismatch
  reject_if (is_unclassified p.classification_status) classification_required

unfoldable pub assert_same_storage_region : Policy → Residency → Result Code (Unit {0})
assert_same_storage_region input target = do
  p ← parse_data_policy input
  reject_if (target != p.residency) region_mismatch
