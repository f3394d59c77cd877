-- ===== src/Residency/Examples.antt =====
-- Policies in use.
use memory_server_worker.Prelude.{All, List, none, [], ◌∷◌, ◌≡◌, ◌≢◌, refl, ok}
use memory_server_worker.Residency.Policies.{
  Residency, kr_primary_storage, approved_processors, personal, clinical, declared, unclassified,
  Tag, clinical_origin, government_id, Policy, Request, Context, Chosen, place,
  select_storage_placement, is_policy, is_incoherent, implied_tags, sorted_tags, parse_data_policy,
  assert_regional_storage_admission,
}
use memory_server_worker.Residency.Derivation.{
  parse_all, strictest, union_tags, merge_policies, derive_data_policy, IsDerived,
  derive_data_policy-IsDerived,
}
use memory_server_worker.Residency.Placement.{
  IsLawful, parse_data_policy-IsLawful, assert_regional_storage_admission_sound,
}

abbrev records : Policy
records = record {
  residency = Residency.kr_seoul;
  profile = kr_primary_storage;
  processing_boundary = approved_processors;
  data_class = clinical;
  classification_status = declared;
  sensitivity_tags = government_id ∷ [];
  placement_epoch = 1;
}

abbrev tagged : Policy
tagged = record records { sensitivity_tags = clinical_origin ∷ government_id ∷ Tag.health ∷ [] }

abbrev seoul : Context
seoul = record {
  database_region = Residency.kr_seoul;
  credential_region = Residency.kr_seoul;
  tenant_region = Residency.kr_seoul;
}

abbrev charts : Request
charts = record { data_class = clinical; profile = none; sensitivity_tags = [] }

abbrev chosen : Chosen
chosen = record { residency = Residency.kr_seoul; profile = kr_primary_storage }

records_parsed : parse_data_policy records ≡ ok tagged
unfolding parse_data_policy is_policy is_incoherent implied_tags sorted_tags
records_parsed = refl

records_admitted : assert_regional_storage_admission records seoul ≡ ok tt
unfolding assert_regional_storage_admission parse_data_policy is_policy is_incoherent implied_tags
    sorted_tags
records_admitted = refl

charts_placed : select_storage_placement charts ≡ ok chosen
unfolding select_storage_placement place
charts_placed = refl

parse_data_policy-IsLawful_example :
    IsLawful tagged
    × ((tagged.residency ≡ records.residency)
        × (tagged.profile ≡ records.profile)
        × (tagged.processing_boundary ≡ records.processing_boundary)
        × (tagged.data_class ≡ records.data_class)
        × (tagged.classification_status ≡ records.classification_status)
        × (tagged.placement_epoch ≡ records.placement_epoch))
parse_data_policy-IsLawful_example = parse_data_policy-IsLawful records records_parsed

assert_regional_storage_admission_sound_example :
    (q : Policy) × (parse_data_policy records ≡ ok q)
    × IsLawful q
    × (Residency.kr_seoul ≡ q.residency)
    × (Residency.kr_seoul ≡ q.residency)
    × (Residency.kr_seoul ≡ q.residency)
    × (q.classification_status ≢ unclassified)
assert_regional_storage_admission_sound_example =
    assert_regional_storage_admission_sound records seoul records_admitted

abbrev notes : Policy
notes = record records { data_class = personal; sensitivity_tags = [] }

abbrev summary : Policy
summary = record tagged { classification_status = unclassified }

summary_derived : derive_data_policy (notes ∷ records ∷ []) ≡ ok summary
unfolding derive_data_policy parse_all merge_policies strictest union_tags parse_data_policy
    is_policy is_incoherent implied_tags sorted_tags
summary_derived = refl

derive_data_policy-IsDerived_example :
    (policies : List Policy) × (parse_all (notes ∷ records ∷ []) ≡ ok policies)
    × All (λ p. IsDerived p summary) policies
    × IsLawful summary
    × (unclassified ≡ unclassified)
derive_data_policy-IsDerived_example =
    derive_data_policy-IsDerived (notes ∷ records ∷ []) summary_derived
