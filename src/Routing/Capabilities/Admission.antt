-- ===== src/Routing/Capabilities/Admission.antt =====
-- What a Seoul server accepts, and what its answer to a search says
-- (saas/src/routing/capabilities.ts).
use memory_server_worker.Prelude.{
  ℕ, String, Bool-cases, true, false, not, ◌&&◌, Option, none, some, ◌==◌, nat_eq, string_eq,
  length, unique, map, all_rows, ◌≡◌, ◌↔◌, ◌⊎◌, ◌≤◌, ap, refl, ok, arith, inl, inr,
}
use memory_server_worker.Routing.Consent.{is_some}
use memory_server_worker.Routing.Policy.{seoul, postgres, kr_seoul, route_eq, storage_eq, region_eq}
use memory_server_worker.Routing.Capabilities.{
  Placement, Metadata, is_placement, is_keyword, is_metadata, admit_operation, admit_metadata,
  assert_seoul_routing_capability, SearchResult, is_match, is_search_result,
  parse_seoul_keyword_search_result,
}

-- A keyword search or an ingest, which the server can do.
abbrev pub Offers : Metadata → (operation : String) (mode : Option String) → Type 0
Offers m operation mode =
    (operation ≡ "memory_search") × (mode ≡ some "keyword") × (m.keyword ≡ true)
    ⊎ (operation ≡ "memory_ingest") × (mode ≡ none) × (m.ingest ≡ true)

-- A ready server of Seoul that is well-formed and offers the operation.
pub record Admits (m : Option Metadata) (operation : String) (mode : Option String) : Type 0 where
  pub metadata : Metadata
  pub declared : m ≡ some metadata
  pub well_formed : is_metadata metadata ≡ true
  pub is_ready : metadata.ready ≡ true
  pub offered : Offers metadata operation mode

is_placement_sound :
    (p : Option Placement) → is_placement p ≡ true → p ≡ some (seoul, postgres, kr_seoul)
is_placement_sound none h = absurd (cc)
is_placement_sound (some (a, b, c)) h =
    let is_route : a ≡ seoul = ground arith in
    let is_storage : b ≡ postgres = ground arith in
    let is_region : c ≡ kr_seoul = ground arith in rw is_route (rw is_storage (rw is_region refl))

is_keyword_sound : (mode : Option String) → is_keyword mode ≡ true → mode ≡ some "keyword"
is_keyword_sound none h = absurd (cc)
is_keyword_sound (some s) h = ap some ((string_eq.beq_iff s "keyword").0 h)

not_some : {A : Type 0} (a : Option A) → is_some a ≡ false → a ≡ none
not_some none h = refl
not_some (some a) h = absurd (cc)

admit_operation_sound :
    (m : Metadata) (operation : String) (mode : Option String)
    → (operation == "memory_search" && not (is_keyword mode)) ≡ false
    → admit_operation m operation mode ≡ ok tt
    → Offers m operation mode
unfolding admit_operation
admit_operation_sound m operation mode k h = elim (Bool-cases (operation == "memory_search")) [
  | inl searches ↦ inl (
    (string_eq.beq_iff operation "memory_search").0 searches,
    is_keyword_sound mode (ground arith),
    ground arith,
  )
  | inr other ↦ inr (
    (string_eq.beq_iff operation "memory_ingest").0 (ground arith),
    not_some mode (ground arith),
    ground arith,
  )
]

admit_metadata_sound :
    (m : Option Metadata) (operation : String) (mode : Option String)
    → (operation == "memory_search" && not (is_keyword mode)) ≡ false
    → admit_metadata m operation mode ≡ ok tt
    → Admits m operation mode
admit_metadata_sound none operation mode k h = absurd (cc)
admit_metadata_sound (some m) operation mode k h = record {
  metadata = m;
  declared = refl;
  well_formed = ground arith;
  is_ready = ground arith;
  offered = admit_operation_sound m operation mode k (ground arith);
}

assert_sound :
    (p : Option Placement) (m : Option Metadata) (operation : String) (mode : Option String)
    → assert_seoul_routing_capability p m operation mode ≡ ok tt
    → (p ≡ some (seoul, postgres, kr_seoul)) × Admits m operation mode
unfolding assert_seoul_routing_capability
assert_sound p m operation mode h = (
  is_placement_sound p (ground arith),
  admit_metadata_sound m operation mode (ground arith) (ground arith),
)

assert_complete :
    (p : Option Placement) (m : Option Metadata) (operation : String) (mode : Option String)
    → p ≡ some (seoul, postgres, kr_seoul)
    → Admits m operation mode
    → assert_seoul_routing_capability p m operation mode ≡ ok tt
unfolding assert_seoul_routing_capability admit_operation
assert_complete p m operation mode placed a = rw placed (
    rw a.declared (elim a.offered [
      | inl searches ↦
          rw searches.0 (rw searches.1 (rw a.well_formed (rw a.is_ready (rw searches.2 refl))))
      | inr ingests ↦
          rw ingests.0 (rw a.well_formed (rw a.is_ready (rw ingests.1 (rw ingests.2 refl))))
    ]))

-- The check passes exactly if the plan is the one of Seoul, and the server declares itself in a
-- well-formed way, is ready, and can do the operation: a search by keyword, or an ingest without a
-- mode.
pub assert_seoul_routing_capability_iff :
    (p : Option Placement) (m : Option Metadata) (operation : String) (mode : Option String)
    → (assert_seoul_routing_capability p m operation mode ≡ ok tt)
      ↔ (p ≡ some (seoul, postgres, kr_seoul)) × Admits m operation mode
assert_seoul_routing_capability_iff p m operation mode =
    (assert_sound p m operation mode, λ h. assert_complete p m operation mode h.0 h.1)

-- With as many matches as it counts, each of another memory and well-formed, and no more than the
-- limit.
record Fits (space_id : String) (limit : Option ℕ) (r : SearchResult) : Type 0 where
  space : r.space_id ≡ space_id
  bound : ℕ
  limited : limit ≡ some bound
  within : r.count ≤ bound
  capped : bound ≤ 50
  counted : r.count ≡ length r.matches
  matched : all_rows is_match r.matches ≡ true
  distinct : unique (map (λ m. m.memory_id) r.matches) ≡ true

-- An answer that is accepted is the one that came, of the Space that was asked for.
parse_seoul_keyword_search_result_sound :
    (r : SearchResult) (space_id : String) (limit : Option ℕ) {x : SearchResult}
    → parse_seoul_keyword_search_result (some r) space_id limit ≡ ok x
    → (r ≡ x) × Fits space_id limit r
unfolding parse_seoul_keyword_search_result is_search_result
parse_seoul_keyword_search_result_sound r space_id none h = absurd (ground arith)
parse_seoul_keyword_search_result_sound r space_id (some n) {x} h = (
  ground arith,
  record {
    space = (string_eq.beq_iff r.space_id space_id).0 (ground arith);
    bound = n;
    limited = refl;
    within = ground arith;
    capped = ground arith;
    counted = ground arith;
    matched = ground arith;
    distinct = ground arith;
  },
)
