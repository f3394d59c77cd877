-- ===== src/Routing/Capabilities.antt =====
-- saas/src/routing/capabilities.ts: what a Seoul server declares that it can do, and the answer to a
-- keyword search. `none` stands for a value that has not the shape wanted, and for a limit that is
-- no safe natural number; a literal field with one value is left out. A string has no lone
-- surrogates here, as in Executor/Encodings.
pub mod Admission
mod Examples
use memory_server_worker.Prelude.{
  ℕ, String, Bool, true, false, not, ◌&&◌, ◌||◌, Option, none, some, List, leb, ◌==◌, ◌!=◌, Eq,
  nat_eq, string_eq, length, all_rows, unique, map, if◌then◌else◌, Result, ok, err, reject_if,
  ◌>>=◌, ◌>>◌,
}
use memory_server_worker.Routing.Schema.{is_identifier, max_safe_integer}
use memory_server_worker.Routing.Consent.{is_some}
use memory_server_worker.Routing.Policy.{
  Route, Storage, Region, seoul, postgres, kr_seoul, route_eq, storage_eq, region_eq,
}
use memory_server_worker.Routing.Executor.Encodings.{utf8_length}

pub data Code : Type 0 where
  plan_invalid search_mode_unavailable target_unavailable response_invalid : Code

-- The route, the storage and the region of seoulPlacementSchema.
abbrev pub Placement : Type 0
Placement = Route × Storage × Region

-- The target of seoulRoutingMetadataSchema, with its capabilities. `semantic` has one value.
pub record Metadata : Type 0 where
  pub route : Route
  pub storage : Storage
  pub region : Region
  pub ready : Bool
  pub ingest : Bool
  pub keyword : Bool

abbrev pub is_seoul : Placement → Bool
is_seoul (route, storage, region) = route == seoul && (storage == postgres && region == kr_seoul)

-- `t.ready === (t.capabilities.ingest || t.capabilities.search.keyword)`
abbrev pub agrees : (ready able : Bool) → Bool
agrees true able = able
agrees false able = not able

-- seoulRoutingMetadataSchema
unfoldable pub is_metadata : Metadata → Bool
is_metadata m = is_seoul (m.route, m.storage, m.region) && agrees m.ready (m.ingest || m.keyword)

abbrev pub is_placement : Option Placement → Bool
is_placement none = false
is_placement (some p) = is_seoul p

abbrev pub is_keyword : Option String → Bool
is_keyword none = false
is_keyword (some mode) = mode == "keyword"

-- What the capabilities say of an operation; the mode of an ingest is left out.
unfoldable pub admit_operation :
    Metadata → (operation : String) (mode : Option String) → Result Code (Unit {0})
admit_operation m operation mode =
    if operation == "memory_search"
    then reject_if (not m.keyword) search_mode_unavailable
    else reject_if (operation != "memory_ingest" || (is_some mode || not m.ingest))
        target_unavailable

abbrev pub admit_metadata :
    Option Metadata → (operation : String) (mode : Option String) → Result Code (Unit {0})
admit_metadata none operation mode = err target_unavailable
admit_metadata (some m) operation mode = do
  reject_if (not (is_metadata m) || not m.ready) target_unavailable
  admit_operation m operation mode

unfoldable pub assert_seoul_routing_capability :
    Option Placement
    → Option Metadata
    → (operation : String) (mode : Option String) → Result Code (Unit {0})
assert_seoul_routing_capability p m operation mode = do
  reject_if (not (is_placement p)) plan_invalid
  reject_if (operation == "memory_search" && not (is_keyword mode)) search_mode_unavailable
  admit_metadata m operation mode

pub record Match : Type 0 where
  pub memory_id : String
  pub revision : ℕ
  pub excerpt : String

pub record SearchResult : Type 0 where
  pub space_id : String
  pub matches : List Match
  pub count : ℕ

unfoldable pub is_match : Match → Bool
is_match m =
    is_identifier m.memory_id
    && (leb 1 m.revision && (leb m.revision max_safe_integer && leb (utf8_length m.excerpt) 32768))

-- seoulKeywordSearchResultSchema
unfoldable pub is_search_result : SearchResult → Bool
is_search_result r =
    is_identifier r.space_id
    && (all_rows is_match r.matches
        && (leb (length r.matches) 50
            && (leb r.count 50
                && (r.count == length r.matches && unique (map (λ m. m.memory_id) r.matches)))))

abbrev pub fits_limit : Option ℕ → (count : ℕ) → Bool
fits_limit none count = false
fits_limit (some limit) count = leb 1 limit && (leb limit 50 && leb count limit)

unfoldable pub parse_seoul_keyword_search_result :
    Option SearchResult → (space_id : String) (limit : Option ℕ) → Result Code SearchResult
parse_seoul_keyword_search_result none space_id limit = err response_invalid
parse_seoul_keyword_search_result (some r) space_id limit = do
  reject_if (not (is_search_result r)) response_invalid
  reject_if (r.space_id != space_id || not (fits_limit limit r.count)) response_invalid
  ok r
