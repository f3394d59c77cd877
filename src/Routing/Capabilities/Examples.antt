-- ===== src/Routing/Capabilities/Examples.antt =====
-- A server that can search and takes no memory in.
use memory_server_worker.Prelude.{true, false, none, some, [], ◌∷◌, ◌≡◌, ◌↔◌, refl, ok, err}
use memory_server_worker.Routing.Schema.{is_identifier}
use memory_server_worker.Routing.Executor.Encodings.{utf8_length}
use memory_server_worker.Routing.Policy.{seoul, postgres, kr_seoul}
use memory_server_worker.Routing.Capabilities.{
  Placement, Metadata, SearchResult, search_mode_unavailable, target_unavailable, response_invalid,
  is_metadata, admit_operation, assert_seoul_routing_capability, is_match, is_search_result,
  parse_seoul_keyword_search_result,
}
use memory_server_worker.Routing.Capabilities.Admission.{
  Admits, assert_seoul_routing_capability_iff,
}

abbrev placement : Placement
placement = (seoul, postgres, kr_seoul)

abbrev server : Metadata
server = record {
  route = seoul;
  storage = postgres;
  region = kr_seoul;
  ready = true;
  ingest = false;
  keyword = true;
}

abbrev found : SearchResult
found = record {
  space_id = "s";
  matches = record { memory_id = "m"; revision = 1; excerpt = "kept" } ∷ [];
  count = 1;
}

search_admitted :
    assert_seoul_routing_capability (some placement) (some server) "memory_search" (some "keyword")
    ≡ ok tt
unfolding assert_seoul_routing_capability admit_operation is_metadata
search_admitted = refl

semantic_refused :
    assert_seoul_routing_capability (some placement) (some server) "memory_search" (some "semantic")
    ≡ err search_mode_unavailable
unfolding assert_seoul_routing_capability
semantic_refused = refl

ingest_refused :
    assert_seoul_routing_capability (some placement) (some server) "memory_ingest" none
    ≡ err target_unavailable
unfolding assert_seoul_routing_capability admit_operation is_metadata
ingest_refused = refl

found_parsed : parse_seoul_keyword_search_result (some found) "s" (some 8) ≡ ok found
unfolding parse_seoul_keyword_search_result is_search_result is_match is_identifier utf8_length
found_parsed = refl

found_elsewhere : parse_seoul_keyword_search_result (some found) "t" (some 8) ≡ err response_invalid
unfolding parse_seoul_keyword_search_result is_search_result is_match is_identifier utf8_length
found_elsewhere = refl

assert_seoul_routing_capability_iff_example :
    (assert_seoul_routing_capability (some placement) (some server) "memory_search" (some "keyword")
      ≡ ok tt)
    ↔ ((some placement ≡ some (seoul, postgres, kr_seoul))
        × Admits (some server) "memory_search" (some "keyword"))
assert_seoul_routing_capability_iff_example =
    assert_seoul_routing_capability_iff (some placement) (some server) "memory_search"
      (some "keyword")
