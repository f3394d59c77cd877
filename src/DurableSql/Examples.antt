-- ===== src/DurableSql/Examples.antt =====
-- A fence around one table.
use mathlib.Core.List.{Memᴰ}
use memory_server_worker.Prelude.{true, false, List, [], ◌∷◌, contains, All, ok, ◌≡◌, refl}
use memory_server_worker.Routing.Schema.{codes}
use memory_server_worker.Texts.{Text, is_space}
use memory_server_worker.DurableSql.Fence.{
  Schema, schema_eq, table, FencePlan, Verdict, fence_triggers, fenced_tables, sort_named, names_of,
  catalog, is_name, is_virtual_sql, build_write_fence, verify_write_fence,
}
use memory_server_worker.DurableSql.Fence.Fresh.{verify_write_fence-build_write_fence}
use memory_server_worker.DurableSql.Fence.Stops.{IsStop, writes, IsOrdinary}
use memory_server_worker.DurableSql.Fence.Verdicts.{verify_write_fence_complete}

abbrev no_hash : List Schema → Text
no_hash items = []

abbrev notes : Schema
notes = record {
  kind = table;
  name = codes "notes";
  table_name = codes "notes";
  sql = codes "CREATE TABLE notes(body TEXT)";
}

abbrev run_id : Text
run_id = codes "0123456789abcdef01234567"

abbrev plan : FencePlan
plan = record {
  run_id = run_id;
  source_schema_hash = [];
  source = notes ∷ [];
  triggers = fence_triggers run_id 0 (notes ∷ []);
}

build_first : build_write_fence no_hash run_id (notes ∷ []) ≡ ok plan
unfolding build_write_fence catalog is_name is_virtual_sql is_space
build_first = refl

abbrev verdict : Verdict
verdict = record { complete = true; installed = names_of (sort_named plan.triggers); missing = [] }

verify_first : verify_write_fence no_hash plan (notes ∷ plan.triggers) ≡ ok verdict
unfolding verify_write_fence build_write_fence catalog is_name is_virtual_sql is_space
verify_first = refl

verify_write_fence_complete_example :
    All (λ t. contains t (notes ∷ plan.triggers) ≡ true) plan.triggers
    × (plan.triggers ≡ fence_triggers run_id 0 (fenced_tables (notes ∷ [])))
    × ((x : Schema)
        → IsOrdinary (notes ∷ []) x
        → (word : Text) → Memᴰ word writes
        → (t : Schema) × (contains t (notes ∷ plan.triggers) ≡ true) × IsStop run_id x word t)
verify_write_fence_complete_example =
    verify_write_fence_complete no_hash plan (notes ∷ plan.triggers) verify_first refl

verify_write_fence-build_write_fence_example :
    verify_write_fence no_hash plan (notes ∷ [])
    ≡ ok (record { complete = false; installed = []; missing = names_of plan.triggers })
verify_write_fence-build_write_fence_example =
    verify_write_fence-build_write_fence no_hash run_id (notes ∷ []) build_first
