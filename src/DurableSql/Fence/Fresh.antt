-- ===== src/DurableSql/Fence/Fresh.antt =====
-- A fence that was built and not yet installed.
use memory_server_worker.Prelude.{
  ℕ, ◌+◌, true, false, not, none, List, [], ◌∷◌, ◌==◌, nat_eq, length, select_rows, any_row,
  contains, ◌≡◌, refl, ap, sym, ◌∙◌, arith, Bool-cases, inl, inr, ok,
}
use memory_server_worker.Texts.{Text, text_eq}
use memory_server_worker.DurableSql.Fence.{
  Schema, schema_beq_iff, schemas_beq, FencePlan, is_reserved, trigger_name, fence_triggers,
  fenced_tables, names_of, owned, parted, same_plan, catalog, build_write_fence, verify_write_fence,
  inserts, updates, deletes, Operation,
}
use memory_server_worker.DurableSql.Fence.Sorting.{catalog-again}

schemas_beq_refl : (a : List Schema) → schemas_beq a a ≡ true
schemas_beq_refl [] = refl
schemas_beq_refl (x ∷ a) = rw ((schema_beq_iff x x).1 refl, schemas_beq_refl a) refl

same_plan_refl : (a : FencePlan) → same_plan a a ≡ true
same_plan_refl a =
    rw
      (
        (text_eq.beq_iff a.run_id a.run_id).1 refl,
        (text_eq.beq_iff a.source_schema_hash a.source_schema_hash).1 refl,
        schemas_beq_refl a.source,
        schemas_beq_refl a.triggers,
      )
      refl

trigger_name-is_reserved :
    (run_id : Text) (at : ℕ) (o : Operation) → is_reserved (trigger_name run_id at o) ≡ true
trigger_name-is_reserved run_id at o = refl

other :
    (name run_id : Text) (at : ℕ) (o : Operation)
    → is_reserved name ≡ false
    → (trigger_name run_id at o == name) ≡ false
other name run_id at o free = elim (Bool-cases (trigger_name run_id at o == name)) [
  | inr e ↦ e
  | inl e ↦
      let same = (text_eq.beq_iff (trigger_name run_id at o) name).0 e in
      let reserved : is_reserved name ≡ true =
        ap is_reserved (sym same) ∙ trigger_name-is_reserved run_id at o in
      absurd (cc)
]

-- A name that is not reserved is the name of no trigger of a fence.
owned-unreserved :
    (name run_id : Text) (at : ℕ) (items : List Schema)
    → is_reserved name ≡ false
    → owned name (fence_triggers run_id at items) ≡ none
owned-unreserved name run_id at [] free = refl
owned-unreserved name run_id at (x ∷ xs) free =
    let rest = owned-unreserved name run_id (at + 1) xs free in
    rw
      (
        owned,
        rest,
        other name run_id at deletes free,
        other name run_id at updates free,
        other name run_id at inserts free,
      )
      refl

parted-unreserved :
    (run_id : Text) (items source : List Schema)
    → any_row (λ x. is_reserved x.name) source ≡ false
    → parted (fence_triggers run_id 0 items) source ≡ ok ([], source)
parted-unreserved run_id items [] free = refl
parted-unreserved run_id items (x ∷ xs) free =
    let mine = owned-unreserved x.name run_id 0 items (ground arith) in
    let rest = parted-unreserved run_id items xs (ground arith) in rw (parted, mine, rest) refl

select_all : (ts : List Schema) → select_rows (λ t. not (contains t.name [])) ts ≡ ts
select_all [] = refl
select_all (t ∷ ts) = ap (λ r. t ∷ r) (select_all ts)

fence_triggers-full :
    (run_id : Text) (at : ℕ) (items : List Schema)
    → (length items == 0) ≡ false
    → (length (names_of (fence_triggers run_id at items)) == 0) ≡ false
fence_triggers-full run_id at [] h = absurd (ground arith)
fence_triggers-full run_id at (x ∷ xs) h = ground arith

build-facts :
    (hash : List Schema → Text) (run_id : Text) (schema : List Schema) {plan : FencePlan}
    → build_write_fence hash run_id schema ≡ ok plan
    → (catalog schema 600 ≡ ok plan.source)
      × (any_row (λ x. is_reserved x.name) plan.source ≡ false)
      × (plan.triggers ≡ fence_triggers run_id 0 (fenced_tables plan.source))
      × ((length (fenced_tables plan.source) == 0) ≡ false)
      × (plan.run_id ≡ run_id)
unfolding build_write_fence
build-facts hash run_id schema {plan = plan} h =
    (ground arith, ground arith, ground arith, ground arith, ground arith)

-- The plan of a fence is built again from its own source.
pub build_write_fence-again :
    (hash : List Schema → Text) (run_id : Text) (schema : List Schema) {plan : FencePlan}
    → build_write_fence hash run_id schema ≡ ok plan
    → build_write_fence hash plan.run_id plan.source ≡ ok plan
unfolding build_write_fence
build_write_fence-again hash run_id schema {plan = plan} h =
    let (seen, free, made, some_table, run) = build-facts hash run_id schema h in
    let again = catalog-again schema 600 600 seen (omega arith) in rw (run, again) (ground arith)

-- A fence that was built is verified against its own source: it is not complete, none of its triggers
-- is installed, and all are missing.
pub verify_write_fence-build_write_fence :
    (hash : List Schema → Text) (run_id : Text) (schema : List Schema) {plan : FencePlan}
    → build_write_fence hash run_id schema ≡ ok plan
    → verify_write_fence hash plan plan.source
      ≡ ok (record { complete = false; installed = []; missing = names_of plan.triggers })
unfolding verify_write_fence
verify_write_fence-build_write_fence hash run_id schema {plan = plan} h =
    let (seen, free, made, some_table, run) = build-facts hash run_id schema h in
    let again = catalog-again schema 600 984 seen (omega arith) in
    let built = build_write_fence-again hash run_id schema h in
    let parts : parted plan.triggers plan.source ≡ ok ([], plan.source) =
      rw made (parted-unreserved run_id (fenced_tables plan.source) plan.source free) in
    let all = select_all plan.triggers in
    let unfinished : (length (names_of plan.triggers) == 0) ≡ false =
      rw made (fence_triggers-full run_id 0 (fenced_tables plan.source) some_table) in
    rw (again, built, same_plan_refl plan, parts, schemas_beq_refl plan.source, all, unfinished)
      refl
