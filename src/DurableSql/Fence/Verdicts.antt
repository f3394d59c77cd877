-- ===== src/DurableSql/Fence/Verdicts.antt =====
-- What a verdict on a fence says of the catalog.
use mathlib.Core.List.{Memᴰ}
use memory_server_worker.Prelude.{
  ℕ, ◌≤◌, true, not, Option, some, List, [], ◌∷◌, ◌==◌, nat_eq, length, select_rows, contains, All,
  All-map, All-both, ◌≡◌, refl, sym, ◌∙◌, arith, Bool-cases, Option-cases, inl, inr, ok, >>=-eq-ok,
}
use memory_server_worker.Texts.{Text, text_eq}
use memory_server_worker.DurableSql.Fence.{
  text_ltb, Schema, schema_eq, schema_beq, schema_beq_iff, schemas_beq, FencePlan, Verdict,
  insert_named, sort_named, catalog, names_of, fenced_tables, fence_triggers, build_write_fence,
  owned, parted, same_plan, verify_write_fence,
}
use memory_server_worker.DurableSql.Fence.Triggers.{owned-fence_triggers}
use memory_server_worker.DurableSql.Fence.Stops.{
  IsStop, writes, IsOrdinary, fence_triggers-IsStop, fenced_tables-IsOrdinary, All-Mem,
}

contains-insert_named :
    (t x : Schema) (xs : List Schema)
    → contains t (insert_named x xs) ≡ true
    → contains t (x ∷ xs) ≡ true
contains-insert_named t x [] h = h
contains-insert_named t x (y ∷ ys) h =
    let rest = contains-insert_named t x ys in
    elim (Bool-cases (text_ltb y.name x.name)) [
      | inl less ↦ elim (Bool-cases (contains t (insert_named x ys))) [
        | inl later ↦ ground (arith, rest later)
        | inr not_later ↦ ground arith
      ]
      | inr other ↦ rw other at h
    ]

contains-sort_named :
    (t : Schema) (xs : List Schema) → contains t (sort_named xs) ≡ true → contains t xs ≡ true
contains-sort_named t [] h = h
contains-sort_named t (x ∷ xs) h =
    let found = contains-insert_named t x (sort_named xs) h in
    elim (Bool-cases (contains t (sort_named xs))) [
      | inl later ↦ ground (arith, contains-sort_named t xs later)
      | inr not_later ↦ ground arith
    ]

schemas_beq_sound : (a b : List Schema) → schemas_beq a b ≡ true → a ≡ b
schemas_beq_sound [] [] h = refl
schemas_beq_sound [] (y ∷ b) h = absurd (ground arith)
schemas_beq_sound (x ∷ a) [] h = absurd (ground arith)
schemas_beq_sound (x ∷ a) (y ∷ b) h =
    let one = (schema_beq_iff x y).0 (ground arith) in
    let rest = schemas_beq_sound a b (ground arith) in ground arith

contains-later :
    (t x : Schema) (xs : List Schema) → contains t xs ≡ true → contains t (x ∷ xs) ≡ true
contains-later t x xs h = ground arith

-- The names that a catalog was found to have are those of triggers that stand in it.
parted-installed :
    (triggers xs : List Schema) {parts : List Text × List Schema}
    → parted triggers xs ≡ ok parts
    → (n : Text) → contains n parts.0 ≡ true
    → (t : Schema) × (owned n triggers ≡ some t) × (contains t xs ≡ true)
parted-installed triggers [] h n found = absurd (ground arith)
parted-installed triggers (x ∷ xs) {parts = parts} h n found =
    elim (Option-cases (owned x.name triggers)) [
      | inl other ↦
          let (rest, run, e) =
            >>=-eq-ok (parted triggers xs) (λ r. ok (r.0, x ∷ r.1)) (rw (parted, other) at h) in
          let names : parts.0 ≡ rest.0 = ground arith in
          let (t, own, stands) = parted-installed triggers xs run n (rw names at found) in
          (t, own, contains-later t x xs stands)
      | inr (t, e) ↦ elim (Bool-cases (schema_beq x t)) [
        | inr different ↦ absurd (ground arith)
        | inl same ↦
            let equal = (schema_beq_iff x t).0 same in
            let (rest, run, e') =
              >>=-eq-ok (parted triggers xs) (λ r. ok (x.name ∷ r.0, r.1))
                (rw (parted, e, same) at h) in
            let names : parts.0 ≡ x.name ∷ rest.0 = ground arith in
            elim (Bool-cases (n == x.name)) [
              | inl this ↦ (
                t,
                rw ((text_eq.beq_iff n x.name).0 this) e,
                rw ((schema_beq_iff t x).1 (sym equal)) refl,
              )
              | inr other ↦
                  let (u, own, stands) =
                    parted-installed triggers xs run n (rw other at (rw names at found)) in
                  (u, own, contains-later u x xs stands)
            ]
      ]
    ]

none-missing :
    (installed : List Text) (ts : List Schema)
    → (length (names_of (select_rows (λ t. not (contains t.name installed)) ts)) == 0) ≡ true
    → All (λ t. contains t.name installed ≡ true) ts
none-missing installed [] h = tt
none-missing installed (t ∷ ts) h = elim (Bool-cases (contains t.name installed)) [
  | inl e ↦ (e, none-missing installed ts (rw e at h))
  | inr e ↦ absurd (ground arith)
]

catalog-eq-ok :
    (xs : List Schema) (maximum : ℕ) {r : List Schema}
    → catalog xs maximum ≡ ok r
    → r ≡ sort_named xs
unfolding catalog
catalog-eq-ok xs maximum h = ground arith

build_write_fence-eq-ok :
    (hash : List Schema → Text) (run_id : Text) (schema : List Schema) {plan : FencePlan}
    → build_write_fence hash run_id schema ≡ ok plan
    → (plan.triggers ≡ fence_triggers plan.run_id 0 (fenced_tables plan.source))
      × (length (fenced_tables plan.source) ≤ 128)
unfolding build_write_fence
build_write_fence-eq-ok hash run_id schema {plan = plan} h = (ground arith, ground arith)

same_plan_sound :
    (a b : FencePlan)
    → same_plan a b ≡ true
    → (a.run_id ≡ b.run_id) × (a.source ≡ b.source) × (a.triggers ≡ b.triggers)
same_plan_sound a b h = (
  (text_eq.beq_iff a.run_id b.run_id).0 (ground arith),
  schemas_beq_sound a.source b.source (ground arith),
  schemas_beq_sound a.triggers b.triggers (ground arith),
)

some-injective : (a b : Schema) → ◌≡◌ {A = Option Schema} (some a) (some b) → a ≡ b
some-injective a b h = cc

-- A fence is verified to be complete only if every trigger of its plan stands in the catalog as it is
-- in the plan, these are the ones that are built for the tables of the plan's source that are not
-- virtual, and for each of these tables, and for INSERT, UPDATE and DELETE, the catalog has a trigger
-- whose SQL aborts it.
pub verify_write_fence_complete :
    (hash : List Schema → Text) (plan : FencePlan) (current : List Schema) {r : Verdict}
    → verify_write_fence hash plan current ≡ ok r
    → r.complete ≡ true
    → All (λ t. contains t current ≡ true) plan.triggers
      × (plan.triggers ≡ fence_triggers plan.run_id 0 (fenced_tables plan.source))
      × ((x : Schema)
          → IsOrdinary plan.source x
          → (word : Text) → Memᴰ word writes
          → (t : Schema) × (contains t current ≡ true) × IsStop plan.run_id x word t)
unfolding verify_write_fence
verify_write_fence_complete hash plan current {r = r} h complete =
    let (observed, seen, h1) = >>=-eq-ok (catalog current 984) _ h in
    let (expected, built, h2) = >>=-eq-ok (build_write_fence hash plan.run_id plan.source) _ h1 in
    elim (Bool-cases (same_plan expected plan)) [
      | inr different ↦ absurd (ground arith)
      | inl same ↦
          let (parts, found, h3) = >>=-eq-ok (parted plan.triggers observed) _ (rw same at h2) in
          let done : (length
                  (names_of (select_rows (λ t. not (contains t.name parts.0)) plan.triggers))
                == 0)
              ≡ true =
            ground arith in
          let (runs, sources, triggers) = same_plan_sound expected plan same in
          let (made, few) = build_write_fence-eq-ok hash plan.run_id plan.source built in
          let ours : plan.triggers ≡ fence_triggers plan.run_id 0 (fenced_tables plan.source) =
            sym triggers ∙ rw (runs, sources) at made in
          let own : All (λ t. owned t.name plan.triggers ≡ some t) plan.triggers = rw ours (
            owned-fence_triggers plan.run_id 0 (fenced_tables plan.source)
              (omega (arith, rw sources at few))) in
          let all =
            All-map plan.triggers
              (λ t (named, mine).
                let (u, its, stands) = parted-installed plan.triggers observed found t.name named in
                let equal = some-injective u t (sym its ∙ mine) in
                contains-sort_named t current
                  (rw (catalog-eq-ok current 984 seen, equal) at stands))
              (All-both (λ t. contains t.name parts.0 ≡ true)
                (λ t. owned t.name plan.triggers ≡ some t) plan.triggers
                (none-missing parts.0 plan.triggers done) own) in
          (
            all,
            ours,
            λ x ordinary word write.
                let (t, planned, stops) =
                  fence_triggers-IsStop plan.run_id 0 (fenced_tables plan.source) x word
                    (fenced_tables-IsOrdinary plan.source x ordinary) write in
                (t, All-Mem (λ t. contains t current ≡ true) _ t (rw ours at all) planned, stops),
          )
    ]
