-- ===== src/Routing/SpaceLedger/Reports.antt =====
-- What `pending` lists and `usage` sums.
use mathlib.Core.List.{append-nil}
use memory_server_worker.Prelude.{
  ℕ, ◌+◌, ◌-◌, min, String, ◌&&◌, List, [], ◌∷◌, ◌++◌, ltb, leb, ◌==◌, nat_eq, string_eq, length,
  count_rows, select_rows, take, order_by, take-append, length-take-min, length-append,
  length-order_by, length-select_rows, count_rows-split, if◌then◌else◌, Bool-cases, inl, inr, ◌≡◌,
  refl, sym, ap, ◌∙◌, arith,
}
use memory_server_worker.Routing.Consent.{memory_ingest, memory_search, operation_eq}
use memory_server_worker.Routing.SpaceLedger.Rows.{
  State, admitted, accepted, read_failed, not_dispatched, OperationRow, RetirementRow, Ledger,
  state_eq, retirement_eq,
}
use memory_server_worker.Routing.SpaceLedger.Retirements.{is_open, rotation, pending_rows, usage_of}

-- A second query for what the first leaves of the limit.
take_two {ℓ} :
    {A : Type ℓ} (n : ℕ) (xs ys : List A)
    → (if ltb (length (take n xs)) n
        then take n xs ++ take (n - length (take n xs)) ys
        else take n xs)
      ≡ take n (xs ++ ys)
take_two n xs ys = elim (Bool-cases (ltb (length (take n xs)) n)) [
  | inl short ↦ rw short (sym (take-append n xs ys))
  | inr full ↦
      let none_left : n - length (take n xs) ≡ 0 = ground arith in
      rw full (
        sym (append-nil (take n xs))
        ∙ ap (λ k. take n xs ++ take k ys) (sym none_left)
        ∙ sym (take-append n xs ys))
]

-- The two queries together give the first rows of the rotation: the open retirements behind the
-- cursor by generation, then those up to it.
pub pending_rows_lem :
    (cursor limit : ℕ) (rows : List RetirementRow)
    → pending_rows cursor limit rows ≡ take limit (rotation cursor rows)
unfolding pending_rows rotation
pending_rows_lem cursor limit rows =
    take_two limit
      (order_by (λ r. r.generation) (select_rows (λ r. is_open r && ltb cursor r.generation) rows))
      (order_by (λ r. r.generation) (select_rows (λ r. is_open r && leb r.generation cursor) rows))

open-split :
    (cursor : ℕ) (rows : List RetirementRow)
    → count_rows is_open rows
      ≡ count_rows (λ r. is_open r && ltb cursor r.generation) rows
        + count_rows (λ r. is_open r && leb r.generation cursor) rows
open-split cursor rows =
    count_rows-split is_open (λ r. is_open r && ltb cursor r.generation)
      (λ r. is_open r && leb r.generation cursor) (λ r. ground arith) rows

length-rotation :
    (cursor : ℕ) (rows : List RetirementRow)
    → length (rotation cursor rows) ≡ count_rows is_open rows
unfolding rotation
length-rotation cursor rows =
    let later = select_rows (λ r. is_open r && ltb cursor r.generation) rows in
    let earlier = select_rows (λ r. is_open r && leb r.generation cursor) rows in
    omega (
      arith,
      length-append (order_by (λ (r : RetirementRow). r.generation) later)
          (order_by (λ r. r.generation) earlier),
      length-order_by (λ (r : RetirementRow). r.generation) later,
      length-order_by (λ (r : RetirementRow). r.generation) earlier,
      length-select_rows (λ r. is_open r && ltb cursor r.generation) rows,
      length-select_rows (λ r. is_open r && leb r.generation cursor) rows,
      open-split cursor rows,
    )

-- A listing has as many rows as the limit allows, or one for each open retirement: a failing
-- retirement takes the place of no other.
pub length-pending_rows :
    (cursor limit : ℕ) (rows : List RetirementRow)
    → length (pending_rows cursor limit rows) ≡ min limit (count_rows is_open rows)
length-pending_rows cursor limit rows =
    ap length (pending_rows_lem cursor limit rows)
    ∙ length-take-min limit (rotation cursor rows)
    ∙ ap (min limit) (length-rotation cursor rows)

operation-split :
    (rows : List OperationRow)
    → length rows
      ≡ count_rows (λ o. o.operation == memory_ingest) rows
        + count_rows (λ o. o.operation == memory_search) rows
operation-split [] = refl
operation-split (o ∷ rows) = ground (arith, operation-split rows)

state-split :
    (rows : List OperationRow)
    → length rows
      ≡ count_rows (λ o. o.state == admitted) rows
        + count_rows (λ o. o.state == accepted) rows
        + count_rows (λ o. o.state == State.unknown) rows
        + count_rows (λ o. o.state == read_failed) rows
        + count_rows (λ o. o.state == not_dispatched) rows
state-split [] = refl
state-split (o ∷ rows) = ground (arith, state-split rows)

-- The report of a month adds up: each admission is an ingest or a search, and is still admitted or
-- counted under its one final state.
pub usage_of_adds_up :
    (month : String) (generation : ℕ) (s : Ledger)
    → ((usage_of month generation s).admissions
        ≡ (usage_of month generation s).ingest_requests
          + (usage_of month generation s).search_requests)
      × ((usage_of month generation s).admissions
          ≡ count_rows
              (λ o. o.state == admitted)
              (select_rows (λ o. o.period == month) s.operations)
            + (usage_of month generation s).accepted
            + (usage_of month generation s).unknown
            + (usage_of month generation s).read_failed
            + (usage_of month generation s).not_dispatched)
unfolding usage_of
usage_of_adds_up month generation s =
    let rows = select_rows (λ o. o.period == month) s.operations in
    (operation-split rows, state-split rows)
