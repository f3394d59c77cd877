-- ===== src/Routing/SpaceLedger/Refinement/Retirements.antt =====
-- What a successful `retire`, `pending` or `finishRetirement` has gone through, and its sequence of steps.
use mathlib.Core.Path.{subst}
use memory_server_worker.Prelude.{
  find_row-key, map, sym, ℕ, ◌<◌, String, false, Option, none, some, List, ◌∷◌, ◌==◌, nat_eq,
  string_eq, length, ◌≡◌, refl, ok, arith, Option-cases, Bool-cases, inl, inr,
}
use memory_server_worker.Routing.Consent.{operation_eq}
use memory_server_worker.Routing.Month.{iso_month}
use memory_server_worker.Routing.SpaceLedger.Rows.{
  RetirementState, Identity, RetirementRow, Ledger, state_eq, retirement_eq, operation_by,
  retirement_by, retirement_at, insert_retirement, update_retirement, update_cursor,
}
use memory_server_worker.Routing.SpaceLedger.Inputs.{
  Env, RetireInput, PendingInput, FinishInput, Retirement, Usage,
}
use memory_server_worker.Routing.SpaceLedger.Admissions.{or_else, bind_identity}
use memory_server_worker.Routing.SpaceLedger.Retirements.{
  new_retirement, retire_new, retire_known, retire_bound, retire, advance_cursor, last_generation,
  pending_rows, list_pending, finish_row, finish_retirement, usage, usage_of,
}
use memory_server_worker.Routing.SpaceLedger.History.{run}
use memory_server_worker.Routing.SpaceLedger.Steps.{
  IsNewRetirement, retirement, purge, listing, cursor, Reach, here, next, one, Reach-trans,
}
use memory_server_worker.Routing.SpaceLedger.Rows.{bump_generation}
use memory_server_worker.Routing.SpaceLedger.Admissions.{retired}
use memory_server_worker.Routing.SpaceLedger.Refinement.Admissions.{bind_identity-Step}

pub retire-eq-ok :
    (env : Env) (v : RetireInput) (s : Ledger) {r : Retirement × Ledger}
    → retire env v s ≡ ok r
    → (b : ℕ × Ledger) × (bind_identity env v.identity s ≡ ok b)
      × (retire_bound env v b.0 b.1 ≡ ok r)
unfolding retire
retire-eq-ok env v s h = ground arith

retire_new-eq-ok :
    (env : Env) (v : RetireInput) (generation : ℕ) (s : Ledger) {r : Retirement × Ledger}
    → retire_new env v generation s ≡ ok r
    → (length s.retirements < 1000)
      × (t : Ledger) × (insert_retirement (new_retirement env v generation) s ≡ ok t)
      × (r.1 ≡ bump_generation t)
unfolding retire_new
retire_new-eq-ok env v generation s h = ground arith

insert_retirement-eq-ok :
    (row : RetirementRow) (s : Ledger) {s' : Ledger}
    → insert_retirement row s ≡ ok s'
    → s' ≡ record s { retirements = row ∷ s.retirements }
unfolding insert_retirement
insert_retirement-eq-ok row s h = ground arith

new_retirement-IsNewRetirement :
    (env : Env) (v : RetireInput) (generation : ℕ) (s : Ledger) {s' : Ledger}
    → s.generation ≡ some generation
    → operation_by v.operation_id s ≡ none
    → retirement_by v.operation_id s ≡ none
    → length s.retirements < 1000
    → insert_retirement (new_retirement env v generation) s ≡ ok s'
    → IsNewRetirement s (new_retirement env v generation)
unfolding insert_retirement
new_retirement-IsNewRetirement env v generation s g apart fresh room inserted = record {
  current = g;
  starts = refl;
  fresh_id = ground arith;
  fresh_key = fresh;
  fresh_generation = ground arith;
  apart = apart;
  positive = ground arith;
  successor = refl;
  room = room;
}

retire_bound-Reach :
    (env : Env) (v : RetireInput) (generation : ℕ) (s : Ledger) {r : Retirement × Ledger}
    → s.generation ≡ some generation
    → retire_bound env v generation s ≡ ok r
    → Reach s r.1
unfolding retire_bound
retire_bound-Reach env v generation s {r} g h =
    elim (Option-cases (retirement_by v.operation_id s)) [
      | inl fresh ↦
          let run : retire_new env v generation s ≡ ok r = ground arith in
          let (room, t, inserted, bumped) = retire_new-eq-ok env v generation s run in
          let same = insert_retirement-eq-ok (new_retirement env v generation) s inserted in
          one (
            retirement (new_retirement env v generation)
              (new_retirement-IsNewRetirement env v generation s g (ground arith) fresh room
                inserted)
              (ground arith))
      | inr (row, e) ↦
          let run : retire_known row v s ≡ ok r = ground arith in
          let same : r.1 ≡ s = unfold retire_known in ground arith in rw same here
    ]

pub retire-Reach :
    (env : Env) (v : RetireInput) (s : Ledger) {r : Retirement × Ledger}
    → retire env v s ≡ ok r
    → Reach s r.1
retire-Reach env v s h =
    let (b, bound, run) = retire-eq-ok env v s h in
    let (st, g) = bind_identity-Step env v.identity s bound in
    Reach-trans (one st) (retire_bound-Reach env v b.0 b.1 g run)

abbrev pub pending_of : PendingInput → Ledger → List RetirementRow
pending_of v s = pending_rows (or_else s.cursor 0) v.limit s.retirements

pub list_pending-eq-ok :
    (env : Env) (v : PendingInput) (s : Ledger) {r : List Retirement × Ledger}
    → list_pending env v s ≡ ok r
    → (b : ℕ × Ledger) × (bind_identity env v.identity s ≡ ok b)
      × (advance_cursor
            (last_generation (pending_of v b.1))
            (record b.1 { cursor = some (or_else b.1.cursor 0) })
          ≡ ok r.1)
      × (r.0 ≡ map (λ x. retired x false) (pending_of v b.1))
unfolding list_pending
list_pending-eq-ok env v s h = ground arith

advance_cursor-Reach :
    (g : Option ℕ) (s : Ledger) {s' : Ledger} → advance_cursor g s ≡ ok s' → Reach s s'
unfolding update_cursor
advance_cursor-Reach none s {s'} h = let same : s' ≡ s = ground arith in rw same here
advance_cursor-Reach (some g) s h = one (cursor g (ground arith) (ground arith) (ground arith))

pub list_pending-Reach :
    (env : Env) (v : PendingInput) (s : Ledger) {r : List Retirement × Ledger}
    → list_pending env v s ≡ ok r
    → Reach s r.1
list_pending-Reach env v s h =
    let (b, bound, run, rows) = list_pending-eq-ok env v s h in
    Reach-trans
      (next (one (bind_identity-Step env v.identity s bound).0)
        (listing (or_else b.1.cursor 0) refl refl))
      (advance_cursor-Reach (last_generation (pending_of v b.1))
        (record b.1 { cursor = some (or_else b.1.cursor 0) }) run)

pub finish_retirement-eq-ok :
    (env : Env) (v : FinishInput) (s : Ledger) {s' : Ledger}
    → finish_retirement env v s ≡ ok s'
    → (b : ℕ × Ledger) × (row : RetirementRow) × (bind_identity env v.identity s ≡ ok b)
      × (retirement_at v.retirement_id b.1 ≡ some row)
      × (finish_row row v.state env.now b.1 ≡ ok s')
unfolding finish_retirement
finish_retirement-eq-ok env v s h = ground arith

finish_row-Reach :
    (row : RetirementRow) (state : RetirementState) (now : ℕ) (s : Ledger) {s' : Ledger}
    → retirement_at row.id s ≡ some row
    → finish_row row state now s ≡ ok s'
    → Reach s s'
unfolding finish_row update_retirement
finish_row-Reach row state now s {s'} found h = elim (Bool-cases (row.state == state)) [
  | inl same ↦ let same_ledger : s' ≡ s = ground arith in rw same_ledger here
  | inr other ↦ one (purge row state now found (ground arith) (λ e. ground arith) (ground arith))
]

-- The row that is found has the identifier that was asked for.
retirement_at_self :
    (id : String) (s : Ledger) {row : RetirementRow}
    → retirement_at id s ≡ some row
    → retirement_at row.id s ≡ some row
retirement_at_self id s {row} h =
    subst (λ k. retirement_at k s ≡ some row) (sym (find_row-key (λ r. r.id) id s.retirements h)) h

pub finish_retirement-Reach :
    (env : Env) (v : FinishInput) (s : Ledger) {s' : Ledger}
    → finish_retirement env v s ≡ ok s'
    → Reach s s'
finish_retirement-Reach env v s h =
    let (b, row, bound, found, run) = finish_retirement-eq-ok env v s h in
    Reach-trans (one (bind_identity-Step env v.identity s bound).0)
      (finish_row-Reach row v.state env.now b.1 (retirement_at_self v.retirement_id b.1 found) run)

pub usage-eq-ok :
    (env : Env) (identity : Identity) (s : Ledger) {r : Usage × Ledger}
    → usage env identity s ≡ ok r
    → (b : ℕ × Ledger) × (bind_identity env identity s ≡ ok b)
      × (r ≡ (usage_of (iso_month env.now) b.0 b.1, b.1))
unfolding usage
usage-eq-ok env identity s h = ground arith

pub usage-Reach :
    (env : Env) (identity : Identity) (s : Ledger) {r : Usage × Ledger}
    → usage env identity s ≡ ok r
    → Reach s r.1
usage-Reach env identity s {r} h =
    let (b, bound, same) = usage-eq-ok env identity s h in
    let ledger : r.1 ≡ b.1 = ground arith in
    rw ledger (one (bind_identity-Step env identity s bound).0)
