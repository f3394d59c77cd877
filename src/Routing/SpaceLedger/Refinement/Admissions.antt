-- ===== src/Routing/SpaceLedger/Refinement/Admissions.antt =====
-- What a successful `admit`, `check` or `finalize` has gone through, and its sequence of steps.
use memory_server_worker.Prelude.{
  ℕ, ◌<◌, true, false, none, some, ◌∷◌, ◌==◌, nat_eq, string_eq, ◌≡◌, refl, ok, arith, Option-cases,
  Bool-cases, inl, inr,
}
use memory_server_worker.Routing.Consent.{operation_eq}
use memory_server_worker.Routing.Month.{iso_month}
use memory_server_worker.Routing.SpaceLedger.Rows.{
  State, Identity, OperationRow, Ledger, state_eq, retirement_eq, operation_by, retirement_by,
  insert_operation, update_operation,
}
use memory_server_worker.Routing.SpaceLedger.Inputs.{
  Env, AdmitInput, CheckInput, FinalizeInput, Ticket, is_admit, is_finalize,
}
use memory_server_worker.Routing.SpaceLedger.Admissions.{
  bind_identity, is_full, new_operation, admit_new, admit_known, admit_bound, admit, load_ticket,
  check, finalize_row, finalize,
}
use memory_server_worker.Routing.SpaceLedger.History.{run}
use memory_server_worker.Routing.SpaceLedger.Steps.{
  IsNewOperation, Step, bind, admission, outcome, Reach, here, one, Reach-trans,
}

pub bind_identity-Step :
    (env : Env) (i : Identity) (s : Ledger) {b : ℕ × Ledger}
    → bind_identity env i s ≡ ok b
    → Step s b.1 × (b.1.generation ≡ some b.0)
unfolding bind_identity
bind_identity-Step env i s h = (bind i (ground arith), ground arith)

admit_new-eq-ok :
    (env : Env) (v : AdmitInput) (generation : ℕ) (s : Ledger) {r : Ticket × Ledger}
    → admit_new env v generation s ≡ ok r
    → (is_full v (iso_month env.now) s ≡ false)
      × (insert_operation (new_operation env v generation) s ≡ ok r.1)
unfolding admit_new
admit_new-eq-ok env v generation s h = ground arith

pub admit-eq-ok :
    (env : Env) (v : AdmitInput) (s : Ledger) {r : Ticket × Ledger}
    → admit env v s ≡ ok r
    → (b : ℕ × Ledger) × (bind_identity env v.identity s ≡ ok b)
      × (admit_bound env v b.0 b.1 ≡ ok r)
      × (is_admit v ≡ true)
      × (env.now < v.authority_expires_at_ms)
unfolding admit
admit-eq-ok env v s h = ground arith

pub check-eq-ok :
    (env : Env) (v : CheckInput) (s : Ledger) {s' : Ledger}
    → check env v s ≡ ok s'
    → (b : ℕ × Ledger) × (bind_identity env v.identity s ≡ ok b) × (s' ≡ b.1)
unfolding check
check-eq-ok env v s h = ground arith

pub finalize-eq-ok :
    (env : Env) (v : FinalizeInput) (s : Ledger) {s' : Ledger}
    → finalize env v s ≡ ok s'
    → (b : ℕ × Ledger) × (row : OperationRow) × (bind_identity env v.identity s ≡ ok b)
      × (load_ticket v.ticket_id v.actor b.1 ≡ ok row)
      × (finalize_row row v.state env.now b.1 ≡ ok s')
      × (is_finalize v ≡ true)
unfolding finalize
finalize-eq-ok env v s h = ground arith

new_operation-IsNewOperation :
    (env : Env) (v : AdmitInput) (generation : ℕ) (s : Ledger) {s' : Ledger}
    → is_admit v ≡ true
    → env.now < v.authority_expires_at_ms
    → s.generation ≡ some generation
    → retirement_by v.operation_id s ≡ none
    → operation_by v.operation_id s ≡ none
    → is_full v (iso_month env.now) s ≡ false
    → insert_operation (new_operation env v generation) s ≡ ok s'
    → IsNewOperation s (new_operation env v generation)
unfolding is_admit is_full insert_operation
new_operation-IsNewOperation env v generation s valid timely g apart fresh room inserted = record {
  current = g;
  starts = refl;
  fresh_id = ground arith;
  fresh_key = fresh;
  apart = apart;
  positive = ground arith;
  lives = ground arith;
  minute = omega arith;
  fits = ground arith;
  room = ground arith;
  monthly = ground arith;
  erasable = λ e. ground arith;
}

insert_operation-eq-ok :
    (row : OperationRow) (s : Ledger) {s' : Ledger}
    → insert_operation row s ≡ ok s'
    → s' ≡ record s { operations = row ∷ s.operations }
unfolding insert_operation
insert_operation-eq-ok row s h = ground arith

admit_bound-Reach :
    (env : Env) (v : AdmitInput) (generation : ℕ) (s : Ledger) {r : Ticket × Ledger}
    → is_admit v ≡ true
    → env.now < v.authority_expires_at_ms
    → s.generation ≡ some generation
    → admit_bound env v generation s ≡ ok r
    → Reach s r.1
unfolding admit_bound
admit_bound-Reach env v generation s {r} valid timely g h =
    elim (Option-cases (operation_by v.operation_id s)) [
      | inl fresh ↦
          let run : admit_new env v generation s ≡ ok r = ground arith in
          let (room, inserted) = admit_new-eq-ok env v generation s run in
          one (
            admission (new_operation env v generation)
              (new_operation-IsNewOperation env v generation s valid timely g (ground arith) fresh
                room inserted)
              (insert_operation-eq-ok (new_operation env v generation) s inserted))
      | inr (row, e) ↦
          let run : admit_known row v s ≡ ok r = ground arith in
          let same : r.1 ≡ s = unfold admit_known in ground arith in rw same here
    ]

pub admit-Reach :
    (env : Env) (v : AdmitInput) (s : Ledger) {r : Ticket × Ledger}
    → admit env v s ≡ ok r
    → Reach s r.1
admit-Reach env v s h =
    let (b, bound, run, valid, timely) = admit-eq-ok env v s h in
    let (st, g) = bind_identity-Step env v.identity s bound in
    Reach-trans (one st) (admit_bound-Reach env v b.0 b.1 valid timely g run)

pub check-Reach :
    (env : Env) (v : CheckInput) (s : Ledger) {s' : Ledger} → check env v s ≡ ok s' → Reach s s'
check-Reach env v s h =
    let (b, bound, same) = check-eq-ok env v s h in
    rw same (one (bind_identity-Step env v.identity s bound).0)

finalize_row-Reach :
    (row : OperationRow) (state : State) (now : ℕ) (s : Ledger) {s' : Ledger}
    → finalize_row row state now s ≡ ok s'
    → Reach s s'
unfolding finalize_row update_operation
finalize_row-Reach row state now s {s'} h = elim (Bool-cases (row.state == state)) [
  | inl same ↦ let same_ledger : s' ≡ s = ground arith in rw same_ledger here
  | inr other ↦ one (outcome row.id state now (ground arith) (ground arith))
]

pub finalize-Reach :
    (env : Env) (v : FinalizeInput) (s : Ledger) {s' : Ledger}
    → finalize env v s ≡ ok s'
    → Reach s s'
finalize-Reach env v s h =
    let (b, row, bound, loaded, run, final) = finalize-eq-ok env v s h in
    Reach-trans (one (bind_identity-Step env v.identity s bound).0)
      (finalize_row-Reach row v.state env.now b.1 run)
