-- ===== src/Routing/SpaceLedger/Tickets.antt =====
-- What tickets are good for: one dispatch for each operation, the generation in which they were
-- issued, and one final state.
use mathlib.Core.Path.{subst}
use memory_server_worker.Prelude.{
  sym, ℕ, ◌<◌, String, true, false, some, ◌==◌, nat_eq, string_eq, update_rows, ◌≡◌, refl, ap,
  arith, Bool-cases, inl, inr,
}
use memory_server_worker.Routing.Consent.{operation_eq}
use memory_server_worker.Routing.SpaceLedger.Rows.{
  State, admitted, accepted, OperationRow, Ledger, state_eq, retirement_eq, with_state,
}
use memory_server_worker.Routing.SpaceLedger.Inputs.{Env, Phase, dispatch, disclose}
use memory_server_worker.Routing.SpaceLedger.Admissions.{or_else}
use memory_server_worker.Routing.SpaceLedger.History.{run}
use memory_server_worker.Routing.SpaceLedger.Steps.{Reach}
use memory_server_worker.Routing.SpaceLedger.Invariant.{current, IsOperation, IsLedger}
use mathlib.Core.Option
use memory_server_worker.Prelude.{
  ◌≢◌, ◌∙◌, find_row-All, find_row-update_rows, Option-cases, if◌then◌else◌,
}
use memory_server_worker.Routing.SpaceLedger.Rows.{operation_at, operation_by}
use memory_server_worker.Prelude.{ok}
use memory_server_worker.Routing.SpaceLedger.Rows.{update_operation, insert_operation}
use memory_server_worker.Routing.SpaceLedger.Inputs.{
  AdmitInput, CheckInput, FinalizeInput, RetireInput, Ticket, Retirement, is_finalize,
}
use memory_server_worker.Routing.SpaceLedger.Admissions.{
  ticket, bind_identity, admit, admit_bound, admit_new, admit_known, new_operation, check,
  load_ticket, phase_state, finalize, finalize_row, same_actor,
}
use memory_server_worker.Routing.SpaceLedger.Retirements.{
  retire, retire_bound, retire_new, retire_known,
}
use memory_server_worker.Routing.SpaceLedger.Rows.{insert_retirement}
use memory_server_worker.Routing.SpaceLedger.Steps.{Reach-trans}
use memory_server_worker.Routing.SpaceLedger.Refinement.Admissions.{admit-eq-ok, finalize-eq-ok}
use memory_server_worker.Routing.SpaceLedger.Refinement.Retirements.{retire-eq-ok, retire-Reach}
use memory_server_worker.Routing.SpaceLedger.Persistence.{
  operation_by-IsLater, operation_at-IsLater, Reach-generation,
}

admit_bound-row :
    (env : Env) (v : AdmitInput) (g : ℕ) (s : Ledger) {r : Ticket × Ledger}
    → admit_bound env v g s ≡ ok r
    → (o : OperationRow) × (operation_by v.operation_id r.1 ≡ some o)
      × (r.0 ≡ ticket o r.0.may_dispatch)
unfolding admit_bound
admit_bound-row env v g s {r} h = elim (Option-cases (operation_by v.operation_id s)) [
  | inl fresh ↦
      let run : admit_new env v g s ≡ ok r = ground arith in
      unfold admit_new insert_operation in
      (
        new_operation env v g,
        ground (arith, string_eq.beq_iff v.operation_id v.operation_id),
        ground arith,
      )
  | inr (row, e) ↦
      let run : admit_known row v s ≡ ok r = ground arith in
      unfold admit_known in (row, ground arith, ground arith)
]

admit-row :
    (env : Env) (v : AdmitInput) (s : Ledger) {r : Ticket × Ledger}
    → admit env v s ≡ ok r
    → (o : OperationRow) × (operation_by v.operation_id r.1 ≡ some o)
      × (r.0 ≡ ticket o r.0.may_dispatch)
admit-row env v s h =
    let (b, bound, run, valid, timely) = admit-eq-ok env v s h in admit_bound-row env v b.0 b.1 run

admit-replay :
    (env : Env) (v : AdmitInput) (s : Ledger) {r : Ticket × Ledger} {o : OperationRow}
    → operation_by v.operation_id s ≡ some o
    → admit env v s ≡ ok r
    → r.0 ≡ ticket o false
unfolding bind_identity admit_bound admit_known
admit-replay env v s e h =
    let (b, bound, run, valid, timely) = admit-eq-ok env v s h in ground arith

-- The second admission of an operation, however much later and by whatever calls in between, gives
-- the ticket of the first, and not the permission to dispatch.
pub admit_once :
    (first later : Env) (v v' : AdmitInput) (s u : Ledger) {r r' : Ticket × Ledger}
    → admit first v s ≡ ok r
    → Reach r.1 u
    → v'.operation_id ≡ v.operation_id
    → admit later v' u ≡ ok r'
    → (r'.0.may_dispatch ≡ false)
      × (r'.0.id ≡ r.0.id)
      × (r'.0.generation ≡ r.0.generation)
      × (r'.0.expires_at_ms ≡ r.0.expires_at_ms)
admit_once first later v v' s u {r} {r'} h path same h' =
    let (o, found, is_ticket) = admit-row first v s h in
    let (o', found', l) = operation_by-IsLater v.operation_id path found in
    let again =
      admit-replay later v' u (subst (λ k. operation_by k u ≡ some o') (sym same) found') h' in
    (
      ap (λ (t : Ticket). t.may_dispatch) again,
      ap (λ (t : Ticket). t.id) again ∙ l.id ∙ sym (ap (λ (t : Ticket). t.id) is_ticket),
      ap (λ (t : Ticket). t.generation) again
          ∙ l.generation
          ∙ sym (ap (λ (t : Ticket). t.generation) is_ticket),
      ap (λ (t : Ticket). t.expires_at_ms) again
          ∙ l.expires_at_ms
          ∙ sym (ap (λ (t : Ticket). t.expires_at_ms) is_ticket),
    )

check-row :
    (env : Env) (v : CheckInput) (s : Ledger) {s' : Ledger}
    → check env v s ≡ ok s'
    → (o : OperationRow) × (operation_at v.ticket_id s ≡ some o)
      × (o.generation ≡ or_else s.generation 1)
      × (env.now < o.expires_at_ms)
      × (env.now < v.authority_expires_at_ms)
      × (o.state ≡ phase_state v.phase)
      × (same_actor o.account_id o.credential_id v.actor ≡ true)
unfolding check bind_identity load_ticket
check-row env v s h = elim (Option-cases (operation_at v.ticket_id s)) [
  | inl e ↦ absurd (ground arith)
  | inr (o, e) ↦
      (o, ground arith, ground arith, ground arith, ground arith, ground arith, ground arith)
]

retire-generation :
    (env : Env) (v : RetireInput) (s : Ledger) {r : Retirement × Ledger}
    → retire env v s ≡ ok r
    → r.0.may_dispatch ≡ true
    → current s.generation < current r.1.generation
unfolding bind_identity retire_bound retire_new retire_known insert_retirement
retire-generation env v s {r} h new = let (b, bound, run) = retire-eq-ok env v s h in ground arith

-- After a new retirement no ticket that was issued before it passes a check, for dispatch or for
-- disclosure, whatever calls come in between.
pub retire_hides :
    (env later : Env) (v : RetireInput) (c : CheckInput) (s u : Ledger) {r : Retirement × Ledger}
    {u' : Ledger} {o : OperationRow}
    → IsLedger s
    → retire env v s ≡ ok r
    → r.0.may_dispatch ≡ true
    → operation_at c.ticket_id s ≡ some o
    → Reach r.1 u
    → ¬ (check later c u ≡ ok u')
retire_hides env later v c s u {o = o} w h new found path h' =
    let (o', found', l) =
      operation_at-IsLater c.ticket_id (Reach-trans (retire-Reach env v s h) path) found in
    let (row, found'', same, lives, timely, phase, actor) = check-row later c u h' in
    let fine =
      (find_row-All (IsOperation (current s.generation)) (λ x. x.id == c.ticket_id) s.operations
        w.operations_fine found).0 in
    ground
      (arith, retire-generation env v s h new, Reach-generation path, fine.reached, l.generation)

finalize_row-state :
    (id : String) (row : OperationRow) (state : State) (now : ℕ) (s : Ledger) {s' : Ledger}
    → operation_at id s ≡ some row
    → finalize_row row state now s ≡ ok s'
    → (o : OperationRow) × (operation_at id s' ≡ some o) × (o.state ≡ state)
unfolding finalize_row update_operation
finalize_row-state id row state now s {s'} found h = elim (Bool-cases (row.state == state)) [
  | inl same ↦
      let kept : s' ≡ s = ground arith in
      (row, rw kept found, (state_eq.beq_iff row.state state).0 same)
  | inr other ↦
      let written : s' ≡ record s {
        operations = update_rows (λ o. o.id == row.id) (with_state state now) s.operations;
      } =
        ground arith in
      (with_state state now row, rw written (updated_row id row state now s found), refl)
]
  where
    updated_row :
        (id : String) (row : OperationRow) (state : State) (now : ℕ) (s : Ledger)
        → operation_at id s ≡ some row
        → operation_at id (record s {
          operations = update_rows (λ o. o.id == row.id) (with_state state now) s.operations;
        })
          ≡ some (with_state state now row)
    updated_row id row state now s found =
        find_row-update_rows (λ o. o.id == id) (λ o. o.id == row.id) (with_state state now)
          (λ o. refl) s.operations
        ∙ ap (Option.map (λ x. if x.id == row.id then with_state state now x else x)) found
        ∙ ground (arith, string_eq.beq_iff row.id row.id)

-- A ticket that was finalized keeps its state for ever: no later call changes it.
pub finalize_final :
    (env : Env) (v : FinalizeInput) (s u : Ledger) {s' : Ledger}
    → finalize env v s ≡ ok s'
    → Reach s' u
    → (o : OperationRow) × (operation_at v.ticket_id u ≡ some o) × (o.state ≡ v.state)
unfolding load_ticket is_finalize
finalize_final env v s u {s'} h path =
    let (b, row, bound, loaded, run, final) = finalize-eq-ok env v s h in
    let found : operation_at v.ticket_id b.1 ≡ some row = ground arith in
    let (o, at, state) = finalize_row-state v.ticket_id row v.state env.now b.1 found run in
    let (o', at', l) = operation_at-IsLater v.ticket_id path at in
    let not_admitted : o.state ≢ admitted = λ e. ground arith in
    (o', at', l.final not_admitted ∙ state)

-- The state that a ticket has to have.
abbrev Suits : Phase → State → Type 0
Suits dispatch state = state ≡ admitted
Suits disclose state = state ≡ accepted

phase_state-Suits : (phase : Phase) {state : State} → state ≡ phase_state phase → Suits phase state
phase_state-Suits dispatch h = h
phase_state-Suits disclose h = h

-- A check passes only for a live ticket of the caller, in the current generation and the right state,
-- which is `admitted` for dispatch and `accepted` for disclosure, under an authority that has not run
-- out.
pub check_sound :
    (env : Env) (v : CheckInput) (s : Ledger) {s' : Ledger}
    → check env v s ≡ ok s'
    → (o : OperationRow) × (operation_at v.ticket_id s ≡ some o)
      × (o.generation ≡ or_else s.generation 1)
      × (env.now < o.expires_at_ms)
      × (env.now < v.authority_expires_at_ms)
      × Suits v.phase o.state
      × (o.account_id ≡ v.actor.account_id)
      × (o.credential_id ≡ v.actor.credential_id)
check_sound env v s h =
    let (o, found, same, lives, timely, phase, actor) = check-row env v s h in
    (
      o,
      found,
      same,
      lives,
      timely,
      phase_state-Suits v.phase phase,
      ground (arith, string_eq.beq_iff o.account_id v.actor.account_id),
      ground (arith, string_eq.beq_iff o.credential_id v.actor.credential_id),
    )
