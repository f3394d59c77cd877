-- ===== src/Routing/SpaceLedger/Steps.antt =====
-- The writes that the calls on a Space ledger are made of, as a relation, each with the
-- facts under which it is made.
use memory_server_worker.Prelude.{
  ℕ, suc, ◌+◌, ◌≤◌, ◌<◌, String, true, false, not, ◌&&◌, none, some, ◌∷◌, ◌==◌, ◌!=◌, nat_eq,
  string_eq, length, count_rows, any_row, update_rows, ◌≡◌,
}
use memory_server_worker.Routing.Consent.{memory_ingest, operation_eq}
use memory_server_worker.Routing.SpaceLedger.Rows.{
  State, admitted, RetirementState, pending, acknowledged, Identity, OperationRow, RetirementRow,
  Ledger, state_eq, retirement_eq, operation_by, operation_at, retirement_by, retirement_at,
  forbids_transition, forbids_outcome, with_state, with_outcome,
}
use memory_server_worker.Routing.SpaceLedger.Inputs.{fits_operation}
use memory_server_worker.Routing.SpaceLedger.Admissions.{or_else}
use memory_server_worker.Routing.SpaceLedger.Retirements.{in_flight}

-- What `admit` knows of a row that it inserts.
pub record IsNewOperation (s : Ledger) (row : OperationRow) : Type 0 where
  pub current : s.generation ≡ some row.generation
  pub starts : row.state ≡ admitted
  pub fresh_id : operation_at row.id s ≡ none
  pub fresh_key : operation_by row.operation_id s ≡ none
  pub apart : retirement_by row.operation_id s ≡ none
  pub positive : (row.generation == 0) ≡ false
  pub lives : row.created_at_ms < row.expires_at_ms
  pub minute : row.expires_at_ms ≤ row.created_at_ms + 60000
  pub fits : fits_operation row.operation row.message_count ≡ true
  pub room : length s.operations < 100_000
  pub monthly : count_rows (λ o. o.period == row.period) s.operations < 10_000
  pub erasable : row.operation ≡ memory_ingest → length s.retirements < 1000

-- What `retire` knows of a row that it inserts.
pub record IsNewRetirement (s : Ledger) (row : RetirementRow) : Type 0 where
  pub current : s.generation ≡ some row.generation
  pub starts : row.state ≡ pending
  pub fresh_id : retirement_at row.id s ≡ none
  pub fresh_key : retirement_by row.operation_id s ≡ none
  pub fresh_generation : any_row (λ r. r.generation == row.generation) s.retirements ≡ false
  pub apart : operation_by row.operation_id s ≡ none
  pub positive : (row.generation == 0) ≡ false
  pub successor : row.next_generation ≡ row.generation + 1
  pub room : length s.retirements < 1000

pub data Step (s s' : Ledger) : Type 0 where
  bind :
      (i : Identity)
      → s' ≡ record s {
        identity = some (or_else s.identity i);
        generation = some (or_else s.generation 1);
      }
      → Step s s'
  admission :
      (row : OperationRow)
      → IsNewOperation s row
      → s' ≡ record s { operations = row ∷ s.operations }
      → Step s s'
  outcome :
      (id : String) (state : State) (now : ℕ)
      → any_row (λ o. o.id == id && forbids_transition state o) s.operations ≡ false
      → s' ≡ record s {
        operations = update_rows (λ o. o.id == id) (with_state state now) s.operations;
      }
      → Step s s'
  retirement :
      (row : RetirementRow)
      → IsNewRetirement s row
      → s' ≡ record s { retirements = row ∷ s.retirements; generation = some (suc row.generation) }
      → Step s s'
  purge :
      (row : RetirementRow) (state : RetirementState) (now : ℕ)
      → retirement_at row.id s ≡ some row
      → any_row (λ r. r.id == row.id && forbids_outcome state r) s.retirements ≡ false
      → (state ≡ acknowledged → count_rows (in_flight row.generation) s.operations ≡ 0)
      → s' ≡ record s {
        retirements = update_rows (λ r. r.id == row.id) (with_outcome state now) s.retirements;
      }
      → Step s s'
  listing : (g : ℕ) → g ≡ or_else s.cursor 0 → s' ≡ record s { cursor = some g } → Step s s'
  cursor :
      (g : ℕ)
      → (g ≤ 1000)
      → (g != 0 && not (any_row (λ r. r.generation == g) s.retirements)) ≡ false
      → s' ≡ record s { cursor = some g }
      → Step s s'

pub data Reach (s : Ledger) : Ledger → Type 0 where
  here : Reach s s
  next : {t u : Ledger} → Reach s t → Step t u → Reach s u

pub one : {s t : Ledger} → Step s t → Reach s t
one h = next here h

pub Reach-trans : {s t u : Ledger} → Reach s t → Reach t u → Reach s u
Reach-trans h here = h
Reach-trans h (next k st) = next (Reach-trans h k) st
