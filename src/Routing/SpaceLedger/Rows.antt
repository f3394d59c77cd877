-- ===== src/Routing/SpaceLedger/Rows.antt =====
-- The tables of saas/src/routing/general-ledger.ts, and the statements that write to them. A
-- violated constraint or a trigger aborts the transaction.
use memory_server_worker.Prelude.{
  ℕ, suc, ◌+◌, String, Bool, true, not, ◌&&◌, ◌||◌, Option, none, some, List, [], ◌∷◌, ltb, ◌==◌,
  ◌!=◌, Eq, enum_eq, nat_eq, string_eq, find_row, any_row, update_rows, ◌≡◌, ◌↔◌, Result, ok,
  reject_if, ◌>>◌, arith,
}
use mathlib.Core.Option
use memory_server_worker.Routing.Consent.{Operation, memory_search, operation_eq, is_some}

pub data State : Type 0 where
  admitted accepted unknown read_failed not_dispatched : State

pub data RetirementState : Type 0 where
  pending acknowledged unknown : RetirementState

pub data OwnerKind : Type 0 where
  account organization : OwnerKind

abbrev pub state_rank : State → ℕ
state_rank admitted = 0
state_rank accepted = 1
state_rank State.unknown = 2
state_rank read_failed = 3
state_rank not_dispatched = 4

abbrev pub retirement_rank : RetirementState → ℕ
retirement_rank pending = 0
retirement_rank acknowledged = 1
retirement_rank RetirementState.unknown = 2

abbrev pub owner_rank : OwnerKind → ℕ
owner_rank account = 0
owner_rank organization = 1

pub state_rank_iff : (a b : State) → ((state_rank a == state_rank b) ≡ true) ↔ (a ≡ b)
state_rank_iff a b = ground arith

pub retirement_rank_iff :
    (a b : RetirementState) → ((retirement_rank a == retirement_rank b) ≡ true) ↔ (a ≡ b)
retirement_rank_iff a b = ground arith

pub owner_rank_iff : (a b : OwnerKind) → ((owner_rank a == owner_rank b) ≡ true) ↔ (a ≡ b)
owner_rank_iff a b = ground arith

instance abbrev pub state_eq : Eq State
state_eq = enum_eq state_rank state_rank_iff

instance abbrev pub retirement_eq : Eq RetirementState
retirement_eq = enum_eq retirement_rank retirement_rank_iff

instance abbrev pub owner_eq : Eq OwnerKind
owner_eq = enum_eq owner_rank owner_rank_iff

pub data Code : Type 0 where
  input_invalid identity_mismatch authority_expired operation_conflict ticket_unavailable : Code
  transition_invalid capacity_exceeded retirement_unavailable retirement_inflight : Code

-- A thrown `GeneralSpaceLedgerError`, or an error of SQLite.
pub data Error : Type 0 where
  rejected : Code → Error
  aborted : Error

-- general_identity
pub record Identity : Type 0 where
  pub space_id : String
  pub owner_kind : OwnerKind
  pub owner_id : String
  pub provider_account_id : String
  pub provider_namespace : String

-- general_operations
pub record OperationRow : Type 0 where
  pub id : String
  pub account_id : String
  pub credential_id : String
  pub operation : Operation
  pub operation_id : String
  pub payload_hash : String
  pub generation : ℕ
  pub state : State
  pub created_at_ms : ℕ
  pub updated_at_ms : ℕ
  pub expires_at_ms : ℕ
  pub period : String
  pub input_bytes : ℕ
  pub message_count : ℕ

-- general_retirements
pub record RetirementRow : Type 0 where
  pub id : String
  pub account_id : String
  pub credential_id : String
  pub operation_id : String
  pub payload_hash : String
  pub generation : ℕ
  pub next_generation : ℕ
  pub state : RetirementState
  pub created_at_ms : ℕ
  pub updated_at_ms : ℕ
  pub period : String

-- The database of one Space: three tables of at most one row, and two of many.
pub record Ledger : Type 0 where
  pub identity : Option Identity
  pub generation : Option ℕ
  pub operations : List OperationRow
  pub retirements : List RetirementRow
  pub cursor : Option ℕ

-- The database that `initialize` leaves.
abbrev pub initial : Ledger
initial = record {
  identity = none;
  generation = none;
  operations = [];
  retirements = [];
  cursor = none;
}

abbrev pub operation_by : String → Ledger → Option OperationRow
operation_by operation_id s = find_row (λ o. o.operation_id == operation_id) s.operations

abbrev pub operation_at : String → Ledger → Option OperationRow
operation_at id s = find_row (λ o. o.id == id) s.operations

abbrev pub retirement_by : String → Ledger → Option RetirementRow
retirement_by operation_id s = find_row (λ r. r.operation_id == operation_id) s.retirements

abbrev pub retirement_at : String → Ledger → Option RetirementRow
retirement_at id s = find_row (λ r. r.id == id) s.retirements

-- INSERT INTO general_operations
unfoldable pub insert_operation : OperationRow → Ledger → Result Error Ledger
insert_operation row s = do
  reject_if
      (is_some (operation_at row.id s)
        || (is_some (operation_by row.operation_id s)
            || (row.generation == 0
                || (ltb 2_097_152 row.input_bytes || ltb 500 row.message_count))))
      aborted
  ok (record s { operations = row ∷ s.operations })

-- The trigger `general_operations_transition`, for an update of the state.
unfoldable pub forbids_transition : State → OperationRow → Bool
forbids_transition state old =
    old.state != admitted
    || (state == admitted || (state == read_failed && old.operation != memory_search))

abbrev pub with_state : State → ℕ → OperationRow → OperationRow
with_state state now row = record row { state = state; updated_at_ms = now }

-- UPDATE general_operations SET state=?,updated_at_ms=? WHERE id=?
unfoldable pub update_operation : String → State → ℕ → Ledger → Result Error Ledger
update_operation id state now s = do
  reject_if (any_row (λ o. o.id == id && forbids_transition state o) s.operations) aborted
  ok (record s { operations = update_rows (λ o. o.id == id) (with_state state now) s.operations })

-- INSERT INTO general_retirements
unfoldable pub insert_retirement : RetirementRow → Ledger → Result Error Ledger
insert_retirement row s = do
  reject_if
      (is_some (retirement_at row.id s)
        || (is_some (retirement_by row.operation_id s)
            || (any_row (λ r. r.generation == row.generation) s.retirements
                || (row.generation == 0 || row.next_generation != row.generation + 1))))
      aborted
  ok (record s { retirements = row ∷ s.retirements })

abbrev pub with_outcome : RetirementState → ℕ → RetirementRow → RetirementRow
with_outcome state now row = record row { state = state; updated_at_ms = now }

-- The trigger `general_retirements_transition`, for an update of the state.
abbrev pub forbids_outcome : RetirementState → RetirementRow → Bool
forbids_outcome state old = old.state == acknowledged || state == pending

-- UPDATE general_retirements SET state=?,updated_at_ms=? WHERE id=?
unfoldable pub update_retirement : String → RetirementState → ℕ → Ledger → Result Error Ledger
update_retirement id state now s = do
  reject_if (any_row (λ r. r.id == id && forbids_outcome state r) s.retirements) aborted
  ok (record s {
    retirements = update_rows (λ r. r.id == id) (with_outcome state now) s.retirements;
  })

-- UPDATE general_reconciliation SET cursor_generation=? WHERE singleton=1
unfoldable pub update_cursor : ℕ → Ledger → Result Error Ledger
update_cursor generation s = do
  reject_if
      (ltb 1000 generation
        || (generation != 0 && not (any_row (λ r. r.generation == generation) s.retirements)))
      aborted
  ok (record s { cursor = some generation })

-- UPDATE general_generation SET generation=generation+1 WHERE singleton=1, which is what the
-- trigger `general_generation_monotonic` allows.
abbrev pub bump_generation : Ledger → Ledger
bump_generation s = record s { generation = Option.map suc s.generation }
