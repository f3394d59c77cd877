-- ===== src/Routing/ConsentLedger/Rows.antt =====
-- The tables of saas/src/routing/ledger.ts, and the statements that write to them. A violated
-- constraint aborts the transaction. A stored record of consent is the JSON of it, which
-- `JSON.parse` gives back; here it is the record.
use memory_server_worker.Prelude.{
  ℕ, String, true, not, ◌&&◌, ◌||◌, Option, none, some, List, [], ◌∷◌, leb, ◌==◌, Eq, enum_eq,
  nat_eq, string_eq, find_row, any_row, update_rows, select_rows, ◌≡◌, ◌↔◌, Result, ok, reject_if,
  ◌>>◌, arith,
}
use memory_server_worker.Routing.Consent
use memory_server_worker.Routing.Consent.{Operation, operation_eq, is_some}

pub data State : Type 0 where
  admitted accepted unknown read_failed : State

pub data Action : Type 0 where
  grants revokes : Action

pub data Code : Type 0 where
  input_invalid organization_mismatch version_conflict capacity_exceeded receipt_invalid : Code
  operation_conflict ticket_unavailable transition_invalid authority_expired : Code

-- A thrown `RoutingLedgerError` with a code of its own or of the consent module, an error that the
-- consent module throws and nothing catches, or an error of SQLite.
pub data Error : Type 0 where
  rejected : Code → Error
  consent_rejected : Consent.Code → Error
  consent_thrown : Consent.Code → Error
  aborted : Error

abbrev pub state_rank : State → ℕ
state_rank admitted = 0
state_rank accepted = 1
state_rank unknown = 2
state_rank read_failed = 3

pub state_rank_iff : (a b : State) → ((state_rank a == state_rank b) ≡ true) ↔ (a ≡ b)
state_rank_iff a b = ground arith

instance abbrev pub state_eq : Eq State
state_eq = enum_eq state_rank state_rank_iff

-- ledger_audit
pub record AuditRow : Type 0 where
  pub version : ℕ
  pub action : Action
  pub actor_id : String
  pub at_ms : ℕ
  pub consent : Consent.Consent

-- ledger_receipts
pub record ReceiptRow : Type 0 where
  pub hash : String
  pub account_id : String
  pub credential_id : String
  pub space_id : String
  pub operation : Operation
  pub request_id : String
  pub consent_id : String
  pub consent_version : ℕ
  pub expires_at_ms : ℕ
  pub consumed_at_ms : Option ℕ

-- ledger_operations
pub record TicketRow : Type 0 where
  pub id : String
  pub account_id : String
  pub credential_id : String
  pub space_id : String
  pub operation : Operation
  pub operation_id : String
  pub request_id : String
  pub payload_hash : String
  pub consent_id : String
  pub consent_version : ℕ
  pub state : State
  pub created_at_ms : ℕ
  pub updated_at_ms : ℕ
  pub expires_at_ms : ℕ
  pub period : String

-- The database of one organization: two tables of at most one row, and three of many.
pub record Ledger : Type 0 where
  pub identity : Option String
  pub current : Option Consent.Consent
  pub audit : List AuditRow
  pub receipts : List ReceiptRow
  pub tickets : List TicketRow

-- The database that `initialize` leaves.
abbrev pub initial : Ledger
initial = record { identity = none; current = none; audit = []; receipts = []; tickets = [] }

abbrev pub receipt_by : String → Ledger → Option ReceiptRow
receipt_by hash s = find_row (λ r. r.hash == hash) s.receipts

abbrev pub ticket_at : String → Ledger → Option TicketRow
ticket_at id s = find_row (λ t. t.id == id) s.tickets

abbrev pub ticket_by : (space_id operation_id : String) → Ledger → Option TicketRow
ticket_by space_id operation_id s =
    find_row (λ t. t.space_id == space_id && t.operation_id == operation_id) s.tickets

-- The two writes of `save`: the current record, and a row of the audit trail.
unfoldable pub save : Consent.Consent → String → Action → ℕ → Ledger → Result Error Ledger
save r actor action now s = do
  reject_if (r.version == 0 || any_row (λ a. a.version == r.version) s.audit) aborted
  ok (record s {
    current = some r;
    audit =
        record { version = r.version; action = action; actor_id = actor; at_ms = now; consent = r }
        ∷ s.audit;
  })

-- DELETE FROM ledger_receipts WHERE expires_at_ms<=?
abbrev pub purge_receipts : ℕ → Ledger → Ledger
purge_receipts now s = record s {
  receipts = select_rows (λ r. not (leb r.expires_at_ms now)) s.receipts;
}

-- INSERT INTO ledger_receipts
unfoldable pub insert_receipt : ReceiptRow → Ledger → Result Error Ledger
insert_receipt row s = do
  reject_if (is_some (receipt_by row.hash s)) aborted
  ok (record s { receipts = row ∷ s.receipts })

-- INSERT INTO ledger_operations
unfoldable pub insert_ticket : TicketRow → Ledger → Result Error Ledger
insert_ticket row s = do
  reject_if (is_some (ticket_at row.id s) || is_some (ticket_by row.space_id row.operation_id s))
      aborted
  ok (record s { tickets = row ∷ s.tickets })

abbrev pub consumed : ℕ → ReceiptRow → ReceiptRow
consumed now r = record r { consumed_at_ms = some now }

-- UPDATE ledger_receipts SET consumed_at_ms=? WHERE hash=?
abbrev pub consume_receipt : String → ℕ → Ledger → Ledger
consume_receipt hash now s = record s {
  receipts = update_rows (λ r. r.hash == hash) (consumed now) s.receipts;
}

abbrev pub with_state : State → ℕ → TicketRow → TicketRow
with_state state now t = record t { state = state; updated_at_ms = now }

-- UPDATE ledger_operations SET state=?,updated_at_ms=? WHERE id=?
abbrev pub update_ticket : String → State → ℕ → Ledger → Ledger
update_ticket id state now s = record s {
  tickets = update_rows (λ t. t.id == id) (with_state state now) s.tickets;
}
