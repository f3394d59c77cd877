-- ===== src/Routing/ConsentLedger/Exchanges.antt =====
-- The methods of `ConsentLedger` that issue receipts, exchange them for tickets, and finalize and check
-- the tickets (saas/src/routing/ledger.ts). `digest` stands for SHA-256 in hexadecimal, which
-- `crypto.subtle.digest` computes.
use memory_server_worker.Prelude.{
  ℕ, ◌+◌, min, String, Bool, true, false, not, ◌&&◌, ◌||◌, none, some, leb, ◌==◌, ◌!=◌, nat_eq,
  string_eq, length, count_rows, Result, ok, err, ◌>>=◌, ◌>>◌, if◌then◌else◌,
}
use memory_server_worker.Routing.Month.{iso_month}
use memory_server_worker.Routing.Consent.{Reference, memory_search, operation_eq, is_some, Permit}
use memory_server_worker.Routing.ConsentLedger.Rows.{
  State, admitted, accepted, read_failed, Error, rejected, input_invalid, capacity_exceeded,
  receipt_invalid, operation_conflict, ticket_unavailable, transition_invalid, ReceiptRow,
  TicketRow, Ledger, state_eq, receipt_by, ticket_at, ticket_by, purge_receipts, insert_receipt,
  insert_ticket, consume_receipt, with_state, update_ticket,
}
use memory_server_worker.Routing.ConsentLedger.Inputs.{
  Env, Actor, IssueInput, ConsumeInput, FinalizeInput, Phase, dispatch, disclose, TicketInput,
  Receipt, Ticket, is_issue, is_consume, is_finalize, is_ticket,
}
use memory_server_worker.Routing.ConsentLedger.Methods.{
  reject_when, clock, bind_organization, consent,
}

abbrev pub new_receipt : IssueInput → String → Permit → ℕ → ReceiptRow
new_receipt v hash permit now = record {
  hash = hash;
  account_id = v.actor.account_id;
  credential_id = v.actor.credential_id;
  space_id = v.actor.space_id;
  operation = v.actor.operation;
  request_id = v.actor.request_id;
  consent_id = permit.consent_id;
  consent_version = permit.version;
  expires_at_ms = min (now + 60_000) (min permit.valid_until_ms v.authority_expires_at_ms);
  consumed_at_ms = none;
}

abbrev pub receipt_of : ReceiptRow → String → Receipt
receipt_of row receipt = record {
  request_id = row.request_id;
  space_id = row.space_id;
  consent_id = row.consent_id;
  consent_version = row.consent_version;
  operation = row.operation;
  expires_at_ms = row.expires_at_ms;
  receipt = receipt;
}

unfoldable pub has_too_many : String → Ledger → Bool
has_too_many account_id s =
    leb 100
      (count_rows (λ r. r.account_id == account_id && not (is_some r.consumed_at_ms)) s.receipts)
    || leb 10_000 (length s.receipts)

unfoldable pub issue :
    (digest : String → String) → Env → IssueInput → Ledger → Result Error (Receipt × Ledger)
issue digest env v s = do
  reject_when (not (is_issue v)) input_invalid
  bound ← bind_organization env v.actor.organization_id s
  now ← clock env
  permit ← consent v.actor v.authority_expires_at_ms now v.reference bound
  let purged = purge_receipts now bound
  reject_when (has_too_many v.actor.account_id purged) capacity_exceeded
  let row = new_receipt v (digest env.fresh_receipt) permit now
  s' ← insert_receipt row purged
  ok (receipt_of row env.fresh_receipt, s')

-- `this.bound(row, value)`, for a receipt and for a ticket.
abbrev pub receipt_bound : ReceiptRow → Actor → Bool
receipt_bound row a =
    row.account_id == a.account_id
    && row.credential_id == a.credential_id
    && row.space_id == a.space_id
    && row.operation == a.operation
    && row.request_id == a.request_id

abbrev pub ticket_bound : TicketRow → Actor → Bool
ticket_bound row a =
    row.account_id == a.account_id
    && row.credential_id == a.credential_id
    && row.space_id == a.space_id
    && row.operation == a.operation
    && row.request_id == a.request_id

abbrev pub ticket_of : TicketRow → String → Bool → Ticket
ticket_of row organization_id may_dispatch = record {
  id = row.id;
  organization_id = organization_id;
  account_id = row.account_id;
  credential_id = row.credential_id;
  space_id = row.space_id;
  operation = row.operation;
  operation_id = row.operation_id;
  request_id = row.request_id;
  state = row.state;
  consent_id = row.consent_id;
  consent_version = row.consent_version;
  created_at_ms = row.created_at_ms;
  updated_at_ms = row.updated_at_ms;
  expires_at_ms = row.expires_at_ms;
  may_dispatch = may_dispatch;
}

-- A receipt that is there, belongs to the actor, was not consumed, and is of the current consent.
unfoldable pub is_usable : ReceiptRow → ConsumeInput → Permit → ℕ → Bool
is_usable row v permit now =
    receipt_bound row v.actor
    && not (is_some row.consumed_at_ms)
    && not (leb row.expires_at_ms now)
    && row.consent_id == permit.consent_id
    && row.consent_version == permit.version

unfoldable pub find_receipt : String → ConsumeInput → Permit → ℕ → Ledger → Result Error ReceiptRow
find_receipt hash v permit now s = elim (receipt_by hash s) [
  | none ↦ err (rejected receipt_invalid)
  | some row ↦ if is_usable row v permit now then ok row else err (rejected receipt_invalid)
]

unfoldable pub same_operation : TicketRow → ConsumeInput → Bool
same_operation row v =
    row.payload_hash == v.payload_hash
    && row.account_id == v.actor.account_id
    && row.credential_id == v.actor.credential_id
    && row.operation == v.actor.operation

abbrev pub new_ticket : Env → ConsumeInput → ReceiptRow → Permit → TicketRow
new_ticket env v receipt permit = record {
  id = env.fresh_id;
  account_id = v.actor.account_id;
  credential_id = v.actor.credential_id;
  space_id = v.actor.space_id;
  operation = v.actor.operation;
  operation_id = v.operation_id;
  request_id = v.actor.request_id;
  payload_hash = v.payload_hash;
  consent_id = permit.consent_id;
  consent_version = permit.version;
  state = admitted;
  created_at_ms = env.now;
  updated_at_ms = env.now;
  expires_at_ms = min receipt.expires_at_ms (min permit.valid_until_ms v.authority_expires_at_ms);
  period = iso_month env.now;
}

unfoldable pub consume_new :
    Env → ConsumeInput → ReceiptRow → Permit → Ledger → Result Error (Ticket × Ledger)
consume_new env v receipt permit s = do
  reject_when (leb 10_000 (count_rows (λ t. t.period == iso_month env.now) s.tickets))
      capacity_exceeded
  s' ← insert_ticket (new_ticket env v receipt permit) s
  ok (
    ticket_of (new_ticket env v receipt permit) v.actor.organization_id true,
    consume_receipt receipt.hash env.now s',
  )

unfoldable pub consume_known :
    Env → ConsumeInput → ReceiptRow → TicketRow → Ledger → Result Error (Ticket × Ledger)
consume_known env v receipt row s = do
  reject_when (not (same_operation row v)) operation_conflict
  ok (ticket_of row v.actor.organization_id false, consume_receipt receipt.hash env.now s)

-- The part of `consume` behind the checks of the consent and of the receipt.
unfoldable pub consume_valid :
    Env → ConsumeInput → ReceiptRow → Permit → Ledger → Result Error (Ticket × Ledger)
consume_valid env v receipt permit s = elim (ticket_by v.actor.space_id v.operation_id s) [
  | none ↦ consume_new env v receipt permit s
  | some row ↦ consume_known env v receipt row s
]

unfoldable pub consume :
    (digest : String → String) → Env → ConsumeInput → Ledger → Result Error (Ticket × Ledger)
consume digest env v s = do
  reject_when (not (is_consume v)) input_invalid
  bound ← bind_organization env v.actor.organization_id s
  now ← clock env
  permit ← consent v.actor v.authority_expires_at_ms now (some v.reference) bound
  receipt ← find_receipt (digest v.receipt) v permit now bound
  consume_valid env v receipt permit bound

-- `this.loadTicket(value)`
unfoldable pub load_ticket : String → Actor → Ledger → Result Error TicketRow
load_ticket id a s = elim (ticket_at id s) [
  | none ↦ err (rejected ticket_unavailable)
  | some row ↦ if ticket_bound row a then ok row else err (rejected ticket_unavailable)
]

-- The part of `finalize` behind `loadTicket`.
unfoldable pub finalize_row :
    TicketRow → State → String → ℕ → Ledger → Result Error (Ticket × Ledger)
finalize_row row state organization_id now s = do
  reject_when (state == read_failed && row.operation != memory_search) transition_invalid
  if row.state == state then ok (ticket_of row organization_id false, s) else (do
    reject_when (row.state != admitted) transition_invalid
    ok (
      ticket_of (with_state state now row) organization_id false,
      update_ticket row.id state now s,
    ))

unfoldable pub finalize : Env → FinalizeInput → Ledger → Result Error (Ticket × Ledger)
finalize env v s = do
  reject_when (not (is_finalize v)) input_invalid
  bound ← bind_organization env v.actor.organization_id s
  now ← clock env
  row ← load_ticket v.ticket_id v.actor bound
  finalize_row row v.state v.actor.organization_id now bound

abbrev pub phase_state : Phase → State
phase_state dispatch = admitted
phase_state disclose = accepted

abbrev pub reference_of : TicketRow → Reference
reference_of row = record { consent_id = row.consent_id; version = row.consent_version }

unfoldable pub check_ticket : Env → TicketInput → Ledger → Result Error (Ticket × Ledger)
check_ticket env v s = do
  reject_when (not (is_ticket v)) input_invalid
  bound ← bind_organization env v.actor.organization_id s
  now ← clock env
  row ← load_ticket v.ticket_id v.actor bound
  permit ← consent v.actor v.authority_expires_at_ms now (some (reference_of row)) bound
  reject_when (leb row.expires_at_ms now || row.state != phase_state v.phase) ticket_unavailable
  ok (ticket_of row v.actor.organization_id false, bound)
