-- ===== src/Routing/ConsentLedger/Steps.antt =====
-- The writes that one call on a consent ledger is made of, as a relation, each with the facts under
-- which it is made. `fresh` is the hash of the receipt that the call may issue.
use memory_server_worker.Prelude.{
  ℕ, ◌+◌, ◌-◌, ◌<◌, String, Bool, true, false, none, some, ◌∷◌, nat_eq, string_eq, length, ◌≡◌,
}
use memory_server_worker.Routing.Consent
use memory_server_worker.Routing.Consent.{Status, granted, revoked, is_consent, is_some}
use memory_server_worker.Routing.SpaceLedger.Admissions.{or_else}
use memory_server_worker.Routing.ConsentLedger.Rows.{
  State, admitted, Action, grants, revokes, ReceiptRow, TicketRow, Ledger, state_eq, receipt_by,
  ticket_at, ticket_by, purge_receipts, consume_receipt, update_ticket,
}
use memory_server_worker.Routing.ConsentLedger.Methods.{version_of}

abbrev pub fits_action : Action → Status → Bool
fits_action grants granted = true
fits_action revokes revoked = true
fits_action grants revoked = false
fits_action revokes granted = false

-- The versions that a ticket may have: those of the records up to the current one, less a current
-- one that is revoked.
abbrev pub live_version : Ledger → ℕ
live_version s = elim s.current [
  | none ↦ 0
  | some r ↦ elim r.status [ granted ↦ r.version | revoked ↦ r.version - 1 ]
]

-- What `consume` knows of a ticket that it inserts.
pub record IsNewTicket (s : Ledger) (row : TicketRow) : Type 0 where
  pub fresh_id : ticket_at row.id s ≡ none
  pub fresh_key : ticket_by row.space_id row.operation_id s ≡ none
  pub starts : row.state ≡ admitted
  pub live : row.consent_version ≡ live_version s

pub data Step (fresh : String) (s s' : Ledger) : Type 0 where
  bind : (i : String) → s' ≡ record s { identity = some (or_else s.identity i) } → Step fresh s s'
  recording :
      (r : Consent.Consent) (actor : String) (action : Action) (now : ℕ)
      → is_consent r ≡ true
      → r.version ≡ version_of s.current + 1
      → fits_action action r.status ≡ true
      → s' ≡ record s {
        current = some r;
        audit =
            record {
              version = r.version;
              action = action;
              actor_id = actor;
              at_ms = now;
              consent = r;
            }
            ∷ s.audit;
      }
      → Step fresh s s'
  purging : (now : ℕ) → s' ≡ purge_receipts now s → Step fresh s s'
  issuing :
      (row : ReceiptRow)
      → receipt_by row.hash s ≡ none
      → row.hash ≡ fresh
      → length s.receipts < 10_000
      → s' ≡ record s { receipts = row ∷ s.receipts }
      → Step fresh s s'
  admission :
      (row : TicketRow)
      → IsNewTicket s row
      → s' ≡ record s { tickets = row ∷ s.tickets }
      → Step fresh s s'
  spending : (hash : String) (now : ℕ) → s' ≡ consume_receipt hash now s → Step fresh s s'
  outcome :
      (row : TicketRow) (state : State) (now : ℕ)
      → ticket_at row.id s ≡ some row
      → row.state ≡ admitted
      → s' ≡ update_ticket row.id state now s
      → Step fresh s s'

pub data Reach (fresh : String) (s : Ledger) : Ledger → Type 0 where
  here : Reach fresh s s
  next : {t u : Ledger} → Reach fresh s t → Step fresh t u → Reach fresh s u

pub Reach-trans :
    {fresh : String} {s t u : Ledger} → Reach fresh s t → Reach fresh t u → Reach fresh s u
Reach-trans h here = h
Reach-trans h (next k st) = next (Reach-trans h k) st
