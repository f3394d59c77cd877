-- ===== src/Routing/ConsentLedger/Invariant.antt =====
-- The invariant of a consent ledger, and that every history of calls keeps it.
use memory_server_worker.Prelude.{
  ℕ, ◌+◌, ◌-◌, ◌≤◌, ◌<◌, String, true, not, Option, none, some, List, [], ◌∷◌, leb, ◌==◌, nat_eq,
  string_eq, length, All, All-map, All-update_rows, Distinct, Distinct-select_rows,
  Distinct-update_rows, find_row-none, length-select_rows_le, length-update_rows, ◌≡◌, refl, ap,
  sym, arith,
}
use memory_server_worker.Routing.Consent
use memory_server_worker.Routing.Consent.{Status, granted, revoked, is_consent}
use memory_server_worker.Routing.ConsentLedger.Rows.{
  AuditRow, ReceiptRow, TicketRow, Ledger, initial, consumed, with_state,
}
use memory_server_worker.Routing.ConsentLedger.Inputs.{Env}
use memory_server_worker.Routing.ConsentLedger.Methods.{version_of}
use memory_server_worker.Routing.ConsentLedger.History.{Call, step, run}
use memory_server_worker.Routing.ConsentLedger.Steps.{
  fits_action, live_version, Step, bind, recording, purging, issuing, admission, spending, outcome,
  Reach, here, next,
}
use memory_server_worker.Routing.ConsentLedger.Refinement.{step-Reach}

pub record IsAudit (n : ℕ) (a : AuditRow) : Type 0 where
  pub numbered : a.version ≡ n
  pub same_version : a.consent.version ≡ n
  pub positive : 0 < n
  pub valid : is_consent a.consent ≡ true
  pub fits : fits_action a.action a.consent.status ≡ true

-- The rows of the audit trail have the versions from the last one down to 1.
abbrev pub IsTrail : ℕ → List AuditRow → Type 0
IsTrail n [] = n ≡ 0
IsTrail n (a ∷ older) = IsAudit n a × IsTrail (n - 1) older

abbrev pub latest : List AuditRow → Option Consent.Consent
latest [] = none
latest (a ∷ older) = some a.consent

pub record IsConsentLedger (s : Ledger) : Type 0 where
  pub trail : IsTrail (version_of s.current) s.audit
  pub current : s.current ≡ latest s.audit
  pub receipt_hashes : Distinct (λ r. r.hash) s.receipts
  pub receipt_room : length s.receipts ≤ 10_000
  pub ticket_ids : Distinct (λ t. t.id) s.tickets
  pub ticket_versions : All (λ t. t.consent_version ≤ live_version s) s.tickets

pub initial-IsConsentLedger : IsConsentLedger initial
initial-IsConsentLedger = record {
  trail = refl;
  current = refl;
  receipt_hashes = tt;
  receipt_room = omega arith;
  ticket_ids = tt;
  ticket_versions = tt;
}

pub is_consent_positive : (r : Consent.Consent) → is_consent r ≡ true → 0 < r.version
unfolding is_consent
is_consent_positive r h = ground arith

-- A new version leaves the older ones live, whatever its own status.
abbrev pub live_of : Option Consent.Consent → ℕ
live_of none = 0
live_of (some r) = elim r.status [ granted ↦ r.version | revoked ↦ r.version - 1 ]

pub live_of_le : (c : Option Consent.Consent) → live_of c ≤ version_of c
live_of_le none = omega arith
live_of_le (some r) = ground arith

pub live_of-next :
    (c : Option Consent.Consent) (r : Consent.Consent)
    → r.version ≡ version_of c + 1
    → live_of c ≤ live_of (some r)
live_of-next c r e = ground (arith, live_of_le c)

pub live_version_lem : (s : Ledger) → live_version s ≡ live_of s.current
live_version_lem s = ground arith

module _ (s : Ledger) (w : IsConsentLedger s) where
  recording-IsConsentLedger :
      (r : Consent.Consent) (row : AuditRow)
      → IsAudit r.version row
      → row.consent ≡ r
      → r.version ≡ version_of s.current + 1
      → IsConsentLedger (record s { current = some r; audit = row ∷ s.audit })
  recording-IsConsentLedger r row audit same version = record {
    trail =
        let older : version_of s.current ≡ r.version - 1 = omega arith in
        (audit, rw (← older) w.trail);
    current = ap some (sym same);
    receipt_hashes = w.receipt_hashes;
    receipt_room = w.receipt_room;
    ticket_ids = w.ticket_ids;
    ticket_versions =
        All-map s.tickets
          (λ t le. omega (
            arith,
            le,
            live_version_lem s,
            live_of-next s.current r version,
            live_version_lem (record s { current = some r; audit = row ∷ s.audit }),
          ))
          w.ticket_versions;
  }

  receipts-IsConsentLedger :
      (rows : List ReceiptRow)
      → Distinct (λ r. r.hash) rows
      → length rows ≤ 10_000
      → IsConsentLedger (record s { receipts = rows })
  receipts-IsConsentLedger rows hashes room = record {
    trail = w.trail;
    current = w.current;
    receipt_hashes = hashes;
    receipt_room = room;
    ticket_ids = w.ticket_ids;
    ticket_versions = w.ticket_versions;
  }

  tickets-IsConsentLedger :
      (rows : List TicketRow)
      → Distinct (λ t. t.id) rows
      → All (λ t. t.consent_version ≤ live_version s) rows
      → IsConsentLedger (record s { tickets = rows })
  tickets-IsConsentLedger rows ids versions = record {
    trail = w.trail;
    current = w.current;
    receipt_hashes = w.receipt_hashes;
    receipt_room = w.receipt_room;
    ticket_ids = ids;
    ticket_versions = versions;
  }

pub Step-IsConsentLedger :
    {fresh : String} {s s' : Ledger} → Step fresh s s' → IsConsentLedger s → IsConsentLedger s'
Step-IsConsentLedger {s = s} (bind i e) w = rw e (record {
  trail = w.trail;
  current = w.current;
  receipt_hashes = w.receipt_hashes;
  receipt_room = w.receipt_room;
  ticket_ids = w.ticket_ids;
  ticket_versions = w.ticket_versions;
})
Step-IsConsentLedger {s = s} (recording r actor action now valid version fits e) w = rw e (
    recording-IsConsentLedger s w r _
      (record {
        numbered = refl;
        same_version = refl;
        positive = is_consent_positive r valid;
        valid = valid;
        fits = fits;
      })
      refl version)
Step-IsConsentLedger {s = s} (purging now e) w = rw e (
    receipts-IsConsentLedger s w _
      (Distinct-select_rows (λ r. r.hash) (λ r. not (leb r.expires_at_ms now)) s.receipts
        w.receipt_hashes)
      (omega (
        arith,
        w.receipt_room,
        length-select_rows_le (λ (r : ReceiptRow). not (leb r.expires_at_ms now)) s.receipts,
      )))
Step-IsConsentLedger {s = s} (issuing row free same room e) w = rw e (
    receipts-IsConsentLedger s w (row ∷ s.receipts)
      (find_row-none _ s.receipts free, w.receipt_hashes) (omega arith))
Step-IsConsentLedger {s = s} (admission row n e) w = rw e (
    tickets-IsConsentLedger s w (row ∷ s.tickets)
      (find_row-none _ s.tickets n.fresh_id, w.ticket_ids)
      (omega (arith, n.live), w.ticket_versions))
Step-IsConsentLedger {s = s} (spending hash now e) w = rw e (
    receipts-IsConsentLedger s w _
      (Distinct-update_rows (λ r. r.hash) (λ r. r.hash == hash) (consumed now) (λ r. refl)
        s.receipts w.receipt_hashes)
      (rw length-update_rows w.receipt_room))
Step-IsConsentLedger {s = s} (outcome row state now found starts e) w = rw e (
    tickets-IsConsentLedger s w _
      (Distinct-update_rows (λ t. t.id) (λ t. t.id == row.id) (with_state state now) (λ t. refl)
        s.tickets w.ticket_ids)
      (All-update_rows (λ t. t.id == row.id) (with_state state now) s.tickets (λ t le hit. le)
        (λ t le miss. le) w.ticket_versions))

pub Reach-IsConsentLedger :
    {fresh : String} {s s' : Ledger} → Reach fresh s s' → IsConsentLedger s → IsConsentLedger s'
Reach-IsConsentLedger here w = w
Reach-IsConsentLedger (next r st) w = Step-IsConsentLedger st (Reach-IsConsentLedger r w)

pub run_keeps :
    (digest : String → String) (s : Ledger) (cs : List (Env × Call))
    → IsConsentLedger s
    → IsConsentLedger (run digest s cs)
unfolding run
run_keeps digest s [] w = w
run_keeps digest s ((env, c) ∷ cs) w =
    run_keeps digest (step digest s (env, c)) cs
      (Reach-IsConsentLedger (step-Reach digest s env c) w)

-- Whatever calls are made on a new ledger, and whether they return or throw, the audit trail has one
-- valid record for each version from 1 to the current one, the current record is the last of them,
-- hashes of receipts and identifiers of tickets are unique, and no ticket has a version that is later
-- than the current one, nor that of a current record that is revoked.
pub run-IsConsentLedger :
    (digest : String → String) (cs : List (Env × Call)) → IsConsentLedger (run digest initial cs)
run-IsConsentLedger digest cs = run_keeps digest initial cs initial-IsConsentLedger
