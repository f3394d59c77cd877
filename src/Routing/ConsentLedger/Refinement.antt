-- ===== src/Routing/ConsentLedger/Refinement.antt =====
-- Every call on a consent ledger is a sequence of the steps of `Steps`.
pub mod Writes
use memory_server_worker.Prelude.{
  ℕ, ◌+◌, ◌<◌, String, Bool, true, false, not, ◌&&◌, ◌||◌, Option, none, some, List, [], ◌∷◌, ◌==◌,
  ◌!=◌, nat_eq, string_eq, length, ◌≡◌, refl, ap, ◌∙◌, ◌⊎◌, Result, ok, err, >>=-eq-ok, ◌>>=◌,
  committed, arith, Option-cases, Bool-cases, inl, inr, find_row-key,
}
use memory_server_worker.Routing.Consent
use memory_server_worker.Routing.Consent.{
  granted, revoked, is_consent, is_granted, is_some, parse_consent, assert_consent, revoke_consent,
  revoked_record, Permit, permit_of, Reference,
}
use memory_server_worker.Routing.Consent.Permits.{Allows, parse_consent-eq-ok, assert_consent_sound}
use memory_server_worker.Routing.Consent.Revocation.{revoke_consent_sound}
use memory_server_worker.Routing.SpaceLedger.Admissions.{or_else}
use memory_server_worker.Routing.ConsentLedger.Rows.{
  State, admitted, Action, Error, grants, revokes, ReceiptRow, TicketRow, Ledger, state_eq,
  receipt_by, ticket_at, ticket_by, purge_receipts, consume_receipt, update_ticket, save,
  insert_receipt, insert_ticket, with_state,
}
use memory_server_worker.Routing.ConsentLedger.Inputs.{
  Env, GrantInput, RevokeInput, Actor, IssueInput, ConsumeInput, FinalizeInput, TicketInput,
  Receipt, Ticket,
}
use memory_server_worker.Routing.ConsentLedger.Exchanges.{
  ticket_of, ticket_bound, phase_state, new_receipt, has_too_many, issue, find_receipt, new_ticket,
  consume_new, consume_known, consume_valid, consume, load_ticket, finalize_row, finalize,
  reference_of, check_ticket, receipt_of,
}
use memory_server_worker.Routing.ConsentLedger.Methods.{
  bind_organization, current, permitted, revoke_live, reject_when, consent, thrown, caught,
  context_of, version_of, get, granted_record, grant_bound, grant, revoke_known, revoke_bound,
  revoke,
}
use memory_server_worker.Routing.ConsentLedger.Steps.{
  live_version, fits_action, IsNewTicket, Step, bind, recording, purging, issuing, admission,
  spending, outcome, Reach, here, next, Reach-trans,
}
use memory_server_worker.Routing.ConsentLedger.History.{
  Call, gets, grants, revokes, issues, consumes, finalizes, checks, step, run,
}
use memory_server_worker.Routing.ConsentLedger.Inputs.{is_issue, is_consume}
use Writes.{
  bind_organization-Reach, current-eq-ok, thrown_ok, caught_ok, consent-eq-ok, grant_bound-Reach,
  revoke_known-Reach, revoke_bound-eq-ok, issue_bound-Reach, consume_valid-Reach,
  finalize_row-Reach,
}

grant-eq-ok :
    (env : Env) (v : GrantInput) (s : Ledger) {r : Consent.Consent × Ledger}
    → grant env v s ≡ ok r
    → (b : Ledger) × (bind_organization env v.organization_id s ≡ ok b)
      × (grant_bound env v env.now b ≡ ok r)
unfolding grant
grant-eq-ok env v s h = ground arith

pub revoke-eq-ok :
    (env : Env) (v : RevokeInput) (s : Ledger) {r : Consent.Consent × Ledger}
    → revoke env v s ≡ ok r
    → (b : Ledger) × (bind_organization env v.organization_id s ≡ ok b)
      × (revoke_bound v env.now b ≡ ok r)
unfolding revoke
revoke-eq-ok env v s h = ground arith

pub issue-eq-ok :
    (digest : String → String) (env : Env) (v : IssueInput) (s : Ledger) {r : Receipt × Ledger}
    → issue digest env v s ≡ ok r
    → (b : Ledger) × (bind_organization env v.actor.organization_id s ≡ ok b)
      × (permit : Permit) × (consent v.actor v.authority_expires_at_ms env.now v.reference b
          ≡ ok permit)
      × (has_too_many v.actor.account_id (purge_receipts env.now b) ≡ false)
      × (insert_receipt
            (new_receipt v (digest env.fresh_receipt) permit env.now)
            (purge_receipts env.now b)
          ≡ ok r.1)
unfolding issue
issue-eq-ok digest env v s h = ground arith

pub consume-eq-ok :
    (digest : String → String) (env : Env) (v : ConsumeInput) (s : Ledger) {r : Ticket × Ledger}
    → consume digest env v s ≡ ok r
    → (b : Ledger) × (bind_organization env v.actor.organization_id s ≡ ok b)
      × (permit : Permit) × (consent v.actor v.authority_expires_at_ms env.now (some v.reference) b
          ≡ ok permit)
      × (receipt : ReceiptRow) × (find_receipt (digest v.receipt) v permit env.now b ≡ ok receipt)
      × (consume_valid env v receipt permit b ≡ ok r)
unfolding consume
consume-eq-ok digest env v s h = ground arith

finalize-eq-ok :
    (env : Env) (v : FinalizeInput) (s : Ledger) {r : Ticket × Ledger}
    → finalize env v s ≡ ok r
    → (b : Ledger) × (bind_organization env v.actor.organization_id s ≡ ok b)
      × (row : TicketRow) × (load_ticket v.ticket_id v.actor b ≡ ok row)
      × (finalize_row row v.state v.actor.organization_id env.now b ≡ ok r)
unfolding finalize
finalize-eq-ok env v s h = ground arith

pub check_ticket-eq-ok :
    (env : Env) (v : TicketInput) (s : Ledger) {r : Ticket × Ledger}
    → check_ticket env v s ≡ ok r
    → (b : Ledger) × (bind_organization env v.actor.organization_id s ≡ ok b)
      × (row : TicketRow) × (load_ticket v.ticket_id v.actor b ≡ ok row)
      × (permit : Permit) × (consent v.actor v.authority_expires_at_ms env.now
            (some (reference_of row))
            b
          ≡ ok permit)
      × (r ≡ (ticket_of row v.actor.organization_id false, b))
      × (env.now < row.expires_at_ms)
      × (row.state ≡ phase_state v.phase)
unfolding check_ticket
check_ticket-eq-ok env v s h = ground arith

pub load_ticket-eq-ok :
    (id : String) (a : Actor) (s : Ledger) {row : TicketRow}
    → load_ticket id a s ≡ ok row
    → (ticket_at id s ≡ some row) × (ticket_bound row a ≡ true)
unfolding load_ticket
load_ticket-eq-ok id a s h = (ground arith, ground arith)

permit-live :
    (a : Actor) (expires now : ℕ) (reference : Option Reference) (s : Ledger) {p : Permit}
    → consent a expires now reference s ≡ ok p
    → p.version ≡ live_version s
unfolding permit_of
permit-live a expires now reference s h =
    let (r, stored, valid, allows, same, timely) = consent-eq-ok a expires now reference s h in
    ap (λ (x : Permit). x.version) same ∙ ground (arith, stored, allows.is_granted)

grant-Reach :
    (fresh : String) (env : Env) (v : GrantInput) (s : Ledger) {r : Consent.Consent × Ledger}
    → grant env v s ≡ ok r
    → Reach fresh s r.1
grant-Reach fresh env v s h =
    let (b, bound, run) = grant-eq-ok env v s h in
    Reach-trans (bind_organization-Reach fresh env v.organization_id s bound)
      (grant_bound-Reach fresh env v env.now b run)

pub revoke-Reach :
    (fresh : String) (env : Env) (v : RevokeInput) (s : Ledger) {r : Consent.Consent × Ledger}
    → revoke env v s ≡ ok r
    → Reach fresh s r.1
revoke-Reach fresh env v s h =
    let (b, bound, run) = revoke-eq-ok env v s h in
    let (previous, stored, valid, revoking) = revoke_bound-eq-ok v env.now b run in
    Reach-trans (bind_organization-Reach fresh env v.organization_id s bound)
      (revoke_known-Reach fresh previous v env.now b stored revoking)

issue-Reach :
    (digest : String → String) (env : Env) (v : IssueInput) (s : Ledger) {r : Receipt × Ledger}
    → issue digest env v s ≡ ok r
    → Reach (digest env.fresh_receipt) s r.1
issue-Reach digest env v s h =
    let (b, bound, permit, permitted, room, inserted) = issue-eq-ok digest env v s h in
    Reach-trans
      (bind_organization-Reach (digest env.fresh_receipt) env v.actor.organization_id s bound)
      (issue_bound-Reach v (digest env.fresh_receipt) permit env.now b room inserted)

consume-Reach :
    (digest : String → String) (fresh : String) (env : Env) (v : ConsumeInput) (s : Ledger)
    {r : Ticket × Ledger}
    → consume digest env v s ≡ ok r
    → Reach fresh s r.1
consume-Reach digest fresh env v s h =
    let (b, bound, permit, permitted, receipt, found, run) = consume-eq-ok digest env v s h in
    Reach-trans (bind_organization-Reach fresh env v.actor.organization_id s bound) (
      consume_valid-Reach fresh env v receipt permit b
        (permit-live v.actor v.authority_expires_at_ms env.now (some v.reference) b permitted) run)

finalize-Reach :
    (fresh : String) (env : Env) (v : FinalizeInput) (s : Ledger) {r : Ticket × Ledger}
    → finalize env v s ≡ ok r
    → Reach fresh s r.1
finalize-Reach fresh env v s h =
    let (b, bound, row, loaded, run) = finalize-eq-ok env v s h in
    let found = (load_ticket-eq-ok v.ticket_id v.actor b loaded).0 in
    let key : row.id ≡ v.ticket_id =
      find_row-key (λ (t : TicketRow). t.id) v.ticket_id b.tickets found in
    Reach-trans (bind_organization-Reach fresh env v.actor.organization_id s bound)
      (finalize_row-Reach fresh row v.state v.actor.organization_id env.now b (rw key found) run)

check_ticket-Reach :
    (fresh : String) (env : Env) (v : TicketInput) (s : Ledger) {r : Ticket × Ledger}
    → check_ticket env v s ≡ ok r
    → Reach fresh s r.1
check_ticket-Reach fresh env v s h =
    let (b, bound, row, loaded, permit, permitted, same, timely, state) =
      check_ticket-eq-ok env v s h in
    rw same (bind_organization-Reach fresh env v.actor.organization_id s bound)

get-Reach :
    (fresh : String) (env : Env) (i : String) (s : Ledger) {r : Option Consent.Consent × Ledger}
    → get env i s ≡ ok r
    → Reach fresh s r.1
unfolding get
get-Reach fresh env i s {r} h =
    let bound : bind_organization env i s ≡ ok r.1 = ground arith in
    bind_organization-Reach fresh env i s bound

committed-Reach :
    {A : Type 0} (fresh : String) (s : Ledger) (r : Result Error (A × Ledger))
    → ((a : A × Ledger) → r ≡ ok a → Reach fresh s a.1)
    → Reach fresh s (committed s r)
committed-Reach fresh s (ok a) h = h a refl
committed-Reach fresh s (err e) h = here

-- Whether a call returns or throws, what it leaves is reached by steps.
pub step-Reach :
    (digest : String → String) (s : Ledger) (env : Env) (c : Call)
    → Reach (digest env.fresh_receipt) s (step digest s (env, c))
unfolding step
step-Reach digest s env (gets i) = committed-Reach _ s (get env i s) (λ a h. get-Reach _ env i s h)
step-Reach digest s env (grants v) =
    committed-Reach _ s (grant env v s) (λ a h. grant-Reach _ env v s h)
step-Reach digest s env (revokes v) =
    committed-Reach _ s (revoke env v s) (λ a h. revoke-Reach _ env v s h)
step-Reach digest s env (issues v) =
    committed-Reach _ s (issue digest env v s) (λ a h. issue-Reach digest env v s h)
step-Reach digest s env (consumes v) =
    committed-Reach _ s (consume digest env v s) (λ a h. consume-Reach digest _ env v s h)
step-Reach digest s env (finalizes v) =
    committed-Reach _ s (finalize env v s) (λ a h. finalize-Reach _ env v s h)
step-Reach digest s env (checks v) =
    committed-Reach _ s (check_ticket env v s) (λ a h. check_ticket-Reach _ env v s h)
