-- ===== src/Routing/ConsentLedger/Refinement/Writes.antt =====
-- The parts of the calls on a consent ledger behind their checks, as sequences of steps.
use memory_server_worker.Prelude.{
  ℕ, ◌+◌, ◌<◌, String, true, false, Option, none, some, ◌∷◌, ◌==◌, nat_eq, string_eq, ◌≡◌, refl, ap,
  ◌∙◌, ◌⊎◌, Result, ok, >>=-eq-ok, arith, Option-cases, Bool-cases, inl, inr,
}
use memory_server_worker.Routing.Consent
use memory_server_worker.Routing.Consent.{
  granted, revoked, is_consent, is_granted, is_some, parse_consent, assert_consent, revoke_consent,
  revoked_record, Permit, permit_of, Reference,
}
use memory_server_worker.Routing.Consent.Permits.{Allows, assert_consent_sound}
use memory_server_worker.Routing.Consent.Revocation.{revoke_consent_sound}
use memory_server_worker.Routing.ConsentLedger.Rows.{
  State, Action, grants, revokes, ReceiptRow, TicketRow, Ledger, state_eq, ticket_at, ticket_by,
  purge_receipts, consume_receipt, save, insert_receipt, insert_ticket,
}
use memory_server_worker.Routing.ConsentLedger.Inputs.{
  Env, GrantInput, RevokeInput, Actor, IssueInput, ConsumeInput, Ticket,
}
use memory_server_worker.Routing.ConsentLedger.Exchanges.{
  new_receipt, has_too_many, new_ticket, consume_new, consume_known, consume_valid, finalize_row,
}
use memory_server_worker.Routing.ConsentLedger.Methods.{
  bind_organization, current, permitted, revoke_live, consent, thrown, caught, context_of,
  granted_record, grant_bound, revoke_known, revoke_bound,
}
use memory_server_worker.Routing.ConsentLedger.Steps.{
  live_version, bind, recording, purging, issuing, admission, spending, outcome, Reach, here, next,
}

pub bind_organization-Reach :
    (fresh : String) (env : Env) (i : String) (s : Ledger) {t : Ledger}
    → bind_organization env i s ≡ ok t
    → Reach fresh s t
unfolding bind_organization
bind_organization-Reach fresh env i s h = next here (bind i (ground arith))

-- The record that a call reads is the stored one, and is valid.
pub current-eq-ok :
    (s : Ledger) {r : Option Consent.Consent}
    → current s ≡ ok r
    → (s.current ≡ r) × ((c : Consent.Consent) → r ≡ some c → is_consent c ≡ true)
unfolding parse_consent
current-eq-ok s h = (ground arith, λ c e. ground arith)

pub save-eq-ok :
    (r : Consent.Consent) (actor : String) (action : Action) (now : ℕ) (s : Ledger) {s' : Ledger}
    → save r actor action now s ≡ ok s'
    → s' ≡ record s {
      current = some r;
      audit =
          record {
            version = r.version;
            action = action;
            actor_id = actor;
            at_ms = now;
            consent = r;
          }
          ∷ s.audit;
    }
unfolding save
save-eq-ok r actor action now s h = ground arith

pub grant_bound-Reach :
    (fresh : String) (env : Env) (v : GrantInput) (now : ℕ) (s : Ledger)
    {r : Consent.Consent × Ledger}
    → grant_bound env v now s ≡ ok r
    → Reach fresh s r.1
unfolding grant_bound parse_consent
grant_bound-Reach fresh env v now s {r} h =
    let (previous, read, rest) = >>=-eq-ok (thrown (current s)) _ h in
    let stored : s.current ≡ previous = (current-eq-ok s (ground arith)).0 in
    let saved : save (granted_record env v previous) v.approved_by grants now s ≡ ok r.1 =
      ground arith in
    next here (
      recording (granted_record env v previous) v.approved_by grants now (ground arith)
        (rw stored (ground arith)) refl
        (save-eq-ok (granted_record env v previous) v.approved_by grants now s saved))

pub caught_ok : {A : Type 0} (r : Result Consent.Code A) {a : A} → caught r ≡ ok a → r ≡ ok a
caught_ok r h = ground arith

pub thrown_ok : {A : Type 0} (r : Result Consent.Code A) {a : A} → thrown r ≡ ok a → r ≡ ok a
thrown_ok r h = ground arith

pub permitted-eq-ok :
    (a : Actor) (now : ℕ) (reference : Option Reference) (s : Ledger) {p : Permit}
    → permitted a now reference s ≡ ok p
    → (r : Consent.Consent) × (s.current ≡ some r)
      × (is_consent r ≡ true)
      × Allows (context_of a reference now (some r)) r
      × (p ≡ permit_of r (context_of a reference now (some r)))
unfolding permitted
permitted-eq-ok a now reference s {p} h =
    let (c, read, given) = >>=-eq-ok (current s) _ h in
    let (r, is, valid, allows, same) = assert_consent_sound (context_of a reference now c) given in
    (r, (current-eq-ok s read).0 ∙ is, valid, rw is at allows, rw is at same)

-- A permit is for the stored record, which allows the request.
pub consent-eq-ok :
    (a : Actor) (expires now : ℕ) (reference : Option Reference) (s : Ledger) {p : Permit}
    → consent a expires now reference s ≡ ok p
    → (r : Consent.Consent) × (s.current ≡ some r)
      × (is_consent r ≡ true)
      × Allows (context_of a reference now (some r)) r
      × (p ≡ permit_of r (context_of a reference now (some r)))
      × (now < expires)
unfolding consent
consent-eq-ok a expires now reference s {p} h =
    let given : permitted a now reference s ≡ ok p = ground arith in
    let (r, stored, valid, allows, same) = permitted-eq-ok a now reference s given in
    (r, stored, valid, allows, same, ground arith)

revoke_live-Reach :
    (fresh : String) (previous : Consent.Consent) (v : RevokeInput) (now : ℕ) (s : Ledger)
    {r : Consent.Consent × Ledger}
    → s.current ≡ some previous
    → previous.status ≡ granted
    → revoke_live previous v now s ≡ ok r
    → Reach fresh s r.1
unfolding revoke_live revoked_record
revoke_live-Reach fresh previous v now s {r} stored live h =
    let (again, revoking, rest) =
      >>=-eq-ok (thrown (revoke_consent (some previous) now v.expected_version)) _ h in
    let (expected, valid, dead, id, changed) =
      revoke_consent_sound previous now v.expected_version (thrown_ok _ revoking) in
    let saved : save again v.approved_by revokes now s ≡ ok r.1 = ground arith in
    next here (
      recording again v.approved_by revokes now valid
        (rw stored (bumped previous again now live changed)) (rw dead refl)
        (save-eq-ok again v.approved_by revokes now s saved))
  where
    bumped :
        (r r' : Consent.Consent) (now : ℕ)
        → r.status ≡ granted
        → ((r.status ≡ revoked) × (r' ≡ r)) ⊎ ((r.status ≡ granted) × (r' ≡ revoked_record r now))
        → r'.version ≡ r.version + 1
    bumped r r' now live (inl (dead, e)) = absurd (cc)
    bumped r r' now live (inr (g, e)) = ap (λ (c : Consent.Consent). c.version) e

pub revoke_known-Reach :
    (fresh : String) (previous : Consent.Consent) (v : RevokeInput) (now : ℕ) (s : Ledger)
    {r : Consent.Consent × Ledger}
    → s.current ≡ some previous
    → revoke_known previous v now s ≡ ok r
    → Reach fresh s r.1
unfolding revoke_known
revoke_known-Reach fresh previous v now s {r} stored h =
    elim (Bool-cases (is_granted previous.status)) [
      | inl live ↦
          let run : revoke_live previous v now s ≡ ok r = ground arith in
          revoke_live-Reach fresh previous v now s stored (ground arith) run
      | inr dead ↦ let same : r.1 ≡ s = ground arith in rw same here
    ]

-- What `revoke_bound` has read.
pub revoke_bound-eq-ok :
    (v : RevokeInput) (now : ℕ) (s : Ledger) {r : Consent.Consent × Ledger}
    → revoke_bound v now s ≡ ok r
    → (previous : Consent.Consent) × (s.current ≡ some previous)
      × (is_consent previous ≡ true)
      × (revoke_known previous v now s ≡ ok r)
unfolding revoke_bound
revoke_bound-eq-ok v now s {r} h =
    let (read, reading, rest) = >>=-eq-ok (thrown (current s)) _ h in
    let (stored, valid) = current-eq-ok s (thrown_ok _ reading) in
    elim (Option-cases read) [
      | inl missing ↦ absurd (ground arith)
      | inr (previous, is) ↦ (previous, stored ∙ is, valid previous is, ground arith)
    ]

pub issue_bound-Reach :
    (v : IssueInput) (hash : String) (permit : Permit) (now : ℕ) (s : Ledger) {s' : Ledger}
    → has_too_many v.actor.account_id (purge_receipts now s) ≡ false
    → insert_receipt (new_receipt v hash permit now) (purge_receipts now s) ≡ ok s'
    → Reach hash s s'
unfolding has_too_many insert_receipt
issue_bound-Reach v hash permit now s room h =
    next (next here (purging now refl))
      (issuing (new_receipt v hash permit now) (ground arith) refl (ground arith) (ground arith))

pub insert_ticket-eq-ok :
    (row : TicketRow) (s : Ledger) {s' : Ledger}
    → insert_ticket row s ≡ ok s'
    → (ticket_at row.id s ≡ none)
      × (ticket_by row.space_id row.operation_id s ≡ none)
      × (s' ≡ record s { tickets = row ∷ s.tickets })
unfolding insert_ticket
insert_ticket-eq-ok row s h = (ground arith, ground arith, ground arith)

pub consume_new-eq-ok :
    (env : Env) (v : ConsumeInput) (receipt : ReceiptRow) (permit : Permit) (s : Ledger)
    {r : Ticket × Ledger}
    → consume_new env v receipt permit s ≡ ok r
    → (t : Ledger) × (insert_ticket (new_ticket env v receipt permit) s ≡ ok t)
      × (r.1 ≡ consume_receipt receipt.hash env.now t)
unfolding consume_new
consume_new-eq-ok env v receipt permit s h = ground arith

consume_new-Reach :
    (fresh : String) (env : Env) (v : ConsumeInput) (receipt : ReceiptRow) (permit : Permit)
    (s : Ledger) {r : Ticket × Ledger}
    → permit.version ≡ live_version s
    → consume_new env v receipt permit s ≡ ok r
    → Reach fresh s r.1
unfolding consume_new
consume_new-Reach fresh env v receipt permit s {r} live h =
    let (t, inserted, spent) = consume_new-eq-ok env v receipt permit s h in
    let (id, key, same) = insert_ticket-eq-ok (new_ticket env v receipt permit) s inserted in
    next
      (next here (
        admission (new_ticket env v receipt permit)
          (record { fresh_id = id; fresh_key = key; starts = refl; live = live }) same))
      (spending receipt.hash env.now spent)

pub consume_valid-Reach :
    (fresh : String) (env : Env) (v : ConsumeInput) (receipt : ReceiptRow) (permit : Permit)
    (s : Ledger) {r : Ticket × Ledger}
    → permit.version ≡ live_version s
    → consume_valid env v receipt permit s ≡ ok r
    → Reach fresh s r.1
unfolding consume_valid
consume_valid-Reach fresh env v receipt permit s {r} live h =
    elim (Option-cases (ticket_by v.actor.space_id v.operation_id s)) [
      | inl free ↦
          let run : consume_new env v receipt permit s ≡ ok r = ground arith in
          consume_new-Reach fresh env v receipt permit s live run
      | inr (row, e) ↦
          let known : consume_known env v receipt row s ≡ ok r = ground arith in
          let spent : r.1 ≡ consume_receipt receipt.hash env.now s =
            unfold consume_known in ground arith in
          next here (spending receipt.hash env.now spent)
    ]

pub finalize_row-Reach :
    (fresh : String) (row : TicketRow) (state : State) (organization_id : String) (now : ℕ)
    (s : Ledger) {r : Ticket × Ledger}
    → ticket_at row.id s ≡ some row
    → finalize_row row state organization_id now s ≡ ok r
    → Reach fresh s r.1
unfolding finalize_row
finalize_row-Reach fresh row state organization_id now s {r} found h =
    elim (Bool-cases (row.state == state)) [
      | inl same ↦ let kept : r.1 ≡ s = ground arith in rw kept here
      | inr other ↦ next here (outcome row state now found (ground arith) (ground arith))
    ]
