-- ===== src/Routing/ConsentLedger/Tickets.antt =====
-- A ticket is good only under the consent that it was issued under.
use mathlib.Core.Path.{subst}
use memory_server_worker.Prelude.{
  ℕ, ◌-◌, ◌<◌, ◌≤◌, String, true, none, some, List, [], ◌∷◌, ◌==◌, nat_eq, string_eq, find_row-All,
  find_row-update_rows, if◌then◌else◌, ◌≡◌, refl, ap, sym, ◌∙◌, ok, Bool-cases, inl, inr, arith,
  >>=-eq-ok,
}
use memory_server_worker.Routing.Consent
use memory_server_worker.Routing.Consent.{
  granted, revoked, is_granted, is_consent, Permit, permit_of, revoke_consent,
}
use memory_server_worker.Routing.Consent.Permits.{Allows}
use memory_server_worker.Routing.Consent.Revocation.{revoke_consent_sound}
use memory_server_worker.Routing.ConsentLedger.Rows.{
  State, admitted, accepted, TicketRow, Ledger, initial, ticket_at, with_state, revokes, save,
}
use memory_server_worker.Routing.ConsentLedger.Inputs.{
  Env, RevokeInput, TicketInput, Ticket, Phase, dispatch, disclose,
}
use memory_server_worker.Routing.ConsentLedger.Exchanges.{
  reference_of, phase_state, ticket_bound, check_ticket,
}
use memory_server_worker.Routing.ConsentLedger.Methods.{
  bind_organization, context_of, version_of, revoke_live, revoke_known, revoke, thrown,
}
use memory_server_worker.Routing.ConsentLedger.History.{Call, step, run}
use memory_server_worker.Routing.ConsentLedger.Steps.{
  live_version, Step, bind, recording, purging, issuing, admission, spending, outcome, Reach, here,
  next,
}
use memory_server_worker.Routing.ConsentLedger.Refinement.{
  step-Reach, revoke-Reach, revoke-eq-ok, check_ticket-eq-ok, load_ticket-eq-ok,
}
use memory_server_worker.Routing.ConsentLedger.Refinement.Writes.{
  consent-eq-ok, revoke_bound-eq-ok, save-eq-ok, thrown_ok,
}
use memory_server_worker.Routing.ConsentLedger.Invariant.{
  IsConsentLedger, run-IsConsentLedger, Reach-IsConsentLedger, is_consent_positive,
}

bind_organization-same :
    (env : Env) (i : String) (s : Ledger) {t : Ledger}
    → bind_organization env i s ≡ ok t
    → (t.tickets ≡ s.tickets) × (t.current ≡ s.current)
unfolding bind_organization
bind_organization-same env i s h = (ground arith, ground arith)

-- The state that a ticket has to have.
abbrev Suits : Phase → State → Type 0
Suits dispatch state = state ≡ admitted
Suits disclose state = state ≡ accepted

phase_state-Suits : (phase : Phase) {state : State} → state ≡ phase_state phase → Suits phase state
phase_state-Suits dispatch h = h
phase_state-Suits disclose h = h

-- A ticket passes a check only if it is there, belongs to the actor, is `admitted` for dispatch and
-- `accepted` for disclosure, and has not expired, the caller's authority has not expired, and the current record of consent allows
-- the request under the identifier and the version that the ticket was issued with.
pub check_ticket_sound :
    (env : Env) (v : TicketInput) (s : Ledger) {r : Ticket × Ledger}
    → check_ticket env v s ≡ ok r
    → (row : TicketRow) × (ticket_at v.ticket_id s ≡ some row)
      × (ticket_bound row v.actor ≡ true)
      × Suits v.phase row.state
      × (env.now < row.expires_at_ms)
      × (env.now < v.authority_expires_at_ms)
      × (current : Consent.Consent) × (s.current ≡ some current)
      × Allows (context_of v.actor (some (reference_of row)) env.now (some current)) current
      × (row.consent_id ≡ current.id)
      × (row.consent_version ≡ current.version)
check_ticket_sound env v s h =
    let (b, bound, row, loaded, permit, permitted, same, timely, state) =
      check_ticket-eq-ok env v s h in
    let (tickets, current) = bind_organization-same env v.actor.organization_id s bound in
    let (found, belongs) = load_ticket-eq-ok v.ticket_id v.actor b loaded in
    let (r, stored, valid, allows, is, authority) =
      consent-eq-ok v.actor v.authority_expires_at_ms env.now (some (reference_of row)) b
        permitted in
    let (id, version) = allows.referred (reference_of row) refl in
    (
      row,
      rw tickets at found,
      belongs,
      phase_state-Suits v.phase state,
      timely,
      authority,
      r,
      sym current ∙ stored,
      allows,
      id,
      version,
    )

-- The ticket is there, and its version is past.
IsVoid : String → Ledger → Type 0
IsVoid id s =
    (row : TicketRow) × (ticket_at id s ≡ some row) × (row.consent_version < version_of s.current)

Step-IsVoid :
    {fresh : String} (id : String) {s s' : Ledger} → Step fresh s s' → IsVoid id s → IsVoid id s'
unfolding IsVoid
Step-IsVoid id (bind i e) w = rw e w
Step-IsVoid id (recording r actor action now valid version fits e) (row, found, past) =
    rw e (row, found, omega arith)
Step-IsVoid id (purging now e) w = rw e w
Step-IsVoid id (issuing row free same room e) w = rw e w
Step-IsVoid id {s} (admission t n e) (row, found, past) = elim (Bool-cases (t.id == id)) [
  | inl hit ↦ absurd (
      let key : t.id ≡ id = (string_eq.beq_iff t.id id).0 hit in
      let gone : ticket_at id s ≡ none = subst (λ k. ticket_at k s ≡ none) key n.fresh_id in cc)
  | inr miss ↦ (row, rw (e, miss) found, rw e past)
]
Step-IsVoid id (spending hash now e) w = rw e w
Step-IsVoid id {s} (outcome t state now at starts e) (row, found, past) = (
  (if row.id == t.id then with_state state now row else row),
  rw
      (
        e,
        find_row-update_rows (λ x. x.id == id) (λ x. x.id == t.id) (with_state state now)
            (λ x. refl) s.tickets,
        found,
      )
      refl,
  rw e (ground arith),
)

Reach-IsVoid :
    {fresh : String} (id : String) {s s' : Ledger} → Reach fresh s s' → IsVoid id s → IsVoid id s'
Reach-IsVoid id here w = w
Reach-IsVoid id (next r st) w = Step-IsVoid id st (Reach-IsVoid id r w)

run-IsVoid :
    (digest : String → String) (id : String) (s : Ledger) (cs : List (Env × Call))
    → IsVoid id s
    → IsVoid id (run digest s cs)
unfolding run
run-IsVoid digest id s [] w = w
run-IsVoid digest id s ((env, c) ∷ cs) w =
    run-IsVoid digest id (step digest s (env, c)) cs (Reach-IsVoid id (step-Reach digest s env c) w)

revoke_live-revoked :
    (previous : Consent.Consent) (v : RevokeInput) (now : ℕ) (s : Ledger)
    {r : Consent.Consent × Ledger}
    → revoke_live previous v now s ≡ ok r
    → (current : Consent.Consent) × (r.1.current ≡ some current)
      × (current.status ≡ revoked)
      × (is_consent current ≡ true)
      × (r.1.tickets ≡ s.tickets)
unfolding revoke_live
revoke_live-revoked previous v now s {r} h =
    let (again, revoking, rest) =
      >>=-eq-ok (thrown (revoke_consent (some previous) now v.expected_version)) _ h in
    let (expected, valid, dead, id, changed) =
      revoke_consent_sound previous now v.expected_version (thrown_ok _ revoking) in
    let saved : save again v.approved_by revokes now s ≡ ok r.1 = ground arith in
    let e = save-eq-ok again v.approved_by revokes now s saved in
    (again, rw e refl, dead, valid, rw e refl)

revoke_known-revoked :
    (previous : Consent.Consent) (v : RevokeInput) (now : ℕ) (s : Ledger)
    {r : Consent.Consent × Ledger}
    → s.current ≡ some previous
    → is_consent previous ≡ true
    → revoke_known previous v now s ≡ ok r
    → (current : Consent.Consent) × (r.1.current ≡ some current)
      × (current.status ≡ revoked)
      × (is_consent current ≡ true)
      × (r.1.tickets ≡ s.tickets)
unfolding revoke_known
revoke_known-revoked previous v now s {r} stored valid h =
    elim (Bool-cases (is_granted previous.status)) [
      | inl live ↦
          let run : revoke_live previous v now s ≡ ok r = ground arith in
          revoke_live-revoked previous v now s run
      | inr dead ↦
          let same : r.1 ≡ s = ground arith in
          (previous, rw same stored, ground arith, valid, ap (λ (x : Ledger). x.tickets) same)
    ]

voided :
    (s : Ledger) (current : Consent.Consent) (id : String) {row : TicketRow}
    → IsConsentLedger s
    → s.current ≡ some current
    → current.status ≡ revoked
    → is_consent current ≡ true
    → ticket_at id s ≡ some row
    → IsVoid id s
unfolding IsVoid
voided s current id {row} w stored dead valid found =
    let (le, hit) =
      find_row-All (λ t. t.consent_version ≤ live_version s) (λ t. t.id == id) s.tickets
        w.ticket_versions found in
    let positive = is_consent_positive current valid in
    let live : live_version s ≡ current.version - 1 = ground arith in
    (row, found, rw stored (omega arith))

revoke-IsVoid :
    (env : Env) (v : RevokeInput) (id : String) (s : Ledger) {row : TicketRow}
    {r : Consent.Consent × Ledger}
    → IsConsentLedger s
    → ticket_at id s ≡ some row
    → revoke env v s ≡ ok r
    → IsVoid id r.1
revoke-IsVoid env v id s {row = row} {r = r} w found h =
    let (b, bound, run) = revoke-eq-ok env v s h in
    let (previous, stored, valid, revoking) = revoke_bound-eq-ok v env.now b run in
    let (current, is, dead, fine, tickets) =
      revoke_known-revoked previous v env.now b stored valid revoking in
    let (kept, same) = bind_organization-same env v.organization_id s bound in
    voided r.1 current id {row = row} (Reach-IsConsentLedger (revoke-Reach "" env v s h) w) is dead
      fine (rw (tickets, kept) found)

void-check :
    (env : Env) (v : TicketInput) (s : Ledger) {r : Ticket × Ledger}
    → IsVoid v.ticket_id s
    → ¬ (check_ticket env v s ≡ ok r)
unfolding IsVoid
void-check env v s (row, found, past) h =
    let (row', found', belongs, state, timely, authority, current, stored, allows, id, version) =
      check_ticket_sound env v s h in
    let same : row ≡ row' = ground arith in
    let now : version_of s.current ≡ current.version = rw stored refl in
    absurd (omega (arith, ap (λ (t : TicketRow). t.consent_version) same))

-- A revocation voids every ticket that was issued before it: whatever calls follow, new grants
-- included, the ticket passes no check.
pub revoke_voids :
    (digest : String → String) (env later : Env) (v : RevokeInput) (v' : TicketInput)
    (before after : List (Env × Call)) {row : TicketRow} {r : Consent.Consent × Ledger}
    {r' : Ticket × Ledger}
    → ticket_at v'.ticket_id (run digest initial before) ≡ some row
    → revoke env v (run digest initial before) ≡ ok r
    → ¬ (check_ticket later v' (run digest r.1 after) ≡ ok r')
revoke_voids digest env later v v' before after {r = r} found h =
    void-check later v' (run digest r.1 after) (
      run-IsVoid digest v'.ticket_id r.1 after (
        revoke-IsVoid env v v'.ticket_id (run digest initial before)
          (run-IsConsentLedger digest before) found h))
