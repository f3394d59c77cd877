-- ===== src/Routing/ConsentLedger/Examples.antt =====
-- A consent ledger in use.
use memory_server_worker.Prelude.{
  ℕ, ◌<◌, String, true, false, none, some, List, [], ◌∷◌, ◌≡◌, refl, ok, err, Result,
}
use memory_server_worker.Routing.Schema.{is_identifier, is_payload_hash, is_receipt}
use memory_server_worker.Routing.Month.{month_at, iso_month}
use memory_server_worker.Routing.Consent
use memory_server_worker.Routing.Consent.{
  granted, all_spaces, storage, embedding, recall, memory_search, is_terms, is_consent, is_context,
  parse_consent, is_current, is_in_scope, refers_to, permit_of, assert_consent, revoked_record,
  revoke_consent, is_version,
}
use memory_server_worker.Routing.Consent.Permits.{Allows}
use memory_server_worker.Routing.ConsentLedger.Rows.{
  accepted, admitted, Ledger, initial, TicketRow, ticket_at, save, insert_receipt, insert_ticket,
}
use memory_server_worker.Routing.ConsentLedger.Inputs.{
  Env, GrantInput, RevokeInput, Actor, IssueInput, ConsumeInput, TicketInput, Ticket, dispatch,
  is_grant, is_revoke, is_actor, is_issue, is_consume, is_ticket, is_finalize,
}
use memory_server_worker.Routing.ConsentLedger.Exchanges.{
  has_too_many, issue, is_usable, find_receipt, same_operation, consume_new, consume_known,
  consume_valid, consume, load_ticket, finalize_row, finalize, check_ticket, ticket_bound,
  reference_of,
}
use memory_server_worker.Routing.ConsentLedger.Methods.{
  bind_organization, permitted, consent, grant_bound, grant, revoke_live, revoke_known,
  revoke_bound, revoke, context_of,
}
use memory_server_worker.Routing.ConsentLedger.History.{
  Call, grants, issues, consumes, revokes, step, run,
}
use memory_server_worker.Routing.ConsentLedger.Invariant.{IsConsentLedger, run-IsConsentLedger}
use memory_server_worker.Routing.ConsentLedger.Receipts.{consume_once}
use memory_server_worker.Routing.ConsentLedger.Tickets.{check_ticket_sound, revoke_voids}

abbrev hash : String
hash = "0123456789abcdef0123456789abcdef0123456789abcdef0123456789abcdef"

abbrev text : String
text = "abcdefghijklmnopqrstuvwxyzABCDEFGHIJKLMNO_-"

-- A text is its own hash.
abbrev same : String → String
same s = s

abbrev at : ℕ → Env
at now = record {
  object_name = some "organization:org";
  now = now;
  fresh_id = "id-1";
  fresh_receipt = text;
}

abbrev policy : GrantInput
policy = record {
  organization_id = "org";
  approved_by = "admin";
  expected_version = 0;
  grant = record {
    space_scope = all_spaces;
    scopes = storage ∷ embedding ∷ recall ∷ [];
    valid_from_ms = 0;
    expires_at_ms = none;
    evidence_ref = "contract-7";
  };
}

abbrev actor : Actor
actor = record {
  organization_id = "org";
  account_id = "account";
  credential_id = "credential";
  space_id = "space";
  operation = memory_search;
  request_id = "request";
}

abbrev wish : IssueInput
wish = record { actor = actor; authority_expires_at_ms = 90_000; reference = none }

abbrev use_receipt : ConsumeInput
use_receipt = record {
  actor = actor;
  authority_expires_at_ms = 90_000;
  receipt = text;
  reference = record { consent_id = "id-1"; version = 1 };
  payload_hash = hash;
  operation_id = "operation";
}

abbrev question : TicketInput
question = record {
  actor = actor;
  authority_expires_at_ms = 90_000;
  ticket_id = "id-1";
  phase = dispatch;
}

abbrev withdrawal : RevokeInput
withdrawal = record { organization_id = "org"; approved_by = "admin"; expected_version = 1 }

abbrev renewal : GrantInput
renewal = record policy { expected_version = 2 }

abbrev issued : List (Env × Call)
issued = (at 1000, grants policy) ∷ (at 2000, issues wish) ∷ []

abbrev admitted_calls : List (Env × Call)
admitted_calls =
    (at 1000, grants policy) ∷ (at 2000, issues wish) ∷ (at 3000, consumes use_receipt) ∷ []

abbrev revoked_calls : List (Env × Call)
revoked_calls =
    (at 1000, grants policy)
    ∷ (at 2000, issues wish)
    ∷ (at 3000, consumes use_receipt)
    ∷ (at 4000, revokes withdrawal)
    ∷ []

-- The value of a call that returned.
abbrev value_or {ℓ κ} : {E : Type ℓ} {A : Type κ} → A → Result E A → A
value_or a (ok b) = b
value_or a (err e) = a

abbrev issued_ledger : Ledger
issued_ledger = run same initial issued

abbrev no_ticket : Ticket
no_ticket = record {
  id = "";
  organization_id = "";
  account_id = "";
  credential_id = "";
  space_id = "";
  operation = memory_search;
  operation_id = "";
  request_id = "";
  state = accepted;
  consent_id = "";
  consent_version = 0;
  created_at_ms = 0;
  updated_at_ms = 0;
  expires_at_ms = 0;
  may_dispatch = false;
}

abbrev consumption : Ticket × Ledger
consumption = value_or (no_ticket, initial) (consume same (at 3000) use_receipt issued_ledger)

consume_first : consume same (at 3000) use_receipt issued_ledger ≡ ok consumption
unfolding is_identifier is_payload_hash is_receipt month_at iso_month is_terms is_consent is_context
    parse_consent is_current is_in_scope refers_to permit_of assert_consent revoked_record
    revoke_consent save insert_receipt insert_ticket is_grant is_revoke is_actor is_issue is_consume
    is_ticket is_finalize bind_organization permitted consent grant_bound grant revoke_live
    revoke_known revoke_bound revoke has_too_many issue is_usable find_receipt same_operation
    consume_new consume_known consume_valid consume load_ticket finalize_row finalize check_ticket
    step run
consume_first = refl

abbrev admitted_ledger : Ledger
admitted_ledger = run same initial admitted_calls

abbrev passed : Ticket × Ledger
passed = value_or (no_ticket, initial) (check_ticket (at 3500) question admitted_ledger)

check_first : check_ticket (at 3500) question admitted_ledger ≡ ok passed
unfolding is_identifier is_payload_hash is_receipt month_at iso_month is_terms is_consent is_context
    parse_consent is_current is_in_scope refers_to permit_of assert_consent revoked_record
    revoke_consent save insert_receipt insert_ticket is_grant is_revoke is_actor is_issue is_consume
    is_ticket is_finalize bind_organization permitted consent grant_bound grant revoke_live
    revoke_known revoke_bound revoke has_too_many issue is_usable find_receipt same_operation
    consume_new consume_known consume_valid consume load_ticket finalize_row finalize check_ticket
    step run
check_first = refl

abbrev ticket : TicketRow
ticket = record {
  id = "id-1";
  account_id = "account";
  credential_id = "credential";
  space_id = "space";
  operation = memory_search;
  operation_id = "operation";
  request_id = "request";
  payload_hash = hash;
  state = admitted;
  consent_id = "id-1";
  consent_version = 1;
  created_at_ms = 3000;
  updated_at_ms = 3000;
  expires_at_ms = 62_000;
  period = "1970-01";
}

ticket_first : ticket_at "id-1" admitted_ledger ≡ some ticket
unfolding is_identifier is_payload_hash is_receipt month_at iso_month is_terms is_consent is_context
    parse_consent is_current is_in_scope refers_to permit_of assert_consent revoked_record
    revoke_consent save insert_receipt insert_ticket is_grant is_revoke is_actor is_issue is_consume
    is_ticket is_finalize bind_organization permitted consent grant_bound grant revoke_live
    revoke_known revoke_bound revoke has_too_many issue is_usable find_receipt same_operation
    consume_new consume_known consume_valid consume load_ticket finalize_row finalize check_ticket
    step run
ticket_first = refl

abbrev agreement : Consent.Consent
agreement = record {
  id = "id-1";
  version = 1;
  organization_id = "org";
  space_scope = all_spaces;
  scopes = storage ∷ embedding ∷ recall ∷ [];
  valid_from_ms = 0;
  expires_at_ms = none;
  status = granted;
  approved_by = "admin";
  evidence_ref = "contract-7";
  revoked_at_ms = none;
}

abbrev withdrawn : Consent.Consent × Ledger
withdrawn = value_or (agreement, initial) (revoke (at 4000) withdrawal admitted_ledger)

revoke_first : revoke (at 4000) withdrawal admitted_ledger ≡ ok withdrawn
unfolding is_identifier is_payload_hash is_receipt month_at iso_month is_terms is_consent is_context
    parse_consent is_current is_in_scope refers_to permit_of assert_consent revoked_record
    revoke_consent save insert_receipt insert_ticket is_grant is_revoke is_actor is_issue is_consume
    is_ticket is_finalize bind_organization permitted consent grant_bound grant revoke_live
    revoke_known revoke_bound revoke has_too_many issue is_usable find_receipt same_operation
    consume_new consume_known consume_valid consume load_ticket finalize_row finalize check_ticket
    step run
revoke_first = refl

run-IsConsentLedger_example : IsConsentLedger (run same initial revoked_calls)
run-IsConsentLedger_example = run-IsConsentLedger same revoked_calls

consume_once_example :
    ¬ (consume same (at 4000) use_receipt (run same consumption.1 []) ≡ ok consumption)
consume_once_example =
    consume_once same (at 3000) (at 4000) use_receipt use_receipt issued_ledger [] consume_first
      refl tt

check_ticket_sound_example :
    (row : TicketRow) × (ticket_at "id-1" admitted_ledger ≡ some row)
    × (ticket_bound row actor ≡ true)
    × (row.state ≡ admitted)
    × (3500 < row.expires_at_ms)
    × (3500 < 90_000)
    × (current : Consent.Consent) × (admitted_ledger.current ≡ some current)
    × Allows (context_of actor (some (reference_of row)) 3500 (some current)) current
    × (row.consent_id ≡ current.id)
    × (row.consent_version ≡ current.version)
check_ticket_sound_example = check_ticket_sound (at 3500) question admitted_ledger check_first

revoke_voids_example : ¬ (
    check_ticket (at 5000) question (run same withdrawn.1 ((at 4500, grants renewal) ∷ []))
    ≡ ok passed)
revoke_voids_example =
    revoke_voids same (at 4000) (at 5000) withdrawal question admitted_calls
      ((at 4500, grants renewal) ∷ []) ticket_first revoke_first
