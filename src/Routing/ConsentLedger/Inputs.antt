-- ===== src/Routing/ConsentLedger/Inputs.antt =====
-- What the methods of `ConsentLedger` take and give (saas/src/routing/ledger-types.ts), with the
-- schemas that check it (saas/src/routing/ledger.ts). `Env` holds what a call reads from outside:
-- the name of the durable object, the clock, the identifier that `crypto.randomUUID` would give,
-- and the text that `randomReceipt` would.
use memory_server_worker.Prelude.{ℕ, ◌-◌, String, Bool, ◌&&◌, Option, List, leb, ◌!=◌, nat_eq}
use memory_server_worker.Routing.Schema.{
  is_identifier, is_payload_hash, is_receipt, max_safe_integer, max_timestamp,
}
use memory_server_worker.Routing.Consent
use memory_server_worker.Routing.Consent.{
  Operation, Scope, SpaceScope, Reference, is_space_scope, is_scopes, is_reference, optional,
}
use memory_server_worker.Routing.ConsentLedger.Rows.{State, admitted, state_eq}

pub record Env : Type 0 where
  pub object_name : Option String
  pub now : ℕ
  pub fresh_id : String
  pub fresh_receipt : String

pub record Grant : Type 0 where
  pub space_scope : SpaceScope
  pub scopes : List Scope
  pub valid_from_ms : ℕ
  pub expires_at_ms : Option ℕ
  pub evidence_ref : String

pub record GrantInput : Type 0 where
  pub organization_id : String
  pub approved_by : String
  pub expected_version : ℕ
  pub grant : Grant

pub record RevokeInput : Type 0 where
  pub organization_id : String
  pub approved_by : String
  pub expected_version : ℕ

pub record Actor : Type 0 where
  pub organization_id : String
  pub account_id : String
  pub credential_id : String
  pub space_id : String
  pub operation : Operation
  pub request_id : String

pub record IssueInput : Type 0 where
  pub actor : Actor
  pub authority_expires_at_ms : ℕ
  pub reference : Option Reference

pub record ConsumeInput : Type 0 where
  pub actor : Actor
  pub authority_expires_at_ms : ℕ
  pub receipt : String
  pub reference : Reference
  pub payload_hash : String
  pub operation_id : String

pub record FinalizeInput : Type 0 where
  pub actor : Actor
  pub ticket_id : String
  pub state : State

pub data Phase : Type 0 where
  dispatch disclose : Phase

pub record TicketInput : Type 0 where
  pub actor : Actor
  pub authority_expires_at_ms : ℕ
  pub ticket_id : String
  pub phase : Phase

pub record Receipt : Type 0 where
  pub request_id : String
  pub space_id : String
  pub consent_id : String
  pub consent_version : ℕ
  pub operation : Operation
  pub expires_at_ms : ℕ
  pub receipt : String

pub record Ticket : Type 0 where
  pub id : String
  pub organization_id : String
  pub account_id : String
  pub credential_id : String
  pub space_id : String
  pub operation : Operation
  pub operation_id : String
  pub request_id : String
  pub state : State
  pub consent_id : String
  pub consent_version : ℕ
  pub created_at_ms : ℕ
  pub updated_at_ms : ℕ
  pub expires_at_ms : ℕ
  pub may_dispatch : Bool

abbrev pub is_timestamp : ℕ → Bool
is_timestamp n = leb n (max_timestamp - 60_000)

abbrev pub is_expected_version : ℕ → Bool
is_expected_version n = leb n (max_safe_integer - 1)

unfoldable pub is_grant : GrantInput → Bool
is_grant v =
    is_identifier v.organization_id
    && is_identifier v.approved_by
    && is_expected_version v.expected_version
    && is_space_scope v.grant.space_scope
    && is_scopes v.grant.scopes
    && Consent.is_timestamp v.grant.valid_from_ms
    && optional Consent.is_timestamp v.grant.expires_at_ms
    && is_identifier v.grant.evidence_ref

unfoldable pub is_revoke : RevokeInput → Bool
is_revoke v =
    is_identifier v.organization_id
    && is_identifier v.approved_by
    && is_expected_version v.expected_version

unfoldable pub is_actor : Actor → Bool
is_actor a =
    is_identifier a.organization_id
    && is_identifier a.account_id
    && is_identifier a.credential_id
    && is_identifier a.space_id
    && is_identifier a.request_id

unfoldable pub is_issue : IssueInput → Bool
is_issue v =
    is_actor v.actor && is_timestamp v.authority_expires_at_ms && optional is_reference v.reference

unfoldable pub is_consume : ConsumeInput → Bool
is_consume v =
    is_actor v.actor
    && is_timestamp v.authority_expires_at_ms
    && is_receipt v.receipt
    && is_reference v.reference
    && is_payload_hash v.payload_hash
    && is_identifier v.operation_id

unfoldable pub is_finalize : FinalizeInput → Bool
is_finalize v = is_actor v.actor && is_identifier v.ticket_id && v.state != admitted

unfoldable pub is_ticket : TicketInput → Bool
is_ticket v =
    is_actor v.actor && is_timestamp v.authority_expires_at_ms && is_identifier v.ticket_id
