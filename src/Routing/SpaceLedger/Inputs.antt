-- ===== src/Routing/SpaceLedger/Inputs.antt =====
-- What the methods of `GeneralSpaceLedger` take and give (saas/src/routing/general-types.ts), with
-- the schemas that check it. `Env` holds what a call reads from outside: the name of the durable
-- object, the clock, and the identifier that `crypto.randomUUID` would give.
use memory_server_worker.Prelude.{
  ℕ, ◌*◌, String, Bool, true, false, ◌&&◌, Option, ltb, leb, ◌==◌, nat_eq,
}
use memory_server_worker.Routing.Schema.{is_identifier, is_payload_hash}
use memory_server_worker.Routing.Consent.{Operation, memory_ingest, memory_search}
use memory_server_worker.Routing.SpaceLedger.Rows.{
  Identity, State, admitted, RetirementState, pending,
}

pub record Env : Type 0 where
  pub object_name : Option String
  pub now : ℕ
  pub fresh_id : String

pub record Actor : Type 0 where
  pub account_id : String
  pub credential_id : String

pub record AdmitInput : Type 0 where
  pub identity : Identity
  pub actor : Actor
  pub operation : Operation
  pub operation_id : String
  pub payload_hash : String
  pub input_bytes : ℕ
  pub message_count : ℕ
  pub authority_expires_at_ms : ℕ

pub data Phase : Type 0 where
  dispatch disclose : Phase

pub record CheckInput : Type 0 where
  pub identity : Identity
  pub actor : Actor
  pub ticket_id : String
  pub authority_expires_at_ms : ℕ
  pub phase : Phase

pub record FinalizeInput : Type 0 where
  pub identity : Identity
  pub actor : Actor
  pub ticket_id : String
  pub state : State

pub record RetireInput : Type 0 where
  pub identity : Identity
  pub actor : Actor
  pub operation_id : String
  pub payload_hash : String
  pub authority_expires_at_ms : ℕ

pub record PendingInput : Type 0 where
  pub identity : Identity
  pub limit : ℕ

pub record FinishInput : Type 0 where
  pub identity : Identity
  pub retirement_id : String
  pub state : RetirementState

pub record Ticket : Type 0 where
  pub id : String
  pub operation_id : String
  pub operation : Operation
  pub generation : ℕ
  pub state : State
  pub created_at_ms : ℕ
  pub expires_at_ms : ℕ
  pub may_dispatch : Bool

pub record Retirement : Type 0 where
  pub id : String
  pub generation : ℕ
  pub next_generation : ℕ
  pub created_at_ms : ℕ
  pub state : RetirementState
  pub may_dispatch : Bool

pub record Usage : Type 0 where
  pub month : String
  pub generation : ℕ
  pub admissions : ℕ
  pub ingest_requests : ℕ
  pub input_bytes : ℕ
  pub messages : ℕ
  pub search_requests : ℕ
  pub query_bytes : ℕ
  pub accepted : ℕ
  pub unknown : ℕ
  pub read_failed : ℕ
  pub not_dispatched : ℕ
  pub clear_requests : ℕ
  pub pending_retirements : ℕ

-- The years up to 9999, less a minute.
abbrev pub is_timestamp : ℕ → Bool
is_timestamp n = leb n 253_402_300_739_999

unfoldable pub is_identity : Identity → Bool
is_identity i =
    is_identifier i.space_id
    && is_identifier i.owner_id
    && is_identifier i.provider_account_id
    && is_identifier i.provider_namespace

unfoldable pub is_actor : Actor → Bool
is_actor a = is_identifier a.account_id && is_identifier a.credential_id

-- A search has no messages, an ingest has some.
abbrev pub fits_operation : Operation → ℕ → Bool
fits_operation memory_search messages = messages == 0
fits_operation memory_ingest messages = ltb 0 messages

-- admitSchema
unfoldable pub is_admit : AdmitInput → Bool
is_admit v =
    is_identity v.identity
    && is_actor v.actor
    && is_identifier v.operation_id
    && is_payload_hash v.payload_hash
    && is_timestamp v.authority_expires_at_ms
    && leb v.input_bytes (2 * 1024 * 1024)
    && leb v.message_count 500
    && fits_operation v.operation v.message_count

-- retireSchema
unfoldable pub is_retire : RetireInput → Bool
is_retire v =
    is_identity v.identity
    && is_actor v.actor
    && is_identifier v.operation_id
    && is_payload_hash v.payload_hash
    && is_timestamp v.authority_expires_at_ms

-- checkSchema
unfoldable pub is_check : CheckInput → Bool
is_check v =
    is_identity v.identity
    && is_actor v.actor
    && is_identifier v.ticket_id
    && is_timestamp v.authority_expires_at_ms

-- stateSchema has every state but `admitted`.
abbrev pub is_final : State → Bool
is_final admitted = false
is_final _ = true

-- finalizeSchema
unfoldable pub is_finalize : FinalizeInput → Bool
is_finalize v =
    is_identity v.identity && is_actor v.actor && is_identifier v.ticket_id && is_final v.state

-- pendingSchema
unfoldable pub is_pending_input : PendingInput → Bool
is_pending_input v = is_identity v.identity && leb 1 v.limit && leb v.limit 100

abbrev pub is_outcome : RetirementState → Bool
is_outcome pending = false
is_outcome _ = true

-- finishRetirementSchema
unfoldable pub is_finish : FinishInput → Bool
is_finish v = is_identity v.identity && is_identifier v.retirement_id && is_outcome v.state
