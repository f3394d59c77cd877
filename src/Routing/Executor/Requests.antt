-- ===== src/Routing/Executor/Requests.antt =====
-- The requests that the executor takes (saas/src/routing/general-executor.ts), with the schemas of
-- saas/src/routing/client.ts.
use memory_server_worker.Prelude.{
  ℕ, ◌+◌, ◌*◌, String, Bool, true, false, ◌&&◌, Option, List, [], ◌∷◌, leb, ◌==◌, Eq, enum_eq,
  nat_eq, string_eq, length, all_rows, ◌≡◌, ◌↔◌, arith,
}
use memory_server_worker.Routing.Schema.{is_identifier}
use memory_server_worker.Routing.Executor.Encodings.{
  utf8_length, utf16_length, is_wire_time, is_session,
}
use memory_server_worker.Routing.Consent
use memory_server_worker.Routing.Consent.{Operation, memory_ingest, memory_search}
use memory_server_worker.Routing.Policy.{Decision, is_decision}

pub data Kind : Type 0 where
  billable : Operation → Kind
  memory_clear_space memory_usage : Kind

abbrev pub kind_rank : Kind → ℕ
kind_rank (billable memory_ingest) = 0
kind_rank (billable memory_search) = 1
kind_rank memory_clear_space = 2
kind_rank memory_usage = 3

pub kind_rank_iff : (a b : Kind) → ((kind_rank a == kind_rank b) ≡ true) ↔ (a ≡ b)
kind_rank_iff a b = ground arith

instance abbrev pub kind_eq : Eq Kind
kind_eq = enum_eq kind_rank kind_rank_iff

pub data Role : Type 0 where
  system user assistant : Role

pub data SearchMode : Type 0 where
  keyword semantic : SearchMode

pub record Message : Type 0 where
  pub role : Role
  pub content : String
  pub timestamp : Option String

pub record IngestInput : Type 0 where
  pub routing : Decision
  pub space_id : String
  pub operation_id : String
  pub messages : List Message
  pub session_id : Option String

pub record SearchInput : Type 0 where
  pub routing : Decision
  pub space_id : String
  pub query : String
  pub limit : Option ℕ
  pub mode : Option SearchMode

-- `scope` has one value.
pub record ClearInput : Type 0 where
  pub routing : Decision
  pub space_id : String
  pub operation_id : String

pub record UsageInput : Type 0 where
  pub routing : Decision
  pub space_id : String

-- An operation with its arguments.
pub data Input : Type 0 where
  ingest_request : IngestInput → Input
  search_request : SearchInput → Input
  clear_request : ClearInput → Input
  usage_request : UsageInput → Input

abbrev pub kind_of : Input → Kind
kind_of (ingest_request v) = billable memory_ingest
kind_of (search_request v) = billable memory_search
kind_of (clear_request v) = memory_clear_space
kind_of (usage_request v) = memory_usage

abbrev pub routing_of : Input → Decision
routing_of (ingest_request v) = v.routing
routing_of (search_request v) = v.routing
routing_of (clear_request v) = v.routing
routing_of (usage_request v) = v.routing

abbrev pub space_of : Input → String
space_of (ingest_request v) = v.space_id
space_of (search_request v) = v.space_id
space_of (clear_request v) = v.space_id
space_of (usage_request v) = v.space_id

abbrev pub has_mode : Input → Bool
has_mode (search_request v) = Consent.is_some v.mode
has_mode _ = false

content_bytes : List Message → ℕ
content_bytes [] = 0
content_bytes (m ∷ ms) = utf8_length m.content + content_bytes ms

-- `messages.reduce((n, m) => n + utf8.encode(m.content).length, 0)`
unfoldable pub total_bytes : List Message → ℕ
unfolding content_bytes
total_bytes ms = content_bytes ms

-- `is_datetime` stands for `z.iso.datetime({ offset: true })`.
module _ (is_datetime : String → Bool) where
  -- timestampSchema
  unfoldable pub is_timestamp : String → Bool
  is_timestamp s = is_datetime s && leb (utf16_length s) 40 && is_wire_time s

  -- messageSchema
  unfoldable pub is_message : Message → Bool
  is_message m = leb (utf8_length m.content) 32768 && Consent.optional is_timestamp m.timestamp

  -- ingestRoutingInputSchema, with the `spaceId` of the executor
  unfoldable pub is_ingest : IngestInput → Bool
  is_ingest v =
      is_decision v.routing
      && is_identifier v.operation_id
      && leb 1 (length v.messages)
      && leb (length v.messages) 500
      && all_rows is_message v.messages
      && leb (total_bytes v.messages) (1024 * 1024)
      && Consent.optional is_session v.session_id
      && is_identifier v.space_id

  -- searchRoutingInputSchema
  unfoldable pub is_search : SearchInput → Bool
  is_search v =
      is_decision v.routing
      && leb 1 (utf16_length v.query)
      && leb (utf8_length v.query) 1024
      && Consent.optional (λ n. leb 1 n && leb n 50) v.limit
      && is_identifier v.space_id

  -- requestSchema
  unfoldable pub is_request : Input → Bool
  is_request (ingest_request v) = is_ingest v
  is_request (search_request v) = is_search v
  is_request (clear_request v) =
      is_decision v.routing && is_identifier v.operation_id && is_identifier v.space_id
  is_request (usage_request v) = is_decision v.routing && is_identifier v.space_id
