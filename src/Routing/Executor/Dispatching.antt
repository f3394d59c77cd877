-- ===== src/Routing/Executor/Dispatching.antt =====
-- The branch of the executor for `memory_ingest` and `memory_search`
-- (saas/src/routing/general-executor.ts): admission, reservation, the one call of the provider, the
-- outcome, and what is checked before an answer is given.
use Prim.Native.String.{◌++◌ as append}
use memory_server_worker.Prelude.{
  ℕ, ◌+◌, min, String, true, ◌||◌, Option, none, some, leb, ltb, ◌==◌, ◌!=◌, nat_eq, string_eq,
  length, take, if◌then◌else◌,
}
use memory_server_worker.Prelude.Actions.{Action, ◌>>=◌, ◌>>◌, return}
use memory_server_worker.Routing.Consent.{Operation, memory_ingest, memory_search}
use memory_server_worker.Routing.Budget.Inputs.{ReserveInput, Reservation}
use memory_server_worker.Routing.SpaceLedger.Rows.{
  State, admitted, accepted, read_failed, Identity, state_eq,
}
use memory_server_worker.Routing.SpaceLedger.Inputs.{
  AdmitInput, CheckInput, Phase, dispatch, disclose, Ticket,
}
use memory_server_worker.Routing.Executor.Encodings.{utf8_length}
use memory_server_worker.Routing.Executor.Requests.{
  IngestInput, SearchInput, Input, ingest_request, search_request, space_of, total_bytes,
}
use memory_server_worker.Routing.Executor.Ports.{
  Failure, Authority, Ports, clock_read, uuid_drawn, admits, checks, reserves, ingests, recalls,
  payload, budget_key, operation_key, Run, Config, perform, observe, assign, get, reject_when,
}
use memory_server_worker.Routing.Executor.Answers.{
  replay_body, ingest_body, search_body, Body, Answer, Externals, profile_name, slice, actor_of,
}
use memory_server_worker.Routing.Executor.Admission.{
  check, check_admission, admission_deadline, refresh, finalize,
}

-- An ingest or a search, and what is the same in both.
pub data Exchange : Type 0 where
  ingestion : IngestInput → Exchange
  question : SearchInput → Exchange

abbrev pub input_of : Exchange → Input
input_of (ingestion v) = ingest_request v
input_of (question v) = search_request v

abbrev pub operation_of : Exchange → Operation
operation_of (ingestion v) = memory_ingest
operation_of (question v) = memory_search

abbrev pub input_bytes_of : Exchange → ℕ
input_bytes_of (ingestion v) = total_bytes v.messages
input_bytes_of (question v) = utf8_length v.query

abbrev pub message_count_of : Exchange → ℕ
message_count_of (ingestion v) = length v.messages
message_count_of (question v) = 0

-- The state while the provider's answer is out.
abbrev pub pending_state : Exchange → State
pending_state (ingestion v) = State.unknown
pending_state (question v) = read_failed

abbrev pub or_twenty : Option ℕ → ℕ
or_twenty none = 20
or_twenty (some n) = n

-- An empty session id is falsy.
abbrev pub given_session : Option String → (fallback : String) → String
given_session none fallback = fallback
given_session (some id) fallback = if id == "" then fallback else id

module _ (x : Externals) where
  abbrev pub session_of : Exchange → (operation_id : String) → String
  session_of (ingestion v) operation_id =
      given_session v.session_id (append "op-" (slice 48 (x.digest (operation_key operation_id))))
  session_of (question v) operation_id =
      append "op-" (slice 48 (x.digest (operation_key operation_id)))

  abbrev pub admit_input :
      Exchange → (first : Authority) → Identity → (operation_id : String) → AdmitInput
  admit_input e first identity operation_id = record {
    identity = identity;
    actor = actor_of first;
    operation = operation_of e;
    operation_id = operation_id;
    payload_hash = x.digest (payload (input_of e));
    input_bytes = input_bytes_of e;
    message_count = message_count_of e;
    authority_expires_at_ms = first.authority_expires_at_ms;
  }

  abbrev pub reserve_input :
      Config
      → Exchange
      → (first : Authority) → (identity : Identity) → (ticket : Ticket) → ReserveInput
  reserve_input config e first identity ticket = record {
    budget_id = config.budget_id;
    reservation_id = x.digest (budget_key identity ticket.id);
    space_id = space_of (input_of e);
    operation = operation_of e;
    payload_hash = x.digest (payload (input_of e));
    input_bytes = input_bytes_of e;
    message_count = message_count_of e;
    authority_expires_at_ms = min first.authority_expires_at_ms ticket.expires_at_ms;
    policy = config.budget_policy;
  }

abbrev pub check_input : (first current : Authority) → Identity → Ticket → Phase → CheckInput
check_input first current identity ticket phase = record {
  identity = identity;
  actor = actor_of first;
  ticket_id = ticket.id;
  authority_expires_at_ms = current.authority_expires_at_ms;
  phase = phase;
}

abbrev pub replayed_state : State → State
replayed_state admitted = State.unknown
replayed_state state = state

module _ {ℓ} {S : Type ℓ} (x : Externals) (config : Config) (ports : Ports S) (token : String) where
  -- The answer to a request that was admitted before.
  unfoldable pub replay :
      Exchange
      → (first : Authority) → (operation_id : String) → Ticket
      → Action Failure (Run S) Answer
  replay e first operation_id ticket = do
    current ← refresh ports token (input_of e) first
    return (record {
      is_ok = ticket.state == accepted;
      body = replay_body operation_id (replayed_state ticket.state);
    })

  unfoldable pub reserve :
      Exchange → (first : Authority) → Identity → Ticket → Action Failure (Run S) Reservation
  reserve e first identity ticket = do
    let expires = first.authority_expires_at_ms
    check_admission config ports ticket expires
    let input = reserve_input x config e first identity ticket
    assign (λ l. record l { reservation_id = some input.reservation_id })
    check_admission config ports ticket expires
    assign (λ l. record l { budget_attempted = true })
    reservation ← perform (ports.reserve input) (reserves input)
    assign (λ l. record l { reservation = some reservation })
    check ports
    reject_when (reservation.replayed || reservation.reservation_id != input.reservation_id)
        "routing_budget_reservation_invalid"
    now ← observe ports.clock clock_read
    reject_when (leb reservation.expires_at_ms now) "routing_budget_reservation_invalid"
    check_admission config ports ticket expires
    return reservation

  -- The last checks before the provider is called, which give its deadline.
  unfoldable pub clear_to_dispatch :
      Exchange → (first : Authority) → Identity → Ticket → Action Failure (Run S) (Authority × ℕ)
  clear_to_dispatch e first identity ticket = do
    check_admission config ports ticket first.authority_expires_at_ms
    check_admission config ports ticket first.authority_expires_at_ms
    current ← refresh ports token (input_of e) first
    let expires = current.authority_expires_at_ms
    check_admission config ports ticket expires
    let input = check_input first current identity ticket dispatch
    perform (ports.check input) (checks input)
    check_admission config ports ticket expires
    locals ← get
    now ← observe ports.clock clock_read
    let deadline_ms = min (admission_deadline config ticket locals expires) (now + 15000)
    again ← observe ports.clock clock_read
    reject_when (leb deadline_ms again) "routing_authority_expired"
    return (current, deadline_ms)

  -- The call of the provider.
  unfoldable pub call_provider :
      Exchange → (operation_id profile : String) (deadline_ms : ℕ) → Action Failure (Run S) Body
  call_provider (ingestion v) operation_id profile deadline_ms = do
    let session = session_of x (ingestion v) operation_id
    perform (ports.ingest profile v.messages session deadline_ms)
        (ingests profile v.messages session deadline_ms)
    return (ingest_body operation_id session)
  call_provider (question v) operation_id profile deadline_ms = do
    found ← perform (ports.recall profile v.query deadline_ms) (recalls profile v.query deadline_ms)
    return (
        search_body operation_id found.answer (take (or_twenty v.limit) found.candidates)
          found.count)

  -- What follows the record of the outcome.
  unfoldable pub disclose_output :
      Exchange
      → (first current : Authority) → Identity
      → Ticket
      → Body
      → Action Failure (Run S) Answer
  disclose_output e first current identity ticket output = do
    check_admission config ports ticket current.authority_expires_at_ms
    reject_when (ltb 400000 (x.response_bytes output)) "routing_response_too_large"
    last ← refresh ports token (input_of e) first
    check_admission config ports ticket last.authority_expires_at_ms
    let input = check_input first last identity ticket disclose
    perform (ports.check input) (checks input)
    check_admission config ports ticket last.authority_expires_at_ms
    return (record { is_ok = true; body = output })

  unfoldable pub dispatch_ticket :
      Exchange
      → (first : Authority) → Identity
      → (operation_id : String) → Ticket
      → Action Failure (Run S) Answer
  dispatch_ticket e first identity operation_id ticket = do
    reservation ← reserve e first identity ticket
    cleared ← clear_to_dispatch e first identity ticket
    assign (λ l. record l { dispatched = true; terminal = pending_state e })
    let name = profile_name x identity ticket.generation
    output ← call_provider e operation_id name cleared.1
    assign (λ l. record l { terminal = accepted })
    finalize config ports
    disclose_output e first cleared.0 identity ticket output

  unfoldable pub exchange :
      Exchange
      → (first : Authority) → Identity
      → (operation_id : String) → Action Failure (Run S) Answer
  exchange e first identity operation_id = do
    assign (λ l. record l { operation_id = some operation_id })
    check ports
    let input = admit_input x e first identity operation_id
    ticket ← perform (ports.admit input) (admits input)
    assign (λ l. record l { ticket = some ticket })
    check ports
    if ticket.may_dispatch
        then dispatch_ticket e first identity operation_id ticket
        else replay e first operation_id ticket

  -- An ingest names its operation, a search draws a name.
  unfoldable pub handle_exchange :
      Exchange → (first : Authority) → Identity → Action Failure (Run S) Answer
  handle_exchange (ingestion v) first identity =
      exchange (ingestion v) first identity v.operation_id
  handle_exchange (question v) first identity = do
    id ← observe ports.random_uuid uuid_drawn
    exchange (question v) first identity id
