-- ===== src/Routing/Executor/Ports.antt =====
-- What the executor calls, over a state S of the world, and what a run keeps: the variables of the
-- closure, and a log of its calls with what each gave. A call that throws may change the world too.
-- The input of a ledger's call names its Space, so that picking the ledger of a Space is no call of
-- its own; the signal that the provider is given is part of the world.
use memory_server_worker.Prelude.{
  ℕ, String, Bool, true, false, ◌&&◌, Option, none, some, List, [], ◌∷◌, leb, length, all_rows,
  unique, Result, ok, nat_eq, string_eq, ◌==◌, ◌||◌,
}
use memory_server_worker.Prelude.Actions.{Action, throw_if}
use memory_server_worker.Routing.Schema.{codes, is_identifier}
use memory_server_worker.Routing.Budget.Inputs.{
  Policy, ReserveInput, Reservation, FinalizeInput as Settlement, is_policy,
}
use memory_server_worker.Routing.SpaceLedger.Rows.{State, not_dispatched, OwnerKind, Identity}
use memory_server_worker.Routing.SpaceLedger.Inputs.{
  AdmitInput, CheckInput, FinalizeInput, RetireInput, PendingInput, FinishInput, Ticket, Retirement,
  Usage,
}
use memory_server_worker.Routing.Executor.Requests.{Kind, Message, Input}

-- The code of a thrown error, or else its message; `none` where that is no string.
abbrev pub Failure : Type 0
Failure = Option String

-- GeneralAuthority
pub record Authority : Type 0 where
  pub space_id : String
  pub owner_kind : OwnerKind
  pub owner_id : String
  pub account_id : String
  pub credential_id : String
  pub operation : Kind
  pub authority_expires_at_ms : ℕ

-- A candidate of the provider is given as its JSON text.
pub record Recall : Type 0 where
  pub count : ℕ
  pub answer : String
  pub candidates : List String

pub record Ports {ℓ} (S : Type ℓ) : Type ℓ where
  pub clock : S → ℕ × S
  pub aborted : S → Bool × S
  pub random_uuid : S → String × S
  pub authority : (token space_id : String) → Kind → Action Failure S Authority
  pub admit : AdmitInput → Action Failure S Ticket
  pub check : CheckInput → Action Failure S (Unit {0})
  pub finalize : FinalizeInput → Action Failure S (Unit {0})
  pub retire : RetireInput → Action Failure S Retirement
  pub pending : PendingInput → Action Failure S (List Retirement)
  pub finish_retirement : FinishInput → Action Failure S (Unit {0})
  pub usage : Identity → Action Failure S Usage
  pub reserve : ReserveInput → Action Failure S Reservation
  pub settle : Settlement → Action Failure S (Unit {0})
  pub ingest :
      (profile : String)
      → List Message
      → (session : String) (deadline_ms : ℕ) → Action Failure S (Unit {0})
  pub recall : (profile query : String) (deadline_ms : ℕ) → Action Failure S Recall
  pub delete_profile : (profile : String) (deadline_ms : ℕ) → Action Failure S (Unit {0})

pub data Event : Type 0 where
  clock_read : ℕ → Event
  signal_read : Bool → Event
  uuid_drawn : String → Event
  authority_asked : (token space_id : String) → Kind → Result Failure Authority → Event
  admits : AdmitInput → Result Failure Ticket → Event
  checks : CheckInput → Result Failure (Unit {0}) → Event
  finalizes : FinalizeInput → Result Failure (Unit {0}) → Event
  retires : RetireInput → Result Failure Retirement → Event
  lists : PendingInput → Result Failure (List Retirement) → Event
  finishes : FinishInput → Result Failure (Unit {0}) → Event
  reports : Identity → Result Failure Usage → Event
  reserves : ReserveInput → Result Failure Reservation → Event
  settles : Settlement → Result Failure (Unit {0}) → Event
  ingests :
      (profile : String)
      → List Message
      → (session : String) (deadline_ms : ℕ) → Result Failure (Unit {0})
      → Event
  recalls : (profile query : String) (deadline_ms : ℕ) → Result Failure Recall → Event
  deletes : (profile : String) (deadline_ms : ℕ) → Result Failure (Unit {0}) → Event

-- What is hashed, always as its canonical JSON but for the operation id.
pub data Hashed : Type 0 where
  payload : Input → Hashed
  profile : Identity → (generation : ℕ) → Hashed
  budget_key : Identity → (ticket_id : String) → Hashed
  operation_key : String → Hashed

-- The variables that the `catch` of the executor reads.
pub record Locals : Type 0 where
  pub first : Option Authority
  pub identity : Option Identity
  pub ticket : Option Ticket
  pub reservation_id : Option String
  pub budget_attempted : Bool
  pub reservation : Option Reservation
  pub retirement : Option Retirement
  pub acknowledged : Bool
  pub cleanup_pending : Bool
  pub dispatched : Bool
  pub recorded : Bool
  pub terminal : State
  pub operation_id : Option String

abbrev pub no_locals : Locals
no_locals = record {
  first = none;
  identity = none;
  ticket = none;
  reservation_id = none;
  budget_attempted = false;
  reservation = none;
  retirement = none;
  acknowledged = false;
  cleanup_pending = true;
  dispatched = false;
  recorded = false;
  terminal = not_dispatched;
  operation_id = none;
}

-- The newest event comes first.
pub record Run {ℓ} (S : Type ℓ) : Type ℓ where
  pub world : S
  pub locals : Locals
  pub log : List Event

abbrev pub start {ℓ} : {S : Type ℓ} → S → Run S
start s = record { world = s; locals = no_locals; log = [] }

-- What `createGeneralExecutor` is given.
pub record Config : Type 0 where
  pub allowed_space_ids : List String
  pub seoul_space_ids : List String
  pub provider_account_id : String
  pub provider_namespace : String
  pub budget_id : String
  pub budget_policy : Policy

is_account_digit : ℕ → Bool
is_account_digit c = leb b'0' c && leb c b'9' || leb b'a' c && leb c b'f'

is_namespace_part : ℕ → Bool
is_namespace_part c =
    leb b'0' c && leb c b'9'
    || (leb b'A' c && leb c b'Z' || (leb b'a' c && leb c b'z' || (c == b'_' || c == b'-')))

abbrev are_spaces : List String → Bool
are_spaces ids = all_rows is_identifier ids && leb (length ids) 1024 && unique ids

unfoldable pub is_config : Config → Bool
unfolding is_account_digit is_namespace_part
is_config c =
    are_spaces c.allowed_space_ids
    && are_spaces c.seoul_space_ids
    && length (codes c.provider_account_id) == 32
    && all_rows is_account_digit (codes c.provider_account_id)
    && leb 1 (length (codes c.provider_namespace))
    && leb (length (codes c.provider_namespace)) 32
    && all_rows is_namespace_part (codes c.provider_namespace)
    && is_identifier c.budget_id
    && is_policy c.budget_policy

module _ {ℓ} {S : Type ℓ} where
  -- A call of the world, and its event.
  unfoldable pub perform {κ} :
      {A : Type κ} → Action Failure S A → (Result Failure A → Event) → Action Failure (Run S) A
  perform port event r =
      let (result, world) = port r.world in
      (result, record r { world = world; log = event result ∷ r.log })

  -- A call that does not throw.
  unfoldable pub observe {κ} : {A : Type κ} → (S → A × S) → (A → Event) → Action Failure (Run S) A
  observe port event r =
      let (value, world) = port r.world in
      (ok value, record r { world = world; log = event value ∷ r.log })

  unfoldable pub assign : (Locals → Locals) → Action Failure (Run S) (Unit {0})
  assign change r = (ok tt, record r { locals = change r.locals })

  unfoldable pub get : Action Failure (Run S) Locals
  get r = (ok r.locals, r)

abbrev pub reject_when {ℓ} : {S : Type ℓ} → Bool → String → Action Failure S (Unit {0})
reject_when bad code = throw_if bad (some code)
