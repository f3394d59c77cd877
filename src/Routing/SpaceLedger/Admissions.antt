-- ===== src/Routing/SpaceLedger/Admissions.antt =====
-- The methods of `GeneralSpaceLedger` (saas/src/routing/general-ledger.ts). Each runs in one
-- transaction over the ledger. A method that returns nothing gives the ledger alone.
use Prim.Native.String.{◌++◌ as append}
use memory_server_worker.Prelude.{
  ℕ, ◌+◌, min, String, Bool, true, false, not, ◌&&◌, ◌||◌, Option, none, some, leb, ◌==◌, ◌!=◌,
  nat_eq, string_eq, length, count_rows, Result, ok, err, reject_if, ◌>>=◌, ◌>>◌, if◌then◌else◌,
}
use memory_server_worker.Routing.Month.{iso_month}
use memory_server_worker.Routing.Consent.{memory_ingest, memory_search, operation_eq, is_some}
use memory_server_worker.Routing.SpaceLedger.Rows.{
  State, admitted, accepted, read_failed, Code, Error, rejected, input_invalid, identity_mismatch,
  authority_expired, operation_conflict, ticket_unavailable, transition_invalid, capacity_exceeded,
  Identity, OperationRow, RetirementRow, Ledger, state_eq, retirement_eq, owner_eq, operation_by,
  operation_at, retirement_by, insert_operation, update_operation,
}
use memory_server_worker.Routing.SpaceLedger.Inputs.{
  Env, Actor, AdmitInput, CheckInput, Phase, dispatch, disclose, FinalizeInput, Ticket, Retirement,
  is_timestamp, is_admit, is_check, is_finalize,
}

abbrev pub reject_when : Bool → Code → Result Error (Unit {0})
reject_when bad code = reject_if bad (rejected code)

-- `this.clock()`
abbrev pub clock : Env → Result Error ℕ
clock env = if is_timestamp env.now then ok env.now else err (rejected input_invalid)

-- `this.authority(expires, now)`
abbrev pub authority : ℕ → ℕ → Result Error (Unit {0})
authority expires now = reject_when (leb expires now) authority_expired

abbrev pub wrong_object : Option String → String → Bool
wrong_object none space_id = false
wrong_object (some name) space_id = name != append "space:" space_id

unfoldable pub same_identity : Identity → Identity → Bool
same_identity a b =
    a.space_id == b.space_id
    && a.owner_kind == b.owner_kind
    && a.owner_id == b.owner_id
    && a.provider_account_id == b.provider_account_id
    && a.provider_namespace == b.provider_namespace

abbrev pub or_else {ℓ} : {A : Type ℓ} → Option A → A → A
or_else none a = a
or_else (some b) a = b

-- `this.bind(identity)`: the first call binds the object, later ones have to fit.
unfoldable pub bind_identity : Env → Identity → Ledger → Result Error (ℕ × Ledger)
bind_identity env identity s = do
  reject_when (wrong_object env.object_name identity.space_id) identity_mismatch
  let bound = or_else s.identity identity
  reject_when (not (same_identity bound identity)) identity_mismatch
  let generation = or_else s.generation 1
  ok (generation, record s { identity = some bound; generation = some generation })

abbrev pub same_actor : (account_id credential_id : String) → Actor → Bool
same_actor account_id credential_id actor =
    account_id == actor.account_id && credential_id == actor.credential_id

abbrev pub ticket : OperationRow → Bool → Ticket
ticket row may_dispatch = record {
  id = row.id;
  operation_id = row.operation_id;
  operation = row.operation;
  generation = row.generation;
  state = row.state;
  created_at_ms = row.created_at_ms;
  expires_at_ms = row.expires_at_ms;
  may_dispatch = may_dispatch;
}

abbrev pub retired : RetirementRow → Bool → Retirement
retired row may_dispatch = record {
  id = row.id;
  generation = row.generation;
  next_generation = row.next_generation;
  created_at_ms = row.created_at_ms;
  state = row.state;
  may_dispatch = may_dispatch;
}

-- A replay of an admission has the same actor, operation, payload and usage.
unfoldable pub is_replay : OperationRow → AdmitInput → Bool
is_replay row v =
    same_actor row.account_id row.credential_id v.actor
    && row.operation == v.operation
    && row.payload_hash == v.payload_hash
    && row.input_bytes == v.input_bytes
    && row.message_count == v.message_count

unfoldable pub is_full : AdmitInput → String → Ledger → Bool
is_full v month s =
    leb 100_000 (length s.operations)
    || (leb 10_000 (count_rows (λ o. o.period == month) s.operations)
        || (v.operation == memory_ingest && leb 1000 (length s.retirements)))

abbrev pub new_operation : Env → AdmitInput → ℕ → OperationRow
new_operation env v generation = record {
  id = env.fresh_id;
  account_id = v.actor.account_id;
  credential_id = v.actor.credential_id;
  operation = v.operation;
  operation_id = v.operation_id;
  payload_hash = v.payload_hash;
  generation = generation;
  state = admitted;
  created_at_ms = env.now;
  updated_at_ms = env.now;
  expires_at_ms = min (env.now + 60000) v.authority_expires_at_ms;
  period = iso_month env.now;
  input_bytes = v.input_bytes;
  message_count = v.message_count;
}

unfoldable pub admit_new : Env → AdmitInput → ℕ → Ledger → Result Error (Ticket × Ledger)
admit_new env v generation s = do
  reject_when (is_full v (iso_month env.now) s) capacity_exceeded
  s' ← insert_operation (new_operation env v generation) s
  ok (ticket (new_operation env v generation) true, s')

unfoldable pub admit_known : OperationRow → AdmitInput → Ledger → Result Error (Ticket × Ledger)
admit_known row v s = do
  reject_when (not (is_replay row v)) operation_conflict
  ok (ticket row false, s)

-- The part of `admit` behind `bind`.
unfoldable pub admit_bound : Env → AdmitInput → ℕ → Ledger → Result Error (Ticket × Ledger)
admit_bound env v generation s = do
  reject_when (is_some (retirement_by v.operation_id s)) operation_conflict
  elim (operation_by v.operation_id s) [
    | none ↦ admit_new env v generation s
    | some row ↦ admit_known row v s
  ]

unfoldable pub admit : Env → AdmitInput → Ledger → Result Error (Ticket × Ledger)
admit env v s = do
  reject_when (not (is_admit v)) input_invalid
  now ← clock env
  authority v.authority_expires_at_ms now
  bound ← bind_identity env v.identity s
  admit_bound env v bound.0 bound.1

-- `this.loadTicket(id, actor)`
unfoldable pub load_ticket : String → Actor → Ledger → Result Error OperationRow
load_ticket id actor s = elim (operation_at id s) [
  | none ↦ err (rejected ticket_unavailable)
  | some row ↦
      if same_actor row.account_id row.credential_id actor
      then ok row
      else err (rejected ticket_unavailable)
]

abbrev pub phase_state : Phase → State
phase_state dispatch = admitted
phase_state disclose = accepted

unfoldable pub check : Env → CheckInput → Ledger → Result Error Ledger
check env v s = do
  reject_when (not (is_check v)) input_invalid
  now ← clock env
  authority v.authority_expires_at_ms now
  bound ← bind_identity env v.identity s
  row ← load_ticket v.ticket_id v.actor bound.1
  reject_when
      (row.generation != bound.0 || (leb row.expires_at_ms now || row.state != phase_state v.phase))
      ticket_unavailable
  ok bound.1

-- The part of `finalize` behind `loadTicket`.
unfoldable pub finalize_row : OperationRow → State → ℕ → Ledger → Result Error Ledger
finalize_row row state now s = do
  reject_when (state == read_failed && row.operation != memory_search) transition_invalid
  if row.state == state then ok s else (do
    reject_when (row.state != admitted) transition_invalid
    update_operation row.id state now s)

unfoldable pub finalize : Env → FinalizeInput → Ledger → Result Error Ledger
finalize env v s = do
  reject_when (not (is_finalize v)) input_invalid
  bound ← bind_identity env v.identity s
  now ← clock env
  row ← load_ticket v.ticket_id v.actor bound.1
  finalize_row row v.state now bound.1
