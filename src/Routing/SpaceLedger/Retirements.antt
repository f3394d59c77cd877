-- ===== src/Routing/SpaceLedger/Retirements.antt =====
-- The methods of `GeneralSpaceLedger` that hide a generation of memories, and the report of usage
-- (saas/src/routing/general-ledger.ts).
use memory_server_worker.Prelude.{
  ℕ, ◌+◌, ◌-◌, String, Bool, true, false, not, ◌&&◌, ◌||◌, Option, none, some, List, [], ◌∷◌, ◌++◌,
  map, ltb, leb, ◌==◌, ◌!=◌, nat_eq, string_eq, length, count_rows, sum_rows, select_rows, take,
  order_by, Result, ok, err, ◌>>=◌, ◌>>◌, if◌then◌else◌,
}
use memory_server_worker.Routing.Schema.{max_safe_integer}
use memory_server_worker.Routing.Month.{iso_month}
use memory_server_worker.Routing.Consent.{
  Operation, memory_ingest, memory_search, operation_eq, is_some,
}
use memory_server_worker.Routing.SpaceLedger.Rows.{
  State, admitted, accepted, read_failed, not_dispatched, RetirementState, pending, acknowledged,
  Error, rejected, input_invalid, operation_conflict, transition_invalid, capacity_exceeded,
  retirement_unavailable, retirement_inflight, Identity, OperationRow, RetirementRow, Ledger,
  state_eq, retirement_eq, operation_by, retirement_by, retirement_at, insert_retirement,
  update_retirement, update_cursor, bump_generation,
}
use memory_server_worker.Routing.SpaceLedger.Inputs.{
  Env, RetireInput, PendingInput, FinishInput, Retirement, Usage, is_identity, is_retire,
  is_pending_input, is_finish,
}
use memory_server_worker.Routing.SpaceLedger.Admissions.{
  reject_when, clock, authority, bind_identity, same_actor, retired, or_else,
}

abbrev pub new_retirement : Env → RetireInput → ℕ → RetirementRow
new_retirement env v generation = record {
  id = env.fresh_id;
  account_id = v.actor.account_id;
  credential_id = v.actor.credential_id;
  operation_id = v.operation_id;
  payload_hash = v.payload_hash;
  generation = generation;
  next_generation = generation + 1;
  state = pending;
  created_at_ms = env.now;
  updated_at_ms = env.now;
  period = iso_month env.now;
}

unfoldable pub retire_new : Env → RetireInput → ℕ → Ledger → Result Error (Retirement × Ledger)
retire_new env v generation s = do
  reject_when (leb 1000 (length s.retirements) || leb max_safe_integer generation) capacity_exceeded
  s' ← insert_retirement (new_retirement env v generation) s
  ok (retired (new_retirement env v generation) true, bump_generation s')

unfoldable pub retire_known :
    RetirementRow → RetireInput → Ledger → Result Error (Retirement × Ledger)
retire_known row v s = do
  reject_when
      (not
        (same_actor row.account_id row.credential_id v.actor && row.payload_hash == v.payload_hash))
      operation_conflict
  ok (retired row false, s)

-- The part of `retire` behind `bind`.
unfoldable pub retire_bound : Env → RetireInput → ℕ → Ledger → Result Error (Retirement × Ledger)
retire_bound env v generation s = do
  reject_when (is_some (operation_by v.operation_id s)) operation_conflict
  elim (retirement_by v.operation_id s) [
    | none ↦ retire_new env v generation s
    | some row ↦ retire_known row v s
  ]

unfoldable pub retire : Env → RetireInput → Ledger → Result Error (Retirement × Ledger)
retire env v s = do
  reject_when (not (is_retire v)) input_invalid
  now ← clock env
  authority v.authority_expires_at_ms now
  bound ← bind_identity env v.identity s
  retire_bound env v bound.0 bound.1

abbrev pub is_open : RetirementRow → Bool
is_open row = row.state != acknowledged

-- The open retirements by generation, those behind the cursor first.
unfoldable pub rotation : ℕ → List RetirementRow → List RetirementRow
rotation cursor rows =
    order_by (λ r. r.generation) (select_rows (λ r. is_open r && ltb cursor r.generation) rows)
    ++ order_by (λ r. r.generation) (select_rows (λ r. is_open r && leb r.generation cursor) rows)

-- The rows of both queries of `pending`; the second fills what the first leaves of the limit.
unfoldable pub pending_rows : ℕ → ℕ → List RetirementRow → List RetirementRow
pending_rows cursor limit rows =
    let later = take limit (
      order_by (λ r. r.generation)
        (select_rows (λ r. is_open r && ltb cursor r.generation) rows)) in
    if ltb (length later) limit
    then later
      ++ take (limit - length later) (
          order_by (λ r. r.generation)
            (select_rows (λ r. is_open r && leb r.generation cursor) rows))
    else later

abbrev pub last_generation : List RetirementRow → Option ℕ
last_generation [] = none
last_generation (r ∷ []) = some r.generation
last_generation (r ∷ r' ∷ rows) = last_generation (r' ∷ rows)

abbrev pub advance_cursor : Option ℕ → Ledger → Result Error Ledger
advance_cursor none s = ok s
advance_cursor (some generation) s = update_cursor generation s

unfoldable pub list_pending : Env → PendingInput → Ledger → Result Error (List Retirement × Ledger)
list_pending env v s = do
  reject_when (not (is_pending_input v)) input_invalid
  bound ← bind_identity env v.identity s
  let cursor = or_else bound.1.cursor 0
  let rows = pending_rows cursor v.limit bound.1.retirements
  s' ← advance_cursor (last_generation rows) (record bound.1 { cursor = some cursor })
  ok (map (λ r. retired r false) rows, s')

-- An admitted ingest of the generation has not yet been journaled.
abbrev pub in_flight : ℕ → OperationRow → Bool
in_flight generation o =
    o.generation == generation && (o.operation == memory_ingest && o.state == admitted)

-- The part of `finishRetirement` behind the look-up.
unfoldable pub finish_row : RetirementRow → RetirementState → ℕ → Ledger → Result Error Ledger
finish_row row state now s = if row.state == state then ok s else (do
  reject_when (row.state == acknowledged) transition_invalid
  reject_when (state == acknowledged && ltb 0 (count_rows (in_flight row.generation) s.operations))
      retirement_inflight
  update_retirement row.id state now s)

unfoldable pub finish_retirement : Env → FinishInput → Ledger → Result Error Ledger
finish_retirement env v s = do
  reject_when (not (is_finish v)) input_invalid
  bound ← bind_identity env v.identity s
  now ← clock env
  elim (retirement_at v.retirement_id bound.1) [
    | none ↦ err (rejected retirement_unavailable)
    | some row ↦ finish_row row v.state now bound.1
  ]

abbrev pub bytes_of : Operation → OperationRow → ℕ
bytes_of operation o = if o.operation == operation then o.input_bytes else 0

-- The sums of `usage` over the operations of the month.
unfoldable pub usage_of : String → ℕ → Ledger → Usage
usage_of month generation s =
    let rows = select_rows (λ o. o.period == month) s.operations in
    record {
      month = month;
      generation = generation;
      admissions = length rows;
      ingest_requests = count_rows (λ o. o.operation == memory_ingest) rows;
      input_bytes = sum_rows (bytes_of memory_ingest) rows;
      messages = sum_rows (λ o. o.message_count) rows;
      search_requests = count_rows (λ o. o.operation == memory_search) rows;
      query_bytes = sum_rows (bytes_of memory_search) rows;
      accepted = count_rows (λ o. o.state == accepted) rows;
      unknown = count_rows (λ o. o.state == State.unknown) rows;
      read_failed = count_rows (λ o. o.state == read_failed) rows;
      not_dispatched = count_rows (λ o. o.state == not_dispatched) rows;
      clear_requests = count_rows (λ r. r.period == month) s.retirements;
      pending_retirements = count_rows is_open s.retirements;
    }

unfoldable pub usage : Env → Identity → Ledger → Result Error (Usage × Ledger)
usage env identity s = do
  reject_when (not (is_identity identity)) input_invalid
  bound ← bind_identity env identity s
  now ← clock env
  ok (usage_of (iso_month now) bound.0 bound.1, bound.1)
