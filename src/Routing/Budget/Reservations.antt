-- ===== src/Routing/Budget/Reservations.antt =====
-- The methods of `RoutingBudgetLedger` (saas/src/routing/budget-ledger.ts). Each runs in one
-- transaction over the ledger. `digest` stands for SHA-256 in hexadecimal, which
-- `crypto.subtle.digest` computes. The costs are far below 2^53, so JavaScript's numbers are exact.
use Prim.Native.String.{◌++◌ as append}
use memory_server_worker.Prelude.{
  ℕ, ◌+◌, ◌*◌, ◌/◌, min, String, Bool, true, false, not, ◌&&◌, ◌||◌, Option, none, some, ltb, leb,
  ◌==◌, ◌!=◌, nat_eq, string_eq, Result, ok, err, reject_if, ◌>>=◌, ◌>>◌, if◌then◌else◌,
}
use memory_server_worker.Routing.Month.{month_at}
use memory_server_worker.Routing.Schema.{is_identifier, max_safe_integer}
use memory_server_worker.Routing.Consent.{Operation, memory_ingest, memory_search, operation_eq}
use memory_server_worker.Routing.SpaceLedger.Rows.{State, admitted, read_failed, state_eq}
use memory_server_worker.Routing.SpaceLedger.Admissions.{or_else}
use memory_server_worker.Routing.Budget.Rows.{
  Code, Error, rejected, input_invalid, identity_mismatch, authority_expired, policy_expired,
  policy_conflict, reservation_conflict, exhausted, capacity_exceeded, reservation_unavailable,
  transition_invalid, MonthRow, ReservationRow, Budget, month_by, reservation_by, insert_month,
  update_month, with_charge, counted, insert_reservation, update_reservation,
}
use memory_server_worker.Routing.Budget.Inputs.{
  Policy, ReserveInput, FinalizeInput, Reservation, Usage, Env, is_timestamp, is_reserve,
  is_finalize, canonical_policy,
}

abbrev pub reject_when : Bool → Code → Result Error (Unit {0})
reject_when bad code = reject_if bad (rejected code)

abbrev pub clock : Env → Result Error ℕ
clock env = if is_timestamp env.now then ok env.now else err (rejected input_invalid)

abbrev pub wrong_object : Option String → String → Bool
wrong_object none budget_id = false
wrong_object (some name) budget_id = name != append "budget:" budget_id

-- `this.identity(budgetId)`: the first call binds the object, later ones have to fit.
unfoldable pub bind_identity : Env → String → Budget → Result Error Budget
bind_identity env budget_id s = do
  reject_when (wrong_object env.object_name budget_id) identity_mismatch
  let bound = or_else s.identity budget_id
  reject_when (bound != budget_id) identity_mismatch
  ok (record s { identity = some bound })

abbrev pub reservation_of : ReservationRow → Bool → Reservation
reservation_of row replayed = record {
  reservation_id = row.reservation_id;
  month = row.month;
  reserved_micro_usd = row.reserved_micro_usd;
  expires_at_ms = row.expires_at_ms;
  replayed = replayed;
}

abbrev pub month_has_hash : Option MonthRow → String → Bool
month_has_hash none hash = false
month_has_hash (some m) hash = m.policy_hash == hash

unfoldable pub same_request : ReservationRow → ReserveInput → Bool
same_request row v =
    row.space_id == v.space_id
    && row.operation == v.operation
    && row.payload_hash == v.payload_hash
    && row.input_bytes == v.input_bytes
    && row.message_count == v.message_count

unfoldable pub reserve_known :
    ReservationRow → ReserveInput → (hash : String) → Budget → Result Error (Reservation × Budget)
reserve_known row v hash s = do
  reject_when (row.policy_hash != hash || not (month_has_hash (month_by row.month s) hash))
      policy_conflict
  reject_when (not (same_request row v)) reservation_conflict
  ok (reservation_of row true, s)

abbrev pub ceil_kib : ℕ → ℕ
ceil_kib bytes = (bytes + 1023) / 1024

abbrev pub base_rate : Operation → Policy → ℕ
base_rate memory_ingest p = p.ingest_base_micro_usd
base_rate memory_search p = p.search_base_micro_usd

abbrev pub kib_rate : Operation → Policy → ℕ
kib_rate memory_ingest p = p.ingest_micro_usd_per_kib
kib_rate memory_search p = p.search_micro_usd_per_kib

unfoldable pub cost_of : ReserveInput → ℕ
cost_of v = base_rate v.operation v.policy + ceil_kib v.input_bytes * kib_rate v.operation v.policy

abbrev pub conflicts : Option MonthRow → String → Bool
conflicts none hash = false
conflicts (some m) hash = m.policy_hash != hash

abbrev pub column : (MonthRow → ℕ) → Option MonthRow → ℕ
column f none = 0
column f (some m) = f m

unfoldable pub is_exhausted : Policy → (requests bytes reserved : ℕ) → Bool
is_exhausted p requests bytes reserved =
    ltb p.max_monthly_requests requests
    || (ltb p.max_monthly_input_bytes bytes || ltb p.max_monthly_reserved_micro_usd reserved)

abbrev pub new_reservation : ReserveInput → (month hash : String) → ℕ → ReservationRow
new_reservation v month hash now = record {
  reservation_id = v.reservation_id;
  space_id = v.space_id;
  operation = v.operation;
  payload_hash = v.payload_hash;
  input_bytes = v.input_bytes;
  message_count = v.message_count;
  month = month;
  policy_hash = hash;
  reserved_micro_usd = cost_of v;
  created_at_ms = now;
  expires_at_ms = min (now + 60_000) (min v.authority_expires_at_ms v.policy.valid_until_ms);
  updated_at_ms = now;
  state = admitted;
}

-- The month's row, which the first reservation of a month inserts.
unfoldable pub open_month :
    Option MonthRow → (month hash text : String) → ℕ → Budget → Result Error Budget
open_month none month hash text now s = insert_month month hash text now s
open_month (some m) month hash text now s = ok s

abbrev unsafe_number : ℕ → Bool
unsafe_number n = ltb max_safe_integer n

-- The three writes of a new reservation.
unfoldable pub write_reservation :
    Option MonthRow → ReserveInput → (month text hash : String) → ℕ → Budget → Result Error Budget
write_reservation current v month text hash now s = do
  opened ← open_month current month hash text now s
  charged ←
      update_month month
        (with_charge (column (λ m. m.requests) current + 1)
          (column (λ m. m.input_bytes) current + v.input_bytes)
          (column (λ m. m.reserved_micro_usd) current + cost_of v))
        opened
  insert_reservation (new_reservation v month hash now) charged

-- The checks on the month: its policy, and what is left of it.
unfoldable pub check_month :
    Option MonthRow → ReserveInput → (hash : String) → Result Error (Unit {0})
check_month current v hash = do
  reject_when (conflicts current hash) policy_conflict
  let requests = column (λ m. m.requests) current + 1
  let bytes = column (λ m. m.input_bytes) current + v.input_bytes
  let reserved = column (λ m. m.reserved_micro_usd) current + cost_of v
  reject_when
      (unsafe_number (cost_of v)
        || (unsafe_number requests || (unsafe_number bytes || unsafe_number reserved)))
      input_invalid
  reject_when (is_exhausted v.policy requests bytes reserved) exhausted

unfoldable pub reserve_new :
    ReserveInput → (text hash : String) → ℕ → Budget → Result Error (Reservation × Budget)
reserve_new v text hash now s = do
  reject_when (leb 1_000_000 s.total_reservations) capacity_exceeded
  check_month (month_by (month_at now) s) v hash
  s' ← write_reservation (month_by (month_at now) s) v (month_at now) text hash now s
  ok (reservation_of (new_reservation v (month_at now) hash now) false, s')

-- The part of `reserve` behind `identity`.
unfoldable pub reserve_bound :
    ReserveInput → (text hash : String) → ℕ → Budget → Result Error (Reservation × Budget)
reserve_bound v text hash now s = do
  reject_when (leb v.authority_expires_at_ms now) authority_expired
  reject_when (leb v.policy.valid_until_ms now) policy_expired
  elim (reservation_by v.reservation_id s) [
    | none ↦ reserve_new v text hash now s
    | some row ↦ reserve_known row v hash s
  ]

unfoldable pub reserve :
    (digest : String → String) → Env → ReserveInput → Budget → Result Error (Reservation × Budget)
reserve digest env v s = do
  reject_when (not (is_reserve v)) input_invalid
  bound ← bind_identity env v.budget_id s
  now ← clock env
  reserve_bound v (canonical_policy v.policy) (digest (canonical_policy v.policy)) now bound

-- The part of `finalize` behind the search for the row.
unfoldable pub finalize_row : ReservationRow → State → Env → Budget → Result Error Budget
finalize_row row state env s = do
  reject_when (state == read_failed && row.operation != memory_search) transition_invalid
  if row.state == state then ok s else (do
    reject_when (row.state != admitted) transition_invalid
    now ← clock env
    settled ← update_reservation row.reservation_id state now s
    update_month row.month (counted state) settled)

unfoldable pub finalize : Env → FinalizeInput → Budget → Result Error Budget
finalize env v s = do
  reject_when (not (is_finalize v)) input_invalid
  bound ← bind_identity env v.budget_id s
  elim (reservation_by v.reservation_id bound) [
    | none ↦ err (rejected reservation_unavailable)
    | some row ↦ finalize_row row v.state env bound
  ]

abbrev pub usage_of : String → Option MonthRow → Usage
usage_of month row = record {
  month = month;
  requests = column (λ m. m.requests) row;
  input_bytes = column (λ m. m.input_bytes) row;
  reserved_micro_usd = column (λ m. m.reserved_micro_usd) row;
  accepted = column (λ m. m.accepted) row;
  unknown = column (λ m. m.unknown) row;
  read_failed = column (λ m. m.read_failed) row;
  not_dispatched = column (λ m. m.not_dispatched) row;
}

unfoldable pub usage : Env → String → Budget → Result Error (Usage × Budget)
usage env budget_id s = do
  reject_when (not (is_identifier budget_id)) input_invalid
  bound ← bind_identity env budget_id s
  now ← clock env
  ok (usage_of (month_at now) (month_by (month_at now) bound), bound)
