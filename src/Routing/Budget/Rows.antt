-- ===== src/Routing/Budget/Rows.antt =====
-- The tables of saas/src/routing/budget-ledger.ts, and the statements that write to them. A
-- violated constraint or a trigger aborts the transaction.
use memory_server_worker.Prelude.{
  ℕ, ◌+◌, String, Bool, not, ◌&&◌, ◌||◌, Option, none, List, [], ◌∷◌, ltb, leb, ◌==◌, ◌!=◌, nat_eq,
  string_eq, find_row, any_row, update_rows, length, Result, ok, if◌then◌else◌, reject_if, ◌>>◌,
}
use memory_server_worker.Routing.Schema.{codes}
use memory_server_worker.Routing.Consent.{
  Operation, memory_ingest, memory_search, operation_eq, is_some,
}
use memory_server_worker.Routing.SpaceLedger.Rows.{
  State, admitted, accepted, read_failed, not_dispatched, state_eq,
}

pub data Code : Type 0 where
  input_invalid identity_mismatch authority_expired policy_expired policy_conflict : Code
  reservation_conflict exhausted capacity_exceeded reservation_unavailable : Code
  transition_invalid : Code

-- A thrown `RoutingBudgetError`, or an error of SQLite.
pub data Error : Type 0 where
  rejected : Code → Error
  aborted : Error

-- budget_months
pub record MonthRow : Type 0 where
  pub month : String
  pub policy_hash : String
  pub policy_record : String
  pub created_at_ms : ℕ
  pub requests : ℕ
  pub input_bytes : ℕ
  pub reserved_micro_usd : ℕ
  pub accepted : ℕ
  pub unknown : ℕ
  pub read_failed : ℕ
  pub not_dispatched : ℕ

-- budget_reservations
pub record ReservationRow : Type 0 where
  pub reservation_id : String
  pub space_id : String
  pub operation : Operation
  pub payload_hash : String
  pub input_bytes : ℕ
  pub message_count : ℕ
  pub month : String
  pub policy_hash : String
  pub reserved_micro_usd : ℕ
  pub created_at_ms : ℕ
  pub expires_at_ms : ℕ
  pub updated_at_ms : ℕ
  pub state : State

-- The database of one deployment. `initialize` inserts the one row of budget_capacity, and a
-- trigger keeps it.
pub record Budget : Type 0 where
  pub identity : Option String
  pub total_reservations : ℕ
  pub months : List MonthRow
  pub reservations : List ReservationRow

-- The database that `initialize` leaves.
abbrev pub initial : Budget
initial = record { identity = none; total_reservations = 0; months = []; reservations = [] }

abbrev pub month_by : String → Budget → Option MonthRow
month_by month s = find_row (λ m. m.month == month) s.months

abbrev pub reservation_by : String → Budget → Option ReservationRow
reservation_by id s = find_row (λ r. r.reservation_id == id) s.reservations

-- The defaults of budget_months.
abbrev pub new_month : (month hash text : String) (now : ℕ) → MonthRow
new_month month hash text now = record {
  month = month;
  policy_hash = hash;
  policy_record = text;
  created_at_ms = now;
  requests = 0;
  input_bytes = 0;
  reserved_micro_usd = 0;
  accepted = 0;
  unknown = 0;
  read_failed = 0;
  not_dispatched = 0;
}

-- INSERT INTO budget_months(month,policy_hash,policy_record,created_at_ms)
unfoldable pub insert_month : (month hash text : String) (now : ℕ) → Budget → Result Error Budget
insert_month month hash text now s = do
  reject_if (is_some (month_by month s) || length (codes hash) != 64) aborted
  ok (record s { months = new_month month hash text now ∷ s.months })

-- The constraints on the counters of a month.
unfoldable pub is_month : MonthRow → Bool
is_month m =
    leb m.requests 100_000
    && leb m.input_bytes 1_000_000_000
    && leb m.reserved_micro_usd 50_000_000
    && leb (m.accepted + m.unknown + m.read_failed + m.not_dispatched) m.requests

-- UPDATE budget_months SET f WHERE month=?
unfoldable pub update_month : String → (MonthRow → MonthRow) → Budget → Result Error Budget
update_month month f s = do
  reject_if (any_row (λ m. m.month == month && not (is_month (f m))) s.months) aborted
  ok (record s { months = update_rows (λ m. m.month == month) f s.months })

abbrev pub with_charge : (requests bytes reserved : ℕ) → MonthRow → MonthRow
with_charge requests bytes reserved m = record m {
  requests = requests;
  input_bytes = bytes;
  reserved_micro_usd = reserved;
}

abbrev pub count_of : (state column : State) → ℕ
count_of state column = if state == column then 1 else 0

-- UPDATE budget_months SET c=c+1, for the column `c` that `finalize` counts a state in.
abbrev pub counted : State → MonthRow → MonthRow
counted state m = record m {
  accepted = m.accepted + count_of state accepted;
  unknown = m.unknown + count_of state State.unknown;
  read_failed = m.read_failed + count_of state read_failed;
  not_dispatched = m.not_dispatched + count_of state not_dispatched;
}

-- The constraint on an operation, its usage and its state.
abbrev pub fits_usage : Operation → (bytes messages : ℕ) → State → Bool
fits_usage memory_ingest bytes messages state = ltb 0 messages && state != read_failed
fits_usage memory_search bytes messages state = messages == 0 && ltb 0 bytes

-- The constraints on a reservation.
unfoldable pub is_reservation : ReservationRow → Bool
is_reservation r =
    length (codes r.payload_hash) == 64
    && leb r.input_bytes 1_000_000_000
    && leb r.message_count 500
    && length (codes r.policy_hash) == 64
    && ltb 0 r.reserved_micro_usd
    && leb r.reserved_micro_usd 50_000_000
    && fits_usage r.operation r.input_bytes r.message_count r.state
    && ltb r.created_at_ms r.expires_at_ms
    && leb r.expires_at_ms (r.created_at_ms + 60000)

-- INSERT INTO budget_reservations, with its foreign key and the triggers on the capacity.
unfoldable pub insert_reservation : ReservationRow → Budget → Result Error Budget
insert_reservation row s = do
  reject_if
      (leb 1_000_000 s.total_reservations
        || (is_some (reservation_by row.reservation_id s)
            || (not (is_some (month_by row.month s)) || not (is_reservation row))))
      aborted
  ok (record s {
    reservations = row ∷ s.reservations;
    total_reservations = s.total_reservations + 1;
  })

abbrev pub with_state : State → ℕ → ReservationRow → ReservationRow
with_state state now r = record r { state = state; updated_at_ms = now }

-- The trigger `budget_reservations_terminal`, and the constraint on the new row.
unfoldable pub forbids_transition : State → ReservationRow → Bool
forbids_transition state old =
    old.state != admitted && state != old.state
    || not (fits_usage old.operation old.input_bytes old.message_count state)

-- UPDATE budget_reservations SET state=?,updated_at_ms=? WHERE reservation_id=?
unfoldable pub update_reservation : String → State → ℕ → Budget → Result Error Budget
update_reservation id state now s = do
  reject_if (any_row (λ r. r.reservation_id == id && forbids_transition state r) s.reservations)
      aborted
  ok (record s {
    reservations = update_rows (λ r. r.reservation_id == id) (with_state state now) s.reservations;
  })
