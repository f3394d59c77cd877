-- ===== src/Routing/Budget/Invariant.antt =====
-- The invariant of a budget: the counters of a month are the sums over its reservations.
use memory_server_worker.Prelude.{
  ℕ, ◌≤◌, String, true, some, List, ◌==◌, nat_eq, string_eq, find_row, length, sum_rows, All,
  Distinct, if◌then◌else◌, ◌≡◌, refl, arith,
}
use memory_server_worker.Routing.SpaceLedger.Rows.{
  State, accepted, read_failed, not_dispatched, state_eq,
}
use memory_server_worker.Routing.Budget.Rows.{
  MonthRow, ReservationRow, Budget, initial, is_month, is_reservation,
}

-- The sum over the reservations of a month.
abbrev pub tally : (ReservationRow → ℕ) → String → List ReservationRow → ℕ
tally f month rows = sum_rows (λ r. if month == r.month then f r else 0) rows

abbrev pub one : ReservationRow → ℕ
one r = 1

abbrev pub in_state : State → ReservationRow → ℕ
in_state state r = if r.state == state then 1 else 0

pub record IsMonth (rows : List ReservationRow) (m : MonthRow) : Type 0 where
  pub requests : m.requests ≡ tally one m.month rows
  pub input_bytes : m.input_bytes ≡ tally (λ r. r.input_bytes) m.month rows
  pub reserved : m.reserved_micro_usd ≡ tally (λ r. r.reserved_micro_usd) m.month rows
  pub accepted : m.accepted ≡ tally (in_state accepted) m.month rows
  pub unknown : m.unknown ≡ tally (in_state State.unknown) m.month rows
  pub read_failed : m.read_failed ≡ tally (in_state read_failed) m.month rows
  pub not_dispatched : m.not_dispatched ≡ tally (in_state not_dispatched) m.month rows
  pub bounded : is_month m ≡ true

-- A reservation's month is there, and has its policy.
abbrev pub HasMonth : List MonthRow → ReservationRow → Type 0
HasMonth months r =
    (m : MonthRow) × (find_row (λ m. m.month == r.month) months ≡ some m)
    × (m.policy_hash ≡ r.policy_hash)

pub record IsBudget (s : Budget) : Type 0 where
  pub month_keys : Distinct (λ m. m.month) s.months
  pub reservation_ids : Distinct (λ r. r.reservation_id) s.reservations
  pub counted : s.total_reservations ≡ length s.reservations
  pub room : s.total_reservations ≤ 1_000_000
  pub months_fine : All (IsMonth s.reservations) s.months
  pub reservations_fine : All (λ r. is_reservation r ≡ true) s.reservations
  pub accounted : All (HasMonth s.months) s.reservations

pub initial-IsBudget : IsBudget initial
initial-IsBudget = record {
  month_keys = tt;
  reservation_ids = tt;
  counted = refl;
  room = omega arith;
  months_fine = tt;
  reservations_fine = tt;
  accounted = tt;
}
