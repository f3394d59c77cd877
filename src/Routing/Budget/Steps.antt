-- ===== src/Routing/Budget/Steps.antt =====
-- The writes that the calls on a budget are made of, as a relation, each with the facts under
-- which it is made.
use memory_server_worker.Prelude.{
  ℕ, ◌+◌, ◌<◌, String, true, false, not, ◌&&◌, none, some, ◌∷◌, ◌==◌, ◌!=◌, nat_eq, string_eq,
  any_row, update_rows, ◌≡◌,
}
use memory_server_worker.Routing.SpaceLedger.Rows.{State, admitted, state_eq}
use memory_server_worker.Routing.SpaceLedger.Admissions.{or_else}
use memory_server_worker.Routing.Budget.Rows.{
  MonthRow, ReservationRow, Budget, month_by, reservation_by, new_month, is_month, is_reservation,
  fits_usage, with_charge, with_state, counted,
}

abbrev pub charge : MonthRow → ReservationRow → MonthRow → MonthRow
charge m row =
    with_charge (m.requests + 1) (m.input_bytes + row.input_bytes)
      (m.reserved_micro_usd + row.reserved_micro_usd)

-- What `reserve` knows of a row that it inserts, and of its month.
pub record IsCharge (s : Budget) (m : MonthRow) (row : ReservationRow) : Type 0 where
  pub found : month_by row.month s ≡ some m
  pub same_policy : m.policy_hash ≡ row.policy_hash
  pub starts : row.state ≡ admitted
  pub fresh : reservation_by row.reservation_id s ≡ none
  pub valid : is_reservation row ≡ true
  pub room : s.total_reservations < 1_000_000
  pub bounded :
      any_row (λ x. x.month == row.month && not (is_month (charge m row x))) s.months ≡ false

-- What `finalize` knows of a row that it updates.
pub record IsOutcome (s : Budget) (row : ReservationRow) (state : State) : Type 0 where
  pub found : reservation_by row.reservation_id s ≡ some row
  pub starts : row.state ≡ admitted
  pub ends : (state != admitted) ≡ true
  pub fits : fits_usage row.operation row.input_bytes row.message_count state ≡ true
  pub bounded :
      any_row (λ x. x.month == row.month && not (is_month (counted state x))) s.months ≡ false

pub data Step (s s' : Budget) : Type 0 where
  bind : (i : String) → s' ≡ record s { identity = some (or_else s.identity i) } → Step s s'
  opening :
      (month hash text : String) (now : ℕ)
      → month_by month s ≡ none
      → s' ≡ record s { months = new_month month hash text now ∷ s.months }
      → Step s s'
  charging :
      (m : MonthRow) (row : ReservationRow)
      → IsCharge s m row
      → s' ≡ record s {
        months = update_rows (λ x. x.month == row.month) (charge m row) s.months;
        reservations = row ∷ s.reservations;
        total_reservations = s.total_reservations + 1;
      }
      → Step s s'
  outcome :
      (row : ReservationRow) (state : State) (now : ℕ)
      → IsOutcome s row state
      → s' ≡ record s {
        months = update_rows (λ x. x.month == row.month) (counted state) s.months;
        reservations =
            update_rows
              (λ r. r.reservation_id == row.reservation_id)
              (with_state state now)
              s.reservations;
      }
      → Step s s'

pub data Reach (s : Budget) : Budget → Type 0 where
  here : Reach s s
  next : {t u : Budget} → Reach s t → Step t u → Reach s u

pub Reach-trans : {s t u : Budget} → Reach s t → Reach t u → Reach s u
Reach-trans h here = h
Reach-trans h (next k st) = next (Reach-trans h k) st
