-- ===== src/Routing/Budget/Preservation/Outcomes.antt =====
-- An outcome is counted in the month of its reservation.
use memory_server_worker.Prelude.{
  ℕ, ◌+◌, String, Bool, true, false, not, ◌&&◌, some, List, ◌==◌, nat_eq, string_eq, find_row,
  update_rows, All-both, All-update_rows, Distinct, Distinct-update_rows, any_row-false,
  find_row_unique, length-update_rows, sum_rows-same, sum_rows-update_rows, if◌then◌else◌, ◌≡◌,
  refl, arith,
}
use memory_server_worker.Routing.SpaceLedger.Rows.{
  State, admitted, accepted, read_failed, not_dispatched, state_eq,
}
use memory_server_worker.Routing.Budget.Rows.{
  MonthRow, ReservationRow, Budget, is_month, is_reservation, fits_usage, with_state, counted,
  count_of,
}
use memory_server_worker.Routing.Budget.Steps.{IsOutcome}
use memory_server_worker.Routing.Budget.Invariant.{
  tally, one, in_state, IsMonth, HasMonth, IsBudget,
}
use memory_server_worker.Routing.Budget.Preservation.Months.{HasMonth-update_rows}

tally-same :
    (f : ReservationRow → ℕ) (p : ReservationRow → Bool) (g : ReservationRow → ReservationRow)
    → ((r : ReservationRow) → f (g r) ≡ f r)
    → ((r : ReservationRow) → (g r).month ≡ r.month)
    → (month : String) (rows : List ReservationRow)
    → tally f month (update_rows p g rows) ≡ tally f month rows
tally-same f p g same same_month month rows =
    sum_rows-same (λ r. if month == r.month then f r else 0) p g
      (λ r. rw (same r, same_month r) refl) rows

-- The one row that is updated moves from `admitted` to the state.
tally-in_state :
    (column state : State) (now : ℕ) (row : ReservationRow) (month : String)
    (rows : List ReservationRow)
    → (column == admitted) ≡ false
    → row.state ≡ admitted
    → Distinct (λ r. r.reservation_id) rows
    → find_row (λ r. r.reservation_id == row.reservation_id) rows ≡ some row
    → tally
        (in_state column)
        month
        (update_rows (λ r. r.reservation_id == row.reservation_id) (with_state state now) rows)
      ≡ tally (in_state column) month rows
        + (if month == row.month then count_of state column else 0)
tally-in_state column state now row month rows other starts keys found =
    let moved =
      sum_rows-update_rows (λ r. r.reservation_id)
        (λ r. if month == r.month then in_state column r else 0) (with_state state now)
        row.reservation_id rows keys found in
    let before : (if month == row.month then in_state column row else 0) ≡ 0 =
      ground (arith, starts) in
    omega (arith, moved, before)

is_reservation-with_state :
    (row : ReservationRow) (state : State) (now : ℕ)
    → is_reservation row ≡ true
    → fits_usage row.operation row.input_bytes row.message_count state ≡ true
    → is_reservation (with_state state now row) ≡ true
unfolding is_reservation
is_reservation-with_state row state now valid fits = ground arith

module _ (s : Budget) (w : IsBudget s) where
  pub outcome-IsBudget :
      (row : ReservationRow) (state : State) (now : ℕ)
      → IsOutcome s row state
      → IsBudget (record s {
        months = update_rows (λ x. x.month == row.month) (counted state) s.months;
        reservations =
            update_rows
              (λ r. r.reservation_id == row.reservation_id)
              (with_state state now)
              s.reservations;
      })
  outcome-IsBudget row state now c = record {
    month_keys =
        Distinct-update_rows (λ x. x.month) same (counted state) (λ x. refl) s.months w.month_keys;
    reservation_ids =
        Distinct-update_rows (λ r. r.reservation_id) mine g (λ r. refl) s.reservations
          w.reservation_ids;
    counted = rw length-update_rows w.counted;
    room = w.room;
    months_fine = All-update_rows same (counted state) s.months hit miss (
        All-both (IsMonth s.reservations) Allowed s.months w.months_fine
          (any_row-false _ s.months c.bounded));
    reservations_fine =
        All-update_rows mine g s.reservations updated (λ r h other. h.0)
          (All-both (λ r. is_reservation r ≡ true) Only s.reservations w.reservations_fine
            (find_row_unique (λ r. r.reservation_id) row.reservation_id s.reservations
              w.reservation_ids c.found));
    accounted =
        All-update_rows mine g s.reservations (λ r h e. kept r h) (λ r h e. kept r h) w.accounted;
  }
    where
      same : MonthRow → Bool
      same x = x.month == row.month

      mine : ReservationRow → Bool
      mine r = r.reservation_id == row.reservation_id

      g : ReservationRow → ReservationRow
      g = with_state state now

      Allowed : MonthRow → Type 0
      Allowed x = (same x && not (is_month (counted state x))) ≡ false

      Only : ReservationRow → Type 0
      Only r = mine r ≡ true → r ≡ row

      kept :
          (r : ReservationRow)
          → HasMonth s.months r
          → HasMonth (update_rows same (counted state) s.months) r
      kept = HasMonth-update_rows same (counted state) (λ x. refl) (λ x. refl) s.months

      updated :
          (r : ReservationRow)
          → (is_reservation r ≡ true) × Only r
          → mine r ≡ true
          → is_reservation (g r) ≡ true
      updated r (valid, only) e =
          let is : r ≡ row = only e in is_reservation-with_state r state now valid (rw is c.fits)

      unmoved :
          (f : ReservationRow → ℕ)
          → ((r : ReservationRow) → f (g r) ≡ f r)
          → (month : String)
          → tally f month (update_rows mine g s.reservations) ≡ tally f month s.reservations
      unmoved f same_f month = tally-same f mine g same_f (λ r. refl) month s.reservations

      moved :
          (column : State)
          → (column == admitted) ≡ false
          → (month : String)
          → tally (in_state column) month (update_rows mine g s.reservations)
            ≡ tally (in_state column) month s.reservations
              + (if month == row.month then count_of state column else 0)
      moved column other month =
          tally-in_state column state now row month s.reservations other c.starts w.reservation_ids
            c.found

      hit :
          (x : MonthRow)
          → IsMonth s.reservations x × Allowed x
          → same x ≡ true
          → IsMonth (update_rows mine g s.reservations) (counted state x)
      hit x (fine, allowed) e = record {
        requests = rw (unmoved one (λ r. refl) x.month) fine.requests;
        input_bytes = rw (unmoved (λ r. r.input_bytes) (λ r. refl) x.month) fine.input_bytes;
        reserved = rw (unmoved (λ r. r.reserved_micro_usd) (λ r. refl) x.month) fine.reserved;
        accepted = rw (moved accepted refl x.month, e, fine.accepted) refl;
        unknown = rw (moved State.unknown refl x.month, e, fine.unknown) refl;
        read_failed = rw (moved read_failed refl x.month, e, fine.read_failed) refl;
        not_dispatched = rw (moved not_dispatched refl x.month, e, fine.not_dispatched) refl;
        bounded = ground arith;
      }

      miss :
          (x : MonthRow)
          → IsMonth s.reservations x × Allowed x
          → same x ≡ false
          → IsMonth (update_rows mine g s.reservations) x
      miss x (fine, allowed) e = record {
        requests = rw (unmoved one (λ r. refl) x.month) fine.requests;
        input_bytes = rw (unmoved (λ r. r.input_bytes) (λ r. refl) x.month) fine.input_bytes;
        reserved = rw (unmoved (λ r. r.reserved_micro_usd) (λ r. refl) x.month) fine.reserved;
        accepted = rw (moved accepted refl x.month, e) (omega (arith, fine.accepted));
        unknown = rw (moved State.unknown refl x.month, e) (omega (arith, fine.unknown));
        read_failed = rw (moved read_failed refl x.month, e) (omega (arith, fine.read_failed));
        not_dispatched =
            rw (moved not_dispatched refl x.month, e) (omega (arith, fine.not_dispatched));
        bounded = fine.bounded;
      }
