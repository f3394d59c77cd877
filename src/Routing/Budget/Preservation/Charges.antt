-- ===== src/Routing/Budget/Preservation/Charges.antt =====
-- A new reservation is counted in its month.
use memory_server_worker.Prelude.{
  ◌+◌, Bool, true, false, not, ◌&&◌, ◌∷◌, ◌==◌, nat_eq, string_eq, update_rows, All, All-map,
  All-both, All-update_rows, Distinct-update_rows, any_row-false, find_row-none, find_row_unique,
  ◌≡◌, refl, arith,
}
use memory_server_worker.Routing.SpaceLedger.Rows.{state_eq}
use memory_server_worker.Routing.Budget.Rows.{MonthRow, ReservationRow, Budget, is_month}
use memory_server_worker.Routing.Budget.Steps.{charge, IsCharge}
use memory_server_worker.Routing.Budget.Invariant.{IsMonth, HasMonth, IsBudget}
use memory_server_worker.Routing.Budget.Preservation.Months.{HasMonth-update_rows}

module _ (s : Budget) (w : IsBudget s) where
  pub charging-IsBudget :
      (m : MonthRow) (row : ReservationRow)
      → IsCharge s m row
      → IsBudget (record s {
        months = update_rows (λ x. x.month == row.month) (charge m row) s.months;
        reservations = row ∷ s.reservations;
        total_reservations = s.total_reservations + 1;
      })
  charging-IsBudget m row c = record {
    month_keys =
        Distinct-update_rows (λ x. x.month) same (charge m row) (λ x. refl) s.months w.month_keys;
    reservation_ids = (find_row-none _ s.reservations c.fresh, w.reservation_ids);
    counted = omega (arith, w.counted);
    room = omega (arith, c.room);
    months_fine = All-update_rows same (charge m row) s.months hit miss charged_rows;
    reservations_fine = (c.valid, w.reservations_fine);
    accounted = (kept row (m, c.found, c.same_policy), All-map s.reservations kept w.accounted);
  }
    where
      same : MonthRow → Bool
      same x = x.month == row.month

      kept :
          (r : ReservationRow)
          → HasMonth s.months r
          → HasMonth (update_rows same (charge m row) s.months) r
      kept = HasMonth-update_rows same (charge m row) (λ x. refl) (λ x. refl) s.months

      Charged : MonthRow → Type 0
      Charged x = (same x ≡ true → x ≡ m) × ((same x && not (is_month (charge m row x))) ≡ false)

      charged_rows : All (λ x. IsMonth s.reservations x × Charged x) s.months
      charged_rows = All-both (IsMonth s.reservations) Charged s.months w.months_fine (
          All-both (λ x. same x ≡ true → x ≡ m)
            (λ x. (same x && not (is_month (charge m row x))) ≡ false) s.months
            (find_row_unique (λ x. x.month) row.month s.months w.month_keys c.found)
            (any_row-false _ s.months c.bounded))

      hit :
          (x : MonthRow)
          → IsMonth s.reservations x × Charged x
          → same x ≡ true
          → IsMonth (row ∷ s.reservations) (charge m row x)
      hit x (fine, (only, allowed)) e =
          let is : x ≡ m = only e in
          record {
            requests = rw (e, ← is) (omega (arith, fine.requests));
            input_bytes = rw (e, ← is) (omega (arith, fine.input_bytes));
            reserved = rw (e, ← is) (omega (arith, fine.reserved));
            accepted = rw (e, c.starts) (omega (arith, fine.accepted));
            unknown = rw (e, c.starts) (omega (arith, fine.unknown));
            read_failed = rw (e, c.starts) (omega (arith, fine.read_failed));
            not_dispatched = rw (e, c.starts) (omega (arith, fine.not_dispatched));
            bounded = ground arith;
          }

      miss :
          (x : MonthRow)
          → IsMonth s.reservations x × Charged x
          → same x ≡ false
          → IsMonth (row ∷ s.reservations) x
      miss x (fine, charged) e = record {
        requests = rw e (omega (arith, fine.requests));
        input_bytes = rw e (omega (arith, fine.input_bytes));
        reserved = rw e (omega (arith, fine.reserved));
        accepted = rw e (omega (arith, fine.accepted));
        unknown = rw e (omega (arith, fine.unknown));
        read_failed = rw e (omega (arith, fine.read_failed));
        not_dispatched = rw e (omega (arith, fine.not_dispatched));
        bounded = fine.bounded;
      }
