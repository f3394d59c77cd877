-- ===== src/Routing/Budget/Preservation/Months.antt =====
-- A new month, and what updates of the months keep for the reservations.
use memory_server_worker.Prelude.{
  ℕ, String, Bool, false, Option, none, List, ◌∷◌, ◌==◌, nat_eq, string_eq, find_row, update_rows,
  All, All-map, find_row-none, find_row-update_rows, sum_rows-zero, Bool-cases, inl, inr,
  if◌then◌else◌, ◌≡◌, refl, sym, arith,
}
use memory_server_worker.Routing.SpaceLedger.Rows.{
  State, accepted, read_failed, not_dispatched, state_eq,
}
use memory_server_worker.Routing.Budget.Rows.{
  MonthRow, ReservationRow, Budget, is_month, new_month, month_by,
}
use memory_server_worker.Routing.Budget.Invariant.{tally, one, in_state, HasMonth, IsBudget}

-- A month without reservations.
pub tally-none :
    (f : ReservationRow → ℕ) (month : String) (rows : List ReservationRow)
    → All (λ r. (month == r.month) ≡ false) rows
    → tally f month rows ≡ 0
tally-none f month rows h = sum_rows-zero _ rows (All-map rows (λ r miss. rw miss refl) h)

pub absent_month :
    (month : String) (months : List MonthRow) (r : ReservationRow)
    → find_row (λ m. m.month == month) months ≡ none
    → HasMonth months r
    → (month == r.month) ≡ false
absent_month month months r missing (m, found, policy) = elim (Bool-cases (month == r.month)) [
  | inl same ↦
      let k : month ≡ r.month = (string_eq.beq_iff month r.month).0 same in
      absurd (let gone : find_row (λ m. m.month == r.month) months ≡ none = rw k at missing in cc)
  | inr other ↦ other
]

-- Another row on top of the months.
pub HasMonth-cons :
    (m : MonthRow) (months : List MonthRow) (r : ReservationRow)
    → find_row (λ x. x.month == m.month) months ≡ none
    → HasMonth months r
    → HasMonth (m ∷ months) r
HasMonth-cons m months r missing (x, found, policy) =
    (x, rw (absent_month m.month months r missing (x, found, policy)) found, policy)

-- An update of other columns of the months.
pub HasMonth-update_rows :
    (p : MonthRow → Bool) (f : MonthRow → MonthRow)
    → ((m : MonthRow) → (f m).month ≡ m.month)
    → ((m : MonthRow) → (f m).policy_hash ≡ m.policy_hash)
    → (months : List MonthRow) (r : ReservationRow) → HasMonth months r
    → HasMonth (update_rows p f months) r
HasMonth-update_rows p f same_month same_policy months r (m, found, policy) = (
  (if p m then f m else m),
  rw
      (
        find_row-update_rows (λ x. x.month == r.month) p f (λ x. rw (same_month x) refl) months,
        found,
      )
      refl,
  ground (arith, same_policy m),
)

module _ (s : Budget) (w : IsBudget s) where
  pub bind-IsBudget : (i : Option String) → IsBudget (record s { identity = i })
  bind-IsBudget i = record {
    month_keys = w.month_keys;
    reservation_ids = w.reservation_ids;
    counted = w.counted;
    room = w.room;
    months_fine = w.months_fine;
    reservations_fine = w.reservations_fine;
    accounted = w.accounted;
  }

  pub opening-IsBudget :
      (month hash text : String) (now : ℕ)
      → month_by month s ≡ none
      → IsBudget (record s { months = new_month month hash text now ∷ s.months })
  opening-IsBudget month hash text now missing = record {
    month_keys = (find_row-none _ s.months missing, w.month_keys);
    reservation_ids = w.reservation_ids;
    counted = w.counted;
    room = w.room;
    months_fine = (
      record {
        requests = sym (empty one);
        input_bytes = sym (empty (λ r. r.input_bytes));
        reserved = sym (empty (λ r. r.reserved_micro_usd));
        accepted = sym (empty (in_state accepted));
        unknown = sym (empty (in_state State.unknown));
        read_failed = sym (empty (in_state read_failed));
        not_dispatched = sym (empty (in_state not_dispatched));
        bounded = unfold is_month in refl;
      },
      w.months_fine,
    );
    reservations_fine = w.reservations_fine;
    accounted =
        All-map s.reservations
          (λ r h. HasMonth-cons (new_month month hash text now) s.months r missing h) w.accounted;
  }
    where
      empty : (f : ReservationRow → ℕ) → tally f month s.reservations ≡ 0
      empty f =
          tally-none f month s.reservations
            (All-map s.reservations (λ r h. absent_month month s.months r missing h) w.accounted)
