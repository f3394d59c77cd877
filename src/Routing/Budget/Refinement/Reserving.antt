-- ===== src/Routing/Budget/Refinement/Reserving.antt =====
-- What a successful `reserve` has gone through, and its sequence of steps.
use memory_server_worker.Prelude.{
  ℕ, ◌+◌, ◌<◌, String, true, false, not, ◌&&◌, Option, none, some, ◌∷◌, ◌==◌, nat_eq, string_eq,
  any_row, update_rows, ◌≡◌, refl, ap, >>=-eq-ok, ok, arith, Option-cases, inl, inr,
}
use memory_server_worker.Routing.Month.{month_at}
use memory_server_worker.Routing.Consent.{operation_eq}
use memory_server_worker.Routing.SpaceLedger.Rows.{admitted, state_eq}
use memory_server_worker.Routing.Budget.Rows.{
  MonthRow, ReservationRow, Budget, month_by, reservation_by, new_month, insert_month, is_month,
  is_reservation, update_month, insert_reservation, with_charge,
}
use memory_server_worker.Routing.Budget.Inputs.{Env, ReserveInput, Reservation, canonical_policy}
use memory_server_worker.Routing.Budget.Reservations.{
  reservation_of, write_reservation, check_month, bind_identity, reserve_known, reserve_new,
  reserve_bound, reserve, open_month, new_reservation, cost_of, column, conflicts,
}
use memory_server_worker.Routing.Budget.History.{run}
use memory_server_worker.Routing.Budget.Steps.{
  charge, Step, bind, opening, charging, Reach, here, next, Reach-trans,
}

pub bind_identity-Reach :
    (env : Env) (i : String) (s : Budget) {t : Budget} → bind_identity env i s ≡ ok t → Reach s t
unfolding bind_identity
bind_identity-Reach env i s h = next here (bind i (ground arith))

-- The charge that `reserve_new` computes from the row of the month.
abbrev pub charge_of : Option MonthRow → ReserveInput → MonthRow → MonthRow
charge_of current v =
    with_charge (column (λ m. m.requests) current + 1)
      (column (λ m. m.input_bytes) current + v.input_bytes)
      (column (λ m. m.reserved_micro_usd) current + cost_of v)

pub reserve_new-eq-ok :
    (v : ReserveInput) (text hash : String) (now : ℕ) (s : Budget) {r : Reservation × Budget}
    → reserve_new v text hash now s ≡ ok r
    → (write_reservation (month_by (month_at now) s) v (month_at now) text hash now s ≡ ok r.1)
      × (check_month (month_by (month_at now) s) v hash ≡ ok tt)
      × (s.total_reservations < 1_000_000)
      × (r.0 ≡ reservation_of (new_reservation v (month_at now) hash now) false)
unfolding reserve_new
reserve_new-eq-ok v text hash now s h = ground arith

check_month-eq-ok :
    (current : Option MonthRow) (v : ReserveInput) (hash : String)
    → check_month current v hash ≡ ok tt
    → conflicts current hash ≡ false
unfolding check_month
check_month-eq-ok current v hash h = ground arith

pub write_reservation-eq-ok :
    (current : Option MonthRow) (v : ReserveInput) (month text hash : String) (now : ℕ) (s : Budget)
    {s' : Budget}
    → write_reservation current v month text hash now s ≡ ok s'
    → (opened : Budget) × (open_month current month hash text now s ≡ ok opened)
      × (charged : Budget) × (update_month month (charge_of current v) opened ≡ ok charged)
      × (insert_reservation (new_reservation v month hash now) charged ≡ ok s')
unfolding write_reservation
write_reservation-eq-ok current v month text hash now s h =
    let (opened, opens, rest) = >>=-eq-ok (open_month current month hash text now s) _ h in
    let (charged, charges, inserts) =
      >>=-eq-ok (update_month month (charge_of current v) opened) _ rest in
    (opened, opens, charged, charges, inserts)

pub reserve_known-eq-ok :
    (row : ReservationRow) (v : ReserveInput) (hash : String) (s : Budget)
    {r : Reservation × Budget}
    → reserve_known row v hash s ≡ ok r
    → r.1 ≡ s
unfolding reserve_known
reserve_known-eq-ok row v hash s h = ground arith

-- A month that is there, or is inserted.
pub open_month-Reach :
    (month hash text : String) (now : ℕ) (s : Budget) {t : Budget}
    → open_month (month_by month s) month hash text now s ≡ ok t
    → conflicts (month_by month s) hash ≡ false
    → (m : MonthRow) × Reach s t
      × (month_by month t ≡ some m)
      × (m.policy_hash ≡ hash)
      × (m.requests ≡ column (λ x. x.requests) (month_by month s))
      × (m.input_bytes ≡ column (λ x. x.input_bytes) (month_by month s))
      × (m.reserved_micro_usd ≡ column (λ x. x.reserved_micro_usd) (month_by month s))
      × (t.total_reservations ≡ s.total_reservations)
      × (t.reservations ≡ s.reservations)
unfolding open_month insert_month
open_month-Reach month hash text now s {t} h fits = elim (Option-cases (month_by month s)) [
  | inl e ↦ (
    new_month month hash text now,
    next here (opening month hash text now e (ground arith)),
    ground (arith, string_eq.beq_iff month month),
    refl,
    rw e refl,
    rw e refl,
    rw e refl,
    ground arith,
    ground arith,
  )
  | inr (m, e) ↦
      let same : t ≡ s = ground arith in
      (
        m,
        rw same here,
        rw same e,
        ground (arith, string_eq.beq_iff m.policy_hash hash),
        rw e refl,
        rw e refl,
        rw e refl,
        ap (λ (b : Budget). b.total_reservations) same,
        ap (λ (b : Budget). b.reservations) same,
      )
]

pub update_month-eq-ok :
    (month : String) (f : MonthRow → MonthRow) (s : Budget) {t : Budget}
    → update_month month f s ≡ ok t
    → (any_row (λ m. m.month == month && not (is_month (f m))) s.months ≡ false)
      × (t ≡ record s { months = update_rows (λ m. m.month == month) f s.months })
unfolding update_month
update_month-eq-ok month f s h = ground arith

pub insert_reservation-eq-ok :
    (row : ReservationRow) (s : Budget) {t : Budget}
    → insert_reservation row s ≡ ok t
    → (reservation_by row.reservation_id s ≡ none)
      × (is_reservation row ≡ true)
      × (t ≡ record s {
        reservations = row ∷ s.reservations;
        total_reservations = s.total_reservations + 1;
      })
unfolding insert_reservation
insert_reservation-eq-ok row s h = (ground arith, ground arith, ground arith)

-- The two writes to an open month are one step.
charging-Step :
    (m : MonthRow) (row : ReservationRow) (f : MonthRow → MonthRow) (s : Budget) {t u : Budget}
    → f ≡ charge m row
    → month_by row.month s ≡ some m
    → m.policy_hash ≡ row.policy_hash
    → row.state ≡ admitted
    → s.total_reservations < 1_000_000
    → update_month row.month f s ≡ ok t
    → insert_reservation row t ≡ ok u
    → Step s u
charging-Step m row f s {t} {u} same found policy starts room updated inserted =
    let (bounded, t-eq) = update_month-eq-ok row.month f s updated in
    let (fresh, valid, u-eq) = insert_reservation-eq-ok row t inserted in
    charging m row
      (record {
        found = found;
        same_policy = policy;
        starts = starts;
        fresh = rw t-eq at fresh;
        valid = valid;
        room = room;
        bounded = rw same at bounded;
      })
      (rw (u-eq, t-eq, same) refl)

write_reservation-Reach :
    (v : ReserveInput) (month text hash : String) (now : ℕ) (s : Budget) {s' : Budget}
    → conflicts (month_by month s) hash ≡ false
    → s.total_reservations < 1_000_000
    → write_reservation (month_by month s) v month text hash now s ≡ ok s'
    → Reach s s'
write_reservation-Reach v month text hash now s fits room h =
    let (opened, opens, charged, charges, inserts) =
      write_reservation-eq-ok (month_by month s) v month text hash now s h in
    let (m, reach, found, policy, requests, bytes, reserved, total, rows) =
      open_month-Reach month hash text now s opens fits in
    next reach (
      charging-Step m (new_reservation v month hash now) (charge_of (month_by month s) v) opened
        (rw (requests, bytes, reserved) refl) found policy refl (rw total room) charges inserts)

reserve_bound-Reach :
    (v : ReserveInput) (text hash : String) (now : ℕ) (s : Budget) {r : Reservation × Budget}
    → reserve_bound v text hash now s ≡ ok r
    → Reach s r.1
unfolding reserve_bound
reserve_bound-Reach v text hash now s {r} h =
    elim (Option-cases (reservation_by v.reservation_id s)) [
      | inl fresh ↦
          let run : reserve_new v text hash now s ≡ ok r = ground arith in
          let (written, fits, room, same) = reserve_new-eq-ok v text hash now s run in
          write_reservation-Reach v (month_at now) text hash now s
            (check_month-eq-ok (month_by (month_at now) s) v hash fits) room written
      | inr (row, e) ↦
          let run : reserve_known row v hash s ≡ ok r = ground arith in
          rw (reserve_known-eq-ok row v hash s run) here
    ]

pub reserve-eq-ok :
    (digest : String → String) (env : Env) (v : ReserveInput) (s : Budget)
    {r : Reservation × Budget}
    → reserve digest env v s ≡ ok r
    → (b : Budget) × (bind_identity env v.budget_id s ≡ ok b)
      × (reserve_bound v (canonical_policy v.policy) (digest (canonical_policy v.policy)) env.now b
          ≡ ok r)
unfolding reserve
reserve-eq-ok digest env v s h = ground arith

pub reserve-Reach :
    (digest : String → String) (env : Env) (v : ReserveInput) (s : Budget)
    {r : Reservation × Budget}
    → reserve digest env v s ≡ ok r
    → Reach s r.1
reserve-Reach digest env v s h =
    let (b, bound, run) = reserve-eq-ok digest env v s h in
    Reach-trans (bind_identity-Reach env v.budget_id s bound) (
      reserve_bound-Reach v (canonical_policy v.policy) (digest (canonical_policy v.policy)) env.now
        b run)
