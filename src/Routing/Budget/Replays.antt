-- ===== src/Routing/Budget/Replays.antt =====
-- What later calls on a budget can do to a reservation.
use mathlib.Core.Path.{subst}
use memory_server_worker.Prelude.{
  ℕ, String, true, false, some, ◌==◌, nat_eq, string_eq, ◌≡◌, ◌≢◌, refl, ap, sym, ◌∙◌, arith,
  Bool-cases, inl, inr, ok, Option-cases, find_row-key, find_row-update_rows,
}
use memory_server_worker.Routing.Month.{month_at}
use memory_server_worker.Routing.SpaceLedger.Rows.{State, admitted, state_eq}
use memory_server_worker.Routing.Budget.Rows.{
  ReservationRow, Budget, month_by, reservation_by, with_state, counted,
}
use memory_server_worker.Routing.Budget.Inputs.{
  Env, ReserveInput, FinalizeInput, Reservation, canonical_policy,
}
use memory_server_worker.Routing.Budget.Reservations.{
  reservation_of, bind_identity, new_reservation, reserve_known, reserve_new, reserve_bound,
  reserve, finalize_row, finalize,
}
use memory_server_worker.Routing.Budget.Steps.{Reach}
use memory_server_worker.Routing.Budget.Refinement.Reserving.{
  reserve-eq-ok, reserve_new-eq-ok, write_reservation-eq-ok, insert_reservation-eq-ok,
  update_month-eq-ok,
}
use memory_server_worker.Routing.Budget.Refinement.Finalizing.{
  finalize-eq-ok, finalize_row-eq-ok, finalize_ends, update_reservation-eq-ok,
}
use memory_server_worker.Routing.Budget.Persistence.{reservation_by-IsLater}

write_reservation-row :
    (v : ReserveInput) (text hash : String) (now : ℕ) (s : Budget) {r : Reservation × Budget}
    → reserve_new v text hash now s ≡ ok r
    → (reservation_by v.reservation_id r.1 ≡ some (new_reservation v (month_at now) hash now))
      × (r.0 ≡ reservation_of (new_reservation v (month_at now) hash now) false)
write_reservation-row v text hash now s h =
    let (written, checked, room, same) = reserve_new-eq-ok v text hash now s h in
    let (opened, opens, charged, charges, inserts) =
      write_reservation-eq-ok (month_by (month_at now) s) v (month_at now) text hash now s
        written in
    let (fresh, valid, t-eq) =
      insert_reservation-eq-ok (new_reservation v (month_at now) hash now) charged inserts in
    (ground (arith, t-eq, string_eq.beq_iff v.reservation_id v.reservation_id), same)

-- A granted reservation, new or replayed, is that of a row.
reserve_bound-row :
    (v : ReserveInput) (text hash : String) (now : ℕ) (s : Budget) {r : Reservation × Budget}
    → reserve_bound v text hash now s ≡ ok r
    → (row : ReservationRow) × (reservation_by v.reservation_id r.1 ≡ some row)
      × (r.0 ≡ reservation_of row r.0.replayed)
unfolding reserve_bound reserve_known
reserve_bound-row v text hash now s {r} h =
    elim (Option-cases (reservation_by v.reservation_id s)) [
      | inl fresh ↦
          let run : reserve_new v text hash now s ≡ ok r = ground arith in
          let (found, same) = write_reservation-row v text hash now s run in
          (new_reservation v (month_at now) hash now, found, rw same refl)
      | inr (row, e) ↦ (row, ground arith, ground arith)
    ]

reserve-known :
    (digest : String → String) (env : Env) (v : ReserveInput) (s : Budget) {row : ReservationRow}
    {r : Reservation × Budget}
    → reservation_by v.reservation_id s ≡ some row
    → reserve digest env v s ≡ ok r
    → (r.0 ≡ reservation_of row true)
      × (r.1.months ≡ s.months)
      × (r.1.reservations ≡ s.reservations)
      × (r.1.total_reservations ≡ s.total_reservations)
unfolding bind_identity reserve_bound reserve_known
reserve-known digest env v s e h =
    let (b, bound, run) = reserve-eq-ok digest env v s h in
    (ground arith, ground arith, ground arith, ground arith)

-- A reservation is charged once. A later `reserve` with its identifier, after any calls in between,
-- is marked as a replay, gives the month, the cost and the expiry of the first, and neither charges
-- a month nor inserts a row.
pub reserve_once :
    (digest : String → String) (first later : Env) (v v' : ReserveInput) (s u : Budget)
    {r r' : Reservation × Budget}
    → reserve digest first v s ≡ ok r
    → Reach r.1 u
    → v'.reservation_id ≡ v.reservation_id
    → reserve digest later v' u ≡ ok r'
    → (r'.0.replayed ≡ true)
      × (r'.0.month ≡ r.0.month)
      × (r'.0.reserved_micro_usd ≡ r.0.reserved_micro_usd)
      × (r'.0.expires_at_ms ≡ r.0.expires_at_ms)
      × (r'.1.months ≡ u.months)
      × (r'.1.reservations ≡ u.reservations)
      × (r'.1.total_reservations ≡ u.total_reservations)
reserve_once digest first later v v' s u h path same h' =
    let (b, bound, run) = reserve-eq-ok digest first v s h in
    let (row, found, is_row) =
      reserve_bound-row v (canonical_policy v.policy) (digest (canonical_policy v.policy)) first.now
        b run in
    let (row', found', l) = reservation_by-IsLater v.reservation_id path found in
    let (again, months, rows, total) =
      reserve-known digest later v' u
        (subst (λ k. reservation_by k u ≡ some row') (sym same) found') h' in
    (
      ap (λ (t : Reservation). t.replayed) again,
      ap (λ (t : Reservation). t.month) again
          ∙ l.month
          ∙ sym (ap (λ (t : Reservation). t.month) is_row),
      ap (λ (t : Reservation). t.reserved_micro_usd) again
          ∙ l.reserved
          ∙ sym (ap (λ (t : Reservation). t.reserved_micro_usd) is_row),
      ap (λ (t : Reservation). t.expires_at_ms) again
          ∙ l.expires
          ∙ sym (ap (λ (t : Reservation). t.expires_at_ms) is_row),
      months,
      rows,
      total,
    )

finalize_row-state :
    (row : ReservationRow) (state : State) (env : Env) (s : Budget) {s' : Budget}
    → reservation_by row.reservation_id s ≡ some row
    → finalize_row row state env s ≡ ok s'
    → (row' : ReservationRow) × (reservation_by row.reservation_id s' ≡ some row')
      × (row'.state ≡ state)
finalize_row-state row state env s {s'} found h = elim (Bool-cases (row.state == state)) [
  | inl same ↦
      let kept : s' ≡ s = unfold finalize_row in ground arith in
      (row, rw kept found, (state_eq.beq_iff row.state state).0 same)
  | inr other ↦
      let (t, updated, counts, starts) = finalize_row-eq-ok row state env s other h in
      let (allowed, t-eq) = update_reservation-eq-ok row.reservation_id state env.now s updated in
      let (bounded, s'-eq) = update_month-eq-ok row.month (counted state) t counts in
      (
        with_state state env.now row,
        rw
            (
              s'-eq,
              t-eq,
              find_row-update_rows (λ x. x.reservation_id == row.reservation_id)
                  (λ x. x.reservation_id == row.reservation_id) (with_state state env.now)
                  (λ x. refl) s.reservations,
              found,
            )
            (ground (arith, string_eq.beq_iff row.reservation_id row.reservation_id)),
        refl,
      )
]

finalize-state :
    (env : Env) (v : FinalizeInput) (s : Budget) {s' : Budget}
    → finalize env v s ≡ ok s'
    → (row : ReservationRow) × (reservation_by v.reservation_id s' ≡ some row)
      × (row.state ≡ v.state)
      × (v.state ≢ admitted)
finalize-state env v s {s'} h =
    let (valid, b, bound, row, found, run) = finalize-eq-ok env v s h in
    let key : row.reservation_id ≡ v.reservation_id =
      find_row-key (λ (r : ReservationRow). r.reservation_id) v.reservation_id b.reservations
        found in
    let (row', found', state) = finalize_row-state row v.state env b (rw key found) run in
    (
      row',
      subst (λ k. reservation_by k s' ≡ some row') key found',
      state,
      λ e. absurd (let ends = finalize_ends v valid in ground (arith, e)),
    )

finalize-stuck :
    (env : Env) (v : FinalizeInput) (s : Budget) {row : ReservationRow} {s' : Budget}
    → reservation_by v.reservation_id s ≡ some row
    → row.state ≢ admitted
    → finalize env v s ≡ ok s'
    → row.state ≡ v.state
unfolding bind_identity
finalize-stuck env v s {row} found ends h =
    let (valid, b, bound, row', found', run) = finalize-eq-ok env v s h in
    let is : row' ≡ row = ground arith in
    elim (Bool-cases (row'.state == v.state)) [
      | inl same ↦
          ap (λ (r : ReservationRow). r.state) (sym is)
          ∙ (state_eq.beq_iff row'.state v.state).0 same
      | inr other ↦
          let (t, updated, counts, starts) = finalize_row-eq-ok row' v.state env b other run in
          absurd (ends (ap (λ (r : ReservationRow). r.state) (sym is) ∙ starts))
    ]

-- An outcome is final: after any calls in between, a later `finalize` of the reservation returns
-- only if it repeats the outcome.
pub finalize_once :
    (env later : Env) (v v' : FinalizeInput) (s u : Budget) {s' u' : Budget}
    → finalize env v s ≡ ok s'
    → Reach s' u
    → v'.reservation_id ≡ v.reservation_id
    → finalize later v' u ≡ ok u'
    → v'.state ≡ v.state
finalize_once env later v v' s u h path same h' =
    let (row, found, state, ends) = finalize-state env v s h in
    let (row', found', l) = reservation_by-IsLater v.reservation_id path found in
    let kept = l.final (λ e. ends (sym state ∙ e)) in
    sym (
      finalize-stuck later v' u (subst (λ k. reservation_by k u ≡ some row') (sym same) found')
        (λ e. ends (sym (kept ∙ state) ∙ e)) h')
    ∙ kept
    ∙ state
