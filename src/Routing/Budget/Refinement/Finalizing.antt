-- ===== src/Routing/Budget/Refinement/Finalizing.antt =====
-- What a successful `finalize` or `usage` has gone through, and its sequence of steps.
use memory_server_worker.Prelude.{
  ℕ, String, true, false, ◌&&◌, some, ◌==◌, ◌!=◌, nat_eq, string_eq, any_row, update_rows, ◌≡◌,
  refl, find_row-false, find_row-key, ok, arith, Bool-cases, inl, inr,
}
use memory_server_worker.Routing.Month.{month_at}
use memory_server_worker.Routing.Consent.{operation_eq}
use memory_server_worker.Routing.SpaceLedger.Rows.{State, admitted, state_eq}
use memory_server_worker.Routing.Budget.Rows.{
  ReservationRow, Budget, month_by, reservation_by, update_month, update_reservation,
  forbids_transition, fits_usage, with_state, counted,
}
use memory_server_worker.Routing.Budget.Inputs.{Env, FinalizeInput, Usage, is_finalize}
use memory_server_worker.Routing.Budget.Reservations.{
  usage_of, bind_identity, finalize_row, finalize, usage,
}
use memory_server_worker.Routing.Budget.History.{run}
use memory_server_worker.Routing.Budget.Steps.{outcome, Reach, here, next, Reach-trans}
use memory_server_worker.Routing.Budget.Refinement.Reserving.{
  update_month-eq-ok, bind_identity-Reach,
}

pub finalize_row-eq-ok :
    (row : ReservationRow) (state : State) (env : Env) (s : Budget) {s' : Budget}
    → (row.state == state) ≡ false
    → finalize_row row state env s ≡ ok s'
    → (settled : Budget) × (update_reservation row.reservation_id state env.now s ≡ ok settled)
      × (update_month row.month (counted state) settled ≡ ok s')
      × (row.state ≡ admitted)
unfolding finalize_row
finalize_row-eq-ok row state env s other h = ground arith

pub update_reservation-eq-ok :
    (id : String) (state : State) (now : ℕ) (s : Budget) {t : Budget}
    → update_reservation id state now s ≡ ok t
    → (any_row (λ r. r.reservation_id == id && forbids_transition state r) s.reservations ≡ false)
      × (t ≡ record s {
        reservations =
            update_rows (λ r. r.reservation_id == id) (with_state state now) s.reservations;
      })
unfolding update_reservation
update_reservation-eq-ok id state now s h = ground arith

allowed_fits :
    (row : ReservationRow) (state : State)
    → (row.reservation_id == row.reservation_id && forbids_transition state row) ≡ false
    → fits_usage row.operation row.input_bytes row.message_count state ≡ true
unfolding forbids_transition
allowed_fits row state h = ground (arith, string_eq.beq_iff row.reservation_id row.reservation_id)

finalize_row-Reach :
    (row : ReservationRow) (state : State) (env : Env) (s : Budget) {s' : Budget}
    → reservation_by row.reservation_id s ≡ some row
    → (state != admitted) ≡ true
    → finalize_row row state env s ≡ ok s'
    → Reach s s'
finalize_row-Reach row state env s {s'} found ends h = elim (Bool-cases (row.state == state)) [
  | inl same ↦ let same_budget : s' ≡ s = unfold finalize_row in ground arith in rw same_budget here
  | inr other ↦
      let (t, updated, counts, starts) = finalize_row-eq-ok row state env s other h in
      let (allowed, t-eq) = update_reservation-eq-ok row.reservation_id state env.now s updated in
      let (bounded, s'-eq) = update_month-eq-ok row.month (counted state) t counts in
      next here (
        outcome row state env.now
          (record {
            found = found;
            starts = starts;
            ends = ends;
            fits = allowed_fits row state (find_row-false _ _ s.reservations found allowed);
            bounded = rw t-eq at bounded;
          })
          (rw (s'-eq, t-eq) refl))
]

-- The row that `finalize` has found.
pub finalize-eq-ok :
    (env : Env) (v : FinalizeInput) (s : Budget) {s' : Budget}
    → finalize env v s ≡ ok s'
    → (is_finalize v ≡ true)
      × (b : Budget) × (bind_identity env v.budget_id s ≡ ok b)
      × (row : ReservationRow) × (reservation_by v.reservation_id b ≡ some row)
      × (finalize_row row v.state env b ≡ ok s')
unfolding finalize
finalize-eq-ok env v s h = ground arith

pub finalize_ends : (v : FinalizeInput) → is_finalize v ≡ true → (v.state != admitted) ≡ true
unfolding is_finalize
finalize_ends v h = ground arith

pub finalize-Reach :
    (env : Env) (v : FinalizeInput) (s : Budget) {s' : Budget}
    → finalize env v s ≡ ok s'
    → Reach s s'
finalize-Reach env v s h =
    let (valid, b, bound, row, found, run) = finalize-eq-ok env v s h in
    let key : row.reservation_id ≡ v.reservation_id =
      find_row-key (λ (r : ReservationRow). r.reservation_id) v.reservation_id b.reservations
        found in
    Reach-trans (bind_identity-Reach env v.budget_id s bound)
      (finalize_row-Reach row v.state env b (rw key found) (finalize_ends v valid) run)

pub usage-eq-ok :
    (env : Env) (budget_id : String) (s : Budget) {r : Usage × Budget}
    → usage env budget_id s ≡ ok r
    → (bind_identity env budget_id s ≡ ok r.1)
      × (r.0 ≡ usage_of (month_at env.now) (month_by (month_at env.now) r.1))
unfolding usage
usage-eq-ok env budget_id s h = (ground arith, ground arith)
