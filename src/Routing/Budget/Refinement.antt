-- ===== src/Routing/Budget/Refinement.antt =====
-- Every call on a budget is a sequence of the steps of `Steps`, and so is every history.
pub mod Reserving
pub mod Finalizing
use memory_server_worker.Prelude.{
  ℕ, ◌+◌, ◌<◌, String, true, false, not, ◌&&◌, Option, none, some, List, [], ◌∷◌, ◌==◌, ◌!=◌,
  nat_eq, string_eq, any_row, update_rows, ◌≡◌, refl, find_row-false, find_row-key, ap, >>=-eq-ok,
  Result, ok, err, committed, arith, Option-cases, Bool-cases, inl, inr,
}
use memory_server_worker.Routing.Month.{month_at}
use memory_server_worker.Routing.Consent.{operation_eq}
use memory_server_worker.Routing.SpaceLedger.Rows.{State, admitted, state_eq}
use memory_server_worker.Routing.Budget.Rows.{
  Error, MonthRow, ReservationRow, Budget, month_by, reservation_by, new_month, insert_month,
  is_month, is_reservation, update_month, insert_reservation, update_reservation,
  forbids_transition, fits_usage, with_charge, with_state, counted,
}
use memory_server_worker.Routing.Budget.Inputs.{
  Env, ReserveInput, FinalizeInput, Reservation, Usage, is_finalize, canonical_policy,
}
use memory_server_worker.Routing.Budget.Reservations.{
  reservation_of, write_reservation, check_month, usage_of, bind_identity, reserve_known,
  reserve_new, reserve_bound, reserve, finalize_row, finalize, usage, open_month, new_reservation,
  cost_of, column, conflicts,
}
use memory_server_worker.Routing.Budget.History.{
  Call, reserves, finalizes, reports, settled, step, run,
}
use memory_server_worker.Routing.Budget.Steps.{
  charge, Step, bind, opening, charging, outcome, Reach, here, next, Reach-trans,
}
use Reserving.{bind_identity-Reach, reserve-Reach}
use Finalizing.{finalize-Reach, usage-eq-ok}

settled-Reach :
    (s : Budget) (r : Result Error Budget)
    → ((s' : Budget) → r ≡ ok s' → Reach s s')
    → Reach s (settled s r)
settled-Reach s (ok s') h = h s' refl
settled-Reach s (err e) h = here

committed-Reach :
    {A : Type 0} (s : Budget) (r : Result Error (A × Budget))
    → ((a : A × Budget) → r ≡ ok a → Reach s a.1)
    → Reach s (committed s r)
committed-Reach s (ok a) h = h a refl
committed-Reach s (err e) h = here

step-Reach : (digest : String → String) (s : Budget) (c : Env × Call) → Reach s (step digest s c)
unfolding step
step-Reach digest s (env, reserves v) =
    committed-Reach s (reserve digest env v s) (λ a h. reserve-Reach digest env v s h)
step-Reach digest s (env, finalizes v) =
    settled-Reach s (finalize env v s) (λ a h. finalize-Reach env v s h)
step-Reach digest s (env, reports i) =
    committed-Reach s (usage env i s) (λ a h. bind_identity-Reach env i s (usage-eq-ok env i s h).0)

-- Whatever calls are made on a budget, and whether they return or throw, what they leave is
-- reached by steps of the relation.
pub run-Reach :
    (digest : String → String) (s : Budget) (cs : List (Env × Call)) → Reach s (run digest s cs)
unfolding run
run-Reach digest s [] = here
run-Reach digest s (c ∷ cs) =
    Reach-trans (step-Reach digest s c) (run-Reach digest (step digest s c) cs)
