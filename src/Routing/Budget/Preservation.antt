-- ===== src/Routing/Budget/Preservation.antt =====
-- Every step keeps the invariant of a budget, and so does every history of calls.
pub mod Months
mod Charges
mod Outcomes
use mathlib.Core.Path.{subst}
use memory_server_worker.Prelude.{
  ℕ, ◌+◌, String, Bool, true, false, not, ◌&&◌, Option, none, some, List, ◌∷◌, ◌==◌, ◌!=◌, nat_eq,
  string_eq, find_row, any_row, length, sum_rows, update_rows, All, All-map, All-both,
  All-update_rows, Distinct, Distinct-update_rows, any_row-false, find_row-none, find_row_unique,
  find_row-update_rows, find_row-key, length-update_rows, sum_rows-zero, sum_rows-same,
  sum_rows-update_rows, Bool-cases, inl, inr, if◌then◌else◌, ◌≡◌, refl, ap, sym, ◌∙◌, arith,
}
use memory_server_worker.Routing.SpaceLedger.Rows.{
  State, admitted, accepted, read_failed, not_dispatched, state_eq,
}
use memory_server_worker.Routing.SpaceLedger.Admissions.{or_else}
use memory_server_worker.Routing.Budget.Rows.{
  MonthRow, ReservationRow, Budget, initial, is_month, is_reservation, fits_usage, new_month,
  with_charge, with_state, counted, month_by, reservation_by,
}
use memory_server_worker.Routing.Budget.Inputs.{Env}
use memory_server_worker.Routing.Budget.History.{Call, run}
use memory_server_worker.Routing.Budget.Steps.{
  charge, IsCharge, IsOutcome, Step, bind, opening, charging, outcome, Reach, here, next,
}
use memory_server_worker.Routing.Budget.Refinement.{run-Reach}
use memory_server_worker.Routing.Budget.Invariant.{
  tally, one, in_state, IsMonth, HasMonth, IsBudget, initial-IsBudget,
}
use Months.{bind-IsBudget, opening-IsBudget}
use Charges.{charging-IsBudget}
use Outcomes.{outcome-IsBudget}

pub Step-IsBudget : {s s' : Budget} → Step s s' → IsBudget s → IsBudget s'
Step-IsBudget {s} (bind i e) w = rw e (bind-IsBudget s w (some (or_else s.identity i)))
Step-IsBudget {s} (opening month hash text now missing e) w =
    rw e (opening-IsBudget s w month hash text now missing)
Step-IsBudget {s} (charging m row c e) w = rw e (charging-IsBudget s w m row c)
Step-IsBudget {s} (outcome row state now c e) w = rw e (outcome-IsBudget s w row state now c)

pub Reach-IsBudget : {s s' : Budget} → Reach s s' → IsBudget s → IsBudget s'
Reach-IsBudget here w = w
Reach-IsBudget (next r st) w = Step-IsBudget st (Reach-IsBudget r w)

-- Whatever calls are made on a new budget, and whether they return or throw, the invariant holds:
-- identifiers are unique, every reservation has the month and the policy that it was charged to,
-- and each counter of a month is the sum over its reservations.
pub run-IsBudget :
    (digest : String → String) (cs : List (Env × Call)) → IsBudget (run digest initial cs)
run-IsBudget digest cs = Reach-IsBudget (run-Reach digest initial cs) initial-IsBudget
