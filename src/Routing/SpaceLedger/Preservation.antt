-- ===== src/Routing/SpaceLedger/Preservation.antt =====
-- Every step keeps the invariant of a Space ledger, and so does every history of calls.
mod Operations
mod Retirements
use mathlib.Core.Path.{subst}
use memory_server_worker.Prelude.{
  sym, count_rows, ℕ, suc, String, Bool, true, false, ◌&&◌, Option, none, some, List, ◌∷◌, ◌==◌,
  nat_eq, string_eq, length, any_row, update_rows, All, All-map, All-both, All-update_rows,
  Distinct-update_rows, any_row-false, any_row-update_rows, find_row-none, find_row_unique,
  count_rows-zero, length-update_rows, ◌≡◌, refl, ap, arith,
}
use memory_server_worker.Routing.Consent.{operation_eq}
use memory_server_worker.Routing.SpaceLedger.Rows.{
  retirement_at, State, RetirementState, acknowledged, Identity, OperationRow, RetirementRow,
  Ledger, initial, state_eq, retirement_eq, forbids_transition, with_state, with_outcome,
}
use memory_server_worker.Routing.SpaceLedger.Inputs.{Env}
use memory_server_worker.Routing.SpaceLedger.Admissions.{or_else}
use memory_server_worker.Routing.SpaceLedger.Retirements.{in_flight}
use memory_server_worker.Routing.SpaceLedger.History.{Call, run}
use memory_server_worker.Routing.SpaceLedger.Steps.{
  IsNewOperation, IsNewRetirement, Step, bind, admission, outcome, retirement, purge, listing,
  cursor, Reach, here, next,
}
use memory_server_worker.Routing.SpaceLedger.Refinement.{run-Reach}
use memory_server_worker.Routing.SpaceLedger.Invariant.{
  current, Counted, IsOperation, IsRetirement, IsSettled, CursorFits, IsLedger, initial-IsLedger,
}
use Operations.{admission-IsLedger, bind-IsLedger, outcome-IsLedger}
use Retirements.{retirement-IsLedger, purge-IsLedger, cursor-IsLedger}

listing_fits :
    (c : Option ℕ) (rows : List RetirementRow)
    → CursorFits c rows
    → CursorFits (some (or_else c 0)) rows
listing_fits none rows h = (omega arith, refl)
listing_fits (some g) rows h = h

pub Step-IsLedger : {s s' : Ledger} → Step s s' → IsLedger s → IsLedger s'
Step-IsLedger {s} (bind i e) w = rw e (bind-IsLedger s w (some (or_else s.identity i)))
Step-IsLedger {s} (admission row n e) w = rw e (admission-IsLedger s w row n)
Step-IsLedger {s} (outcome id state now allowed e) w =
    rw e (outcome-IsLedger s w id state now allowed)
Step-IsLedger {s} (retirement row n e) w = rw e (retirement-IsLedger s w row n)
Step-IsLedger {s} (purge row state now found allowed drained e) w =
    rw e (purge-IsLedger s w row state now found drained)
Step-IsLedger {s} (listing g same e) w =
    rw (e, same)
      (cursor-IsLedger s w (some (or_else s.cursor 0))
        (listing_fits s.cursor s.retirements w.cursor_fits))
Step-IsLedger {s} (cursor g le fits e) w = rw e (cursor-IsLedger s w (some g) (le, fits))

pub Reach-IsLedger : {s s' : Ledger} → Reach s s' → IsLedger s → IsLedger s'
Reach-IsLedger here w = w
Reach-IsLedger (next r st) w = Step-IsLedger st (Reach-IsLedger r w)

-- Whatever calls are made on a new ledger, and whether they return or throw, the invariant holds.
pub run-IsLedger : (cs : List (Env × Call)) → IsLedger (run initial cs)
run-IsLedger cs = Reach-IsLedger (run-Reach initial cs) initial-IsLedger
