-- ===== src/Routing/SpaceLedger/Refinement.antt =====
-- Every call on a Space ledger is a sequence of the steps of `Steps`, and so is every history.
pub mod Admissions
pub mod Retirements
use memory_server_worker.Prelude.{
  ℕ, suc, ◌+◌, ◌≤◌, ◌<◌, String, Bool, true, false, not, ◌&&◌, ◌||◌, Option, none, some, List, [],
  ◌∷◌, leb, ltb, ◌==◌, ◌!=◌, nat_eq, string_eq, length, count_rows, any_row, update_rows, ◌≡◌, refl,
  Result, ok, err, reject_if, ◌>>=◌, ◌>>◌, Post, Post-bind, Post-reject, Post-if, arith,
  Option-cases, Bool-cases, inl, inr,
}
use memory_server_worker.Routing.Consent.{Operation, memory_ingest, memory_search, operation_eq}
use memory_server_worker.Routing.Month.{iso_month}
use memory_server_worker.Routing.SpaceLedger.Rows.{
  State, admitted, read_failed, RetirementState, pending, acknowledged, Error, Identity,
  OperationRow, RetirementRow, Ledger, state_eq, retirement_eq, operation_by, operation_at,
  retirement_by, retirement_at, forbids_transition, forbids_outcome, with_state, with_outcome,
  insert_operation, update_operation, insert_retirement, update_retirement, update_cursor,
}
use memory_server_worker.Routing.SpaceLedger.Inputs.{
  Env, AdmitInput, CheckInput, FinalizeInput, RetireInput, PendingInput, FinishInput, Ticket,
  Retirement, Usage, fits_operation, is_admit, is_final, is_finalize, is_outcome, is_finish,
}
use memory_server_worker.Routing.SpaceLedger.Admissions.{
  or_else, bind_identity, is_full, new_operation, admit_new, admit_known, admit_bound, admit,
  load_ticket, check, finalize_row, finalize, clock, authority,
}
use memory_server_worker.Routing.SpaceLedger.Retirements.{
  new_retirement, retire_new, retire_known, retire_bound, retire, in_flight, advance_cursor,
  last_generation, pending_rows, list_pending, finish_row, finish_retirement, usage, usage_of,
}
use memory_server_worker.Routing.SpaceLedger.History.{
  Call, admits, checks, finalizes, retires, lists, finishes, reports, step, run,
}
use memory_server_worker.Routing.SpaceLedger.Steps.{
  IsNewOperation, IsNewRetirement, Step, bind, admission, outcome, retirement, purge, listing,
  cursor, Reach, here, next, one, Reach-trans,
}
use memory_server_worker.Prelude.{committed}
use memory_server_worker.Routing.SpaceLedger.History.{settled}
use Admissions.{admit-Reach, check-Reach, finalize-Reach}
use Retirements.{retire-Reach, list_pending-Reach, finish_retirement-Reach, usage-Reach}

settled-Reach :
    (s : Ledger) (r : Result Error Ledger)
    → ((s' : Ledger) → r ≡ ok s' → Reach s s')
    → Reach s (settled s r)
settled-Reach s (ok s') h = h s' refl
settled-Reach s (err e) h = here

committed-Reach :
    {A : Type 0} (s : Ledger) (r : Result Error (A × Ledger))
    → ((a : A × Ledger) → r ≡ ok a → Reach s a.1)
    → Reach s (committed s r)
committed-Reach s (ok a) h = h a refl
committed-Reach s (err e) h = here

-- Whether a call returns or throws, what it leaves is reached by steps.
pub step-Reach : (s : Ledger) (c : Env × Call) → Reach s (step s c)
unfolding step
step-Reach s (env, admits v) = committed-Reach s (admit env v s) (λ a h. admit-Reach env v s h)
step-Reach s (env, checks v) = settled-Reach s (check env v s) (λ a h. check-Reach env v s h)
step-Reach s (env, finalizes v) =
    settled-Reach s (finalize env v s) (λ a h. finalize-Reach env v s h)
step-Reach s (env, retires v) = committed-Reach s (retire env v s) (λ a h. retire-Reach env v s h)
step-Reach s (env, lists v) =
    committed-Reach s (list_pending env v s) (λ a h. list_pending-Reach env v s h)
step-Reach s (env, finishes v) =
    settled-Reach s (finish_retirement env v s) (λ a h. finish_retirement-Reach env v s h)
step-Reach s (env, reports i) = committed-Reach s (usage env i s) (λ a h. usage-Reach env i s h)

-- A history of calls is a sequence of steps of the relation.
pub run-Reach : (s : Ledger) (cs : List (Env × Call)) → Reach s (run s cs)
unfolding run
run-Reach s [] = here
run-Reach s (c ∷ cs) = Reach-trans (step-Reach s c) (run-Reach (step s c) cs)
