-- ===== src/Routing/Executor/Reconciliation.antt =====
-- `reconcileGeneralRetirements` of saas/src/routing/general-executor.ts: the operator's loop that
-- deletes the profiles of pending retirements. The variable `dispatched` of a row is that of `Locals`.
use memory_server_worker.Prelude.{
  ℕ, ◌+◌, ◌-◌, Bool, true, false, List, [], ◌∷◌, leb, length, if◌then◌else◌,
}
use memory_server_worker.Prelude.Actions.{Action, ◌>>=◌, ◌>>◌, return, recover}
use memory_server_worker.Routing.SpaceLedger.Rows.{RetirementState, acknowledged, Identity}
use memory_server_worker.Routing.SpaceLedger.Inputs.{PendingInput, Retirement}
use memory_server_worker.Routing.Executor.Ports.{
  Failure, Ports, clock_read, signal_read, lists, finishes, deletes, Run, perform, observe, assign,
  get, reject_when,
}
use memory_server_worker.Routing.Executor.Answers.{Externals, profile_name}
use memory_server_worker.Routing.Executor.Admission.{check}
use memory_server_worker.Routing.Executor.Clearing.{finish_input}

module _ {ℓ} {S : Type ℓ} (x : Externals) (ports : Ports S) (identity : Identity) where
  unfoldable pub check_row : (deadline_ms : ℕ) → Action Failure (Run S) (Unit {0})
  check_row deadline_ms = do
    check ports
    now ← observe ports.clock clock_read
    reject_when (leb deadline_ms now) "routing_request_timeout"

  -- The `try` block: it gives whether the row is acknowledged.
  unfoldable pub delete_row : Retirement → Action Failure (Run S) Bool
  delete_row row = do
    assign (λ l. record l { dispatched = false })
    now ← observe ports.clock clock_read
    let deadline_ms = now + 15000
    check_row deadline_ms
    check_row deadline_ms
    assign (λ l. record l { dispatched = true })
    let name = profile_name x identity row.generation
    perform (ports.delete_profile name deadline_ms) (deletes name deadline_ms)
    let finish = finish_input identity row acknowledged
    perform (ports.finish_retirement finish) (finishes finish)
    return true

  -- The `catch` block.
  unfoldable pub leave_row : Retirement → Failure → Action Failure (Run S) Bool
  leave_row row failure = do
    locals ← get
    let finish = finish_input identity row RetirementState.unknown
    if locals.dispatched
        then (λ r.
            recover (λ dropped. return tt)
              (perform (ports.finish_retirement finish) (finishes finish) r))
        else return tt
    return false

  unfoldable pub reconcile_row : Retirement → Action Failure (Run S) Bool
  reconcile_row row r = recover (leave_row row) (delete_row row r)

  -- The loop, which a signal that is set leaves; `count` is `acknowledged`.
  unfoldable pub reconcile_rows :
      List Retirement → (count pending : ℕ) → Action Failure (Run S) (ℕ × ℕ)
  reconcile_rows [] count pending = return (count, pending)
  reconcile_rows (row ∷ rows) count pending = do
    aborted ← observe ports.aborted signal_read
    if aborted then return (count, pending) else (do
      done ← reconcile_row row
      if done
          then reconcile_rows rows (count + 1) (pending - 1)
          else reconcile_rows rows count pending)

  -- It gives `acknowledged` and `pending`.
  unfoldable pub reconcile_general_retirements : Action Failure (Run S) (ℕ × ℕ)
  reconcile_general_retirements = do
    check ports
    let input : PendingInput = record { identity = identity; limit = 10 }
    rows ← perform (ports.pending input) (lists input)
    reconcile_rows rows 0 (length rows)
