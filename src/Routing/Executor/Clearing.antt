-- ===== src/Routing/Executor/Clearing.antt =====
-- The branches of the executor for `memory_usage` and `memory_clear_space`
-- (saas/src/routing/general-executor.ts).
use memory_server_worker.Prelude.{
  ◌+◌, min, String, true, false, not, some, leb, ◌==◌, if◌then◌else◌,
}
use memory_server_worker.Prelude.Actions.{Action, ◌>>=◌, ◌>>◌, return, recover}
use memory_server_worker.Routing.SpaceLedger.Rows.{
  RetirementState, acknowledged, Identity, retirement_eq,
}
use memory_server_worker.Routing.SpaceLedger.Inputs.{RetireInput, FinishInput, Retirement}
use memory_server_worker.Routing.Executor.Requests.{ClearInput, Input, clear_request, space_of}
use memory_server_worker.Routing.Executor.Ports.{
  Failure, Authority, Ports, clock_read, retires, finishes, reports, deletes, payload, Locals, Run,
  perform, observe, assign, get, reject_when,
}
use memory_server_worker.Routing.Executor.Answers.{
  usage_body, retired_body, Answer, Externals, profile_name, actor_of,
}
use memory_server_worker.Routing.Executor.Admission.{check, refresh}

abbrev pub finish_input : Identity → Retirement → RetirementState → FinishInput
finish_input identity retirement state = record {
  identity = identity;
  retirement_id = retirement.id;
  state = state;
}

abbrev pub with_retirement : Retirement → Locals → Locals
with_retirement retirement l = record l {
  retirement = some retirement;
  acknowledged = retirement.state == acknowledged;
  cleanup_pending = not (retirement.state == acknowledged);
}

module _ {ℓ} {S : Type ℓ} (x : Externals) (ports : Ports S) (token : String) where
  unfoldable pub report_usage :
      Input → (first : Authority) → Identity → Action Failure (Run S) Answer
  report_usage input first identity = do
    usage ← perform (ports.usage identity) (reports identity)
    check ports
    current ← refresh ports token input first
    return (record { is_ok = true; body = usage_body (space_of input) usage })

  -- The `try` block around the deletion of a profile.
  unfoldable pub delete_profile :
      Input → (first : Authority) → Identity → Retirement → Action Failure (Run S) (Unit {0})
  delete_profile input first identity retirement = do
    current ← refresh ports token input first
    let name = profile_name x identity retirement.generation
    check ports
    now ← observe ports.clock clock_read
    let deadline_ms = min current.authority_expires_at_ms (now + 15000)
    again ← observe ports.clock clock_read
    reject_when (leb deadline_ms again) "routing_authority_expired"
    assign (λ l. record l { dispatched = true })
    perform (ports.delete_profile name deadline_ms) (deletes name deadline_ms)
    assign (λ l. record l { acknowledged = true })
    let finish = finish_input identity retirement acknowledged
    perform (ports.finish_retirement finish) (finishes finish)
    assign (λ l. record l { cleanup_pending = false })

  -- Its `catch` block, whose own failure is dropped.
  unfoldable pub mark_unknown : Identity → Retirement → Failure → Action Failure (Run S) (Unit {0})
  mark_unknown identity retirement failure = do
    locals ← get
    let finish = finish_input identity retirement RetirementState.unknown
    if locals.dispatched
        then (λ r.
            recover (λ dropped. return tt)
              (perform (ports.finish_retirement finish) (finishes finish) r))
        else return tt

  unfoldable pub clear_space :
      ClearInput → (first : Authority) → Identity → Action Failure (Run S) Answer
  clear_space v first identity = do
    let input = clear_request v
    assign (λ l. record l { operation_id = some v.operation_id })
    check ports
    let retire : RetireInput = record {
      identity = identity;
      actor = actor_of first;
      operation_id = v.operation_id;
      payload_hash = x.digest (payload input);
      authority_expires_at_ms = first.authority_expires_at_ms;
    }
    retirement ← perform (ports.retire retire) (retires retire)
    assign (with_retirement retirement)
    check ports
    if retirement.may_dispatch
        then (λ r.
            recover (mark_unknown identity retirement)
              (delete_profile input first identity retirement r))
        else return tt
    current ← refresh ports token input first
    locals ← get
    return (record {
      is_ok = true;
      body =
          retired_body v.operation_id retirement.next_generation (not retirement.may_dispatch)
            locals.dispatched locals.acknowledged locals.cleanup_pending;
    })
