-- ===== src/Routing/Executor/Invariants.antt =====
-- Every run of the executor keeps what each of its calls keeps.
use memory_server_worker.Prelude.{
  ℕ, String, Option, none, some, List, [], Result, ok, err, Bool-cases, inl, inr,
}
use memory_server_worker.Routing.Policy
use memory_server_worker.Routing.SpaceLedger.Rows.{Identity}
use memory_server_worker.Routing.SpaceLedger.Inputs.{Ticket, Retirement}
use memory_server_worker.Routing.Executor.Requests.{
  ClearInput, Input, ingest_request, search_request, clear_request, usage_request, is_request,
}
use memory_server_worker.Routing.Executor.Ports.{
  Failure, Authority, Ports, Event, Locals, Run, Config, start,
}
use memory_server_worker.Routing.Executor.Answers.{Body, Answer, Externals}
use memory_server_worker.Routing.Executor.Admission.{
  check, refresh, check_admission, settle_budget, record_outcome, finalize_with, finalize,
}
use memory_server_worker.Routing.Executor.Clearing.{
  report_usage, delete_profile, mark_unknown, clear_space,
}
use memory_server_worker.Routing.Executor.Dispatching.{
  Exchange, ingestion, question, replay, reserve, clear_to_dispatch, call_provider, disclose_output,
  dispatch_ticket, exchange, handle_exchange,
}
use memory_server_worker.Routing.Executor.Execution.{
  lift, parse, conclude, handle, identify, run_request, try_request, settle_failure, execute,
}
use memory_server_worker.Routing.Executor.Worlds.{IsKept, Holds, Keeps, keeps}

module _ {ℓ ι} {S : Type ℓ} (I : S → List Event → Type ι) (ports : Ports S)
    (kept : IsKept ports I) where
  check-Keeps : Keeps I (check ports)
  unfolding check
  check-Keeps = search (keeps, kept.aborted_kept)

  check_admission-Keeps :
      (config : Config) (ticket : Ticket) (expires : ℕ)
      → Keeps I (check_admission config ports ticket expires)
  unfolding check_admission
  check_admission-Keeps config ticket expires = search (keeps, check-Keeps, kept.clock_kept)

  refresh-Keeps :
      (token : String) (input : Input) (first : Authority)
      → Keeps I (refresh ports token input first)
  unfolding refresh
  refresh-Keeps token input first =
      search (keeps, check-Keeps, kept.clock_kept, kept.authority_kept) depth 12

  settle_budget-Keeps :
      (config : Config) (locals : Locals) (id : Option String)
      → Keeps I (settle_budget config ports locals id)
  unfolding settle_budget
  settle_budget-Keeps config locals none = search keeps
  settle_budget-Keeps config locals (some id) = search (keeps, kept.settle_kept)

  record_outcome-Keeps :
      (config : Config) (t : Ticket) (f : Authority) (i : Identity) (locals : Locals)
      → Keeps I (record_outcome config ports t f i locals)
  unfolding record_outcome
  record_outcome-Keeps config t f i locals =
      search (keeps, kept.finalize_kept, settle_budget-Keeps) depth 12

  finalize_with-Keeps :
      (config : Config) (t : Option Ticket) (f : Option Authority) (i : Option Identity)
      (locals : Locals)
      → Keeps I (finalize_with config ports t f i locals)
  unfolding finalize_with
  finalize_with-Keeps config none f i locals = search keeps
  finalize_with-Keeps config (some t) none i locals = search keeps
  finalize_with-Keeps config (some t) (some f) none locals = search keeps
  finalize_with-Keeps config (some t) (some f) (some i) locals =
      search (keeps, record_outcome-Keeps)

  finalize-Keeps : (config : Config) → Keeps I (finalize config ports)
  unfolding finalize
  finalize-Keeps config = search (keeps, finalize_with-Keeps)

  module _ (x : Externals) (config : Config) (token : String) (first : Authority)
      (identity : Identity) where
    report_usage-Keeps : (input : Input) → Keeps I (report_usage x ports token input first identity)
    unfolding report_usage
    report_usage-Keeps input = search (keeps, check-Keeps, refresh-Keeps, kept.usage_kept) depth 12

    delete_profile-Keeps :
        (input : Input) (retirement : Retirement)
        → Keeps I (delete_profile x ports token input first identity retirement)
    unfolding delete_profile
    delete_profile-Keeps input retirement =
        search
          (keeps, check-Keeps, refresh-Keeps, kept.clock_kept, kept.delete_kept, kept.finish_kept)
          depth 24

    mark_unknown-Keeps :
        (retirement : Retirement) (failure : Failure)
        → Keeps I (mark_unknown x ports token identity retirement failure)
    unfolding mark_unknown
    mark_unknown-Keeps retirement failure = search (keeps, kept.finish_kept) depth 12

    clear_space-Keeps : (v : ClearInput) → Keeps I (clear_space x ports token v first identity)
    unfolding clear_space
    clear_space-Keeps v =
        search
          (
            keeps, check-Keeps, refresh-Keeps, kept.retire_kept, delete_profile-Keeps,
            mark_unknown-Keeps,
          )
          depth 24

    replay-Keeps :
        (e : Exchange) (operation_id : String) (ticket : Ticket)
        → Keeps I (replay x config ports token e first operation_id ticket)
    unfolding replay
    replay-Keeps e operation_id ticket = search (keeps, refresh-Keeps)

    reserve-Keeps :
        (e : Exchange) (ticket : Ticket)
        → Keeps I (reserve x config ports token e first identity ticket)
    unfolding reserve
    reserve-Keeps e ticket =
        search (keeps, check-Keeps, check_admission-Keeps, kept.reserve_kept, kept.clock_kept) depth
          24

    clear_to_dispatch-Keeps :
        (e : Exchange) (ticket : Ticket)
        → Keeps I (clear_to_dispatch x config ports token e first identity ticket)
    unfolding clear_to_dispatch
    clear_to_dispatch-Keeps e ticket =
        search (keeps, check_admission-Keeps, refresh-Keeps, kept.check_kept, kept.clock_kept) depth
          24

    call_provider-Keeps :
        (e : Exchange) (operation_id profile : String) (deadline_ms : ℕ)
        → Keeps I (call_provider x config ports token e operation_id profile deadline_ms)
    unfolding call_provider
    call_provider-Keeps (ingestion v) operation_id profile deadline_ms =
        search (keeps, kept.ingest_kept)
    call_provider-Keeps (question v) operation_id profile deadline_ms =
        search (keeps, kept.recall_kept)

    disclose_output-Keeps :
        (e : Exchange) (current : Authority) (ticket : Ticket) (output : Body)
        → Keeps I (disclose_output x config ports token e first current identity ticket output)
    unfolding disclose_output
    disclose_output-Keeps e current ticket output =
        search (keeps, check_admission-Keeps, refresh-Keeps, kept.check_kept) depth 24

    dispatch_ticket-Keeps :
        (e : Exchange) (operation_id : String) (ticket : Ticket)
        → Keeps I (dispatch_ticket x config ports token e first identity operation_id ticket)
    unfolding dispatch_ticket
    dispatch_ticket-Keeps e operation_id ticket =
        search
          (
            keeps, reserve-Keeps, clear_to_dispatch-Keeps, call_provider-Keeps, finalize-Keeps,
            disclose_output-Keeps,
          )
          depth 24

    exchange-Keeps :
        (e : Exchange) (operation_id : String)
        → Keeps I (exchange x config ports token e first identity operation_id)
    unfolding exchange
    exchange-Keeps e operation_id =
        search (keeps, check-Keeps, kept.admit_kept, dispatch_ticket-Keeps, replay-Keeps) depth 24

    handle_exchange-Keeps :
        (e : Exchange) → Keeps I (handle_exchange x config ports token e first identity)
    unfolding handle_exchange
    handle_exchange-Keeps (ingestion v) = exchange-Keeps (ingestion v) v.operation_id
    handle_exchange-Keeps (question v) = search (keeps, kept.random_uuid_kept, exchange-Keeps)

    handle-Keeps : (input : Input) → Keeps I (handle x config ports token input first identity)
    unfolding handle
    handle-Keeps (ingest_request v) = handle_exchange-Keeps (ingestion v)
    handle-Keeps (search_request v) = handle_exchange-Keeps (question v)
    handle-Keeps (clear_request v) = clear_space-Keeps v
    handle-Keeps (usage_request v) = report_usage-Keeps (usage_request v)

  module _ (x : Externals) (config : Config) (token : String) where
    identify-Keeps : (input : Input) → Keeps I (identify x config ports token input)
    unfolding identify
    identify-Keeps input =
        search (keeps, check-Keeps, kept.authority_kept, kept.clock_kept) depth 24

    lift-Keeps : {A : Type 0} (r : Result Policy.Code A) → Keeps I (lift r)
    unfolding lift Keeps
    lift-Keeps (ok a) r w = w
    lift-Keeps (err code) r w = w

    run_request-Keeps : (input : Input) → Keeps I (run_request x config ports token input)
    unfolding run_request
    run_request-Keeps input = search (keeps, lift-Keeps, identify-Keeps, handle-Keeps) depth 24

    parse-Keeps : (given : Option Input) → Keeps I (parse x given)
    unfolding parse Keeps
    parse-Keeps none r w = w
    parse-Keeps (some input) r w = elim (Bool-cases (is_request x.is_datetime input)) [
      | inl fine ↦ rw fine w
      | inr bad ↦ rw bad w
    ]

    try_request-Keeps : (given : Option Input) → Keeps I (try_request x config ports token given)
    unfolding try_request
    try_request-Keeps given = search (keeps, check-Keeps, parse-Keeps, run_request-Keeps) depth 12

    settle_failure-Holds :
        (failure : Failure) (r : Run S)
        → Holds I r
        → Holds I (settle_failure x config ports token failure r).1
    unfolding settle_failure Keeps
    settle_failure-Holds failure r w = elim (Bool-cases r.locals.recorded) [
      | inl done ↦ simp done w
      | inr pending ↦ simp pending (finalize-Keeps config r w)
    ]

    conclude-Holds :
        (m : Result Failure Answer × Run S)
        → Holds I m.1
        → Holds I (conclude (settle_failure x config ports token) m).1
    unfolding conclude
    conclude-Holds (ok a, r) w = w
    conclude-Holds (err e, r) w = settle_failure-Holds e r w

    -- Take what every call keeps of the world and the log. If it holds of a world and the empty log,
    -- it holds of the world and the log that a run leaves.
    pub execute-Holds :
        (given : Option Input) (s : S)
        → I s []
        → let r = (execute x config ports token given s).1 in I r.world r.log
    unfolding execute Keeps
    execute-Holds given s w =
        conclude-Holds (try_request x config ports token given (start s))
          (try_request-Keeps given (start s) w)
