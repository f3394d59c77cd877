-- ===== src/Routing/Executor/Execution.antt =====
-- `createGeneralExecutor` of saas/src/routing/general-executor.ts: the `try` block that checks a
-- request and runs it, and the `catch` block.
use memory_server_worker.Prelude.{
  String, Bool, false, not, ◌||◌, Option, none, some, List, [], ◌∷◌, leb, ◌!=◌, string_eq, contains,
  Result, ok, err, if◌then◌else◌,
}
use memory_server_worker.Prelude.Actions.{Action, ◌>>=◌, ◌>>◌, return}
use memory_server_worker.Routing.Consent.{is_some}
use memory_server_worker.Routing.Policy
use memory_server_worker.Routing.Policy.{
  Decision, Restriction, seoul, agent_memory, route_eq, resolve_memory_route,
}
use memory_server_worker.Routing.SpaceLedger.Rows.{Identity}
use memory_server_worker.Routing.Executor.Requests.{
  kind_eq, Input, ingest_request, search_request, clear_request, usage_request, kind_of, routing_of,
  space_of, has_mode, is_request,
}
use memory_server_worker.Routing.Executor.Ports.{
  Failure, Authority, Ports, clock_read, authority_asked, Run, Config, start, is_config, perform,
  observe, assign, reject_when,
}
use memory_server_worker.Routing.Executor.Answers.{
  Answer, Externals, policy_failure, is_general, error_answer,
}
use memory_server_worker.Routing.Executor.Admission.{check, finalize}
use memory_server_worker.Routing.Executor.Clearing.{report_usage, clear_space}
use memory_server_worker.Routing.Executor.Dispatching.{ingestion, question, handle_exchange}

-- A result of code that has no state.
unfoldable pub lift {ℓ κ} : {S : Type ℓ} {A : Type κ} → Result Policy.Code A → Action Failure S A
lift (ok a) s = (ok a, s)
lift (err code) s = (err (policy_failure code), s)

abbrev pub inherited : Config → Input → List Restriction
inherited config input =
    if contains (space_of input) config.seoul_space_ids
    then record { route = seoul; requires_seoul = false } ∷ []
    else []

abbrev pub identity_of : Config → Authority → Identity
identity_of config first = record {
  space_id = first.space_id;
  owner_kind = first.owner_kind;
  owner_id = first.owner_id;
  provider_account_id = config.provider_account_id;
  provider_namespace = config.provider_namespace;
}

abbrev pub is_disabled : Config → Input → Policy.Plan → Bool
is_disabled config input plan =
    plan.route != agent_memory
    || not (is_general (routing_of input).classification)
    || is_some (routing_of input).consent
    || not (contains (space_of input) config.allowed_space_ids)

-- `none` is an operation with arguments of another shape.
unfoldable pub parse {ℓ} : {S : Type ℓ} → Externals → Option Input → Action Failure S Input
parse x none s = (err (some "routing_request_invalid"), s)
parse x (some input) s =
    if is_request x.is_datetime input
    then (ok input, s)
    else (err (some "routing_request_invalid"), s)

-- `try { body } catch { handler }`, where the handler does not throw.
unfoldable pub conclude {ℓ κ} :
    {S : Type ℓ} {A : Type κ} → (Failure → S → A × S) → Result Failure A × S → A × S
conclude handler (ok a, s) = (a, s)
conclude handler (err e, s) = handler e s

module _ {ℓ} {S : Type ℓ} (x : Externals) (config : Config) (ports : Ports S) (token : String) where
  unfoldable pub handle : Input → (first : Authority) → Identity → Action Failure (Run S) Answer
  handle (ingest_request v) first identity =
      handle_exchange x config ports token (ingestion v) first identity
  handle (search_request v) first identity =
      handle_exchange x config ports token (question v) first identity
  handle (clear_request v) first identity = clear_space x ports token v first identity
  handle (usage_request v) first identity =
      report_usage x ports token (usage_request v) first identity

  -- The first authority, and the identity that it gives.
  unfoldable pub identify : Input → Action Failure (Run S) Authority
  identify input = do
    first ←
        perform (ports.authority token (space_of input) (kind_of input))
          (authority_asked token (space_of input) (kind_of input))
    assign (λ l. record l { first = some first })
    check ports
    reject_when (first.space_id != space_of input || first.operation != kind_of input)
        "routing_authority_expired"
    now ← observe ports.clock clock_read
    reject_when (leb first.authority_expires_at_ms now) "routing_authority_expired"
    assign (λ l. record l { identity = some (identity_of config first) })
    return first

  unfoldable pub run_request : Input → Action Failure (Run S) Answer
  run_request input = do
    reject_when (has_mode input) "routing_search_mode_unavailable"
    plan ← lift (resolve_memory_route (routing_of input) (inherited config input))
    reject_when (is_disabled config input plan) "routing_space_not_enabled"
    first ← identify input
    handle input first (identity_of config first)

  -- The `try` block.
  unfoldable pub try_request : Option Input → Action Failure (Run S) Answer
  try_request given = do check ports; input ← parse x given; run_request input

  -- The `catch` block: the outcome is recorded if that has not been done, and no failure of that shows.
  unfoldable pub settle_failure : Failure → Run S → Answer × Run S
  settle_failure failure r =
      let r' = if r.locals.recorded then r else (finalize config ports r).1 in
      (error_answer failure r'.locals, r')

  unfoldable pub execute : Option Input → S → Answer × Run S
  execute given s = conclude settle_failure (try_request given (start s))

unfoldable pub create_general_executor {ℓ} :
    {S : Type ℓ}
    → Externals
    → Config
    → Ports S
    → Option ((token : String) → Option Input → S → Answer × Run S)
create_general_executor x config ports =
    if is_config config then some (execute x config ports) else none
