-- ===== src/Routing/Executor/Runs.antt =====
-- What holds of every run of the executor, whatever its ports do.
use memory_server_worker.Prelude.{String, true, some, any_row, ◌≡◌, refl}
use memory_server_worker.Routing.SpaceLedger.Inputs.{Ticket}
use memory_server_worker.Routing.Executor.Requests.{Input}
use memory_server_worker.Routing.Executor.Ports.{Ports, Config}
use memory_server_worker.Routing.Executor.Answers.{Externals}
use memory_server_worker.Routing.Executor.Dispatching.{Exchange, input_of}
use memory_server_worker.Routing.Executor.Execution.{execute}
use memory_server_worker.Routing.Executor.Traces.{admission_of, Causal}
use memory_server_worker.Routing.Executor.Clearance.{is_outcome, Needs}
use memory_server_worker.Routing.Executor.Disclosure.{Justified}
use memory_server_worker.Routing.Executor.Safety.{execute-IsSafe}

module _ {ℓ} {S : Type ℓ} (x : Externals) (config : Config) (token : String) (ports : Ports S) where
  -- In every run, whatever the calls give and whether they throw: before the provider is called,
  -- the authority was asked, then the request was admitted with the permission to dispatch, then a
  -- reservation of its own was made that is no replay, then the authority was asked again and had
  -- not changed, then the ticket was checked for dispatch, and then the clock was read, which is
  -- before the deadline; the deadline is within the ticket, the authority, the reservation and the
  -- policy, and the provider was not called before. A profile is deleted only for a retirement that
  -- may be dispatched; and each record of an outcome has the state that the calls of the provider
  -- before it tell.
  pub execute_cleared :
      (input : Input) (s : S)
      → Causal (Needs x config token input) (execute x config ports token (some input) s).1.log
  execute_cleared input s = (execute-IsSafe x config token ports input s).sound.causal

  pub execute-Justified :
      (input : Input) (s : S)
      → Justified config token input
          (execute x config ports token (some input) s).0.body
          (execute x config ports token (some input) s).1.log
  execute-Justified input s = (execute-IsSafe x config token ports input s).justified

  -- In every run of an ingest or a search whose ticket gives the permission to dispatch, a record of
  -- the outcome is attempted in the Space ledger, also where a call throws.
  pub execute_attempts :
      (e : Exchange) (s : S) (t : Ticket)
      → admission_of (execute x config ports token (some (input_of e)) s).1.log ≡ some t
      → t.may_dispatch ≡ true
      → any_row is_outcome (execute x config ports token (some (input_of e)) s).1.log ≡ true
  execute_attempts e s t filed may =
      (execute-IsSafe x config token ports (input_of e) s).attempted e refl t filed may
