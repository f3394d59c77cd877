-- ===== src/Routing/Executor/Admission.antt =====
-- The inner functions of `createGeneralExecutor` (saas/src/routing/general-executor.ts): the checks
-- of the signal, of the time and of the authority, and the record of the outcome. The two records
-- that `finalize` writes at once are written one after the other.
use memory_server_worker.Prelude.{
  ℕ, min, String, Bool, true, false, not, ◌&&◌, ◌||◌, Option, none, some, leb, ◌!=◌, nat_eq,
  string_eq, if◌then◌else◌,
}
use memory_server_worker.Prelude.Actions.{Action, ◌>>=◌, ◌>>◌, return, captured}
use memory_server_worker.Routing.Schema.{max_safe_integer}
use memory_server_worker.Routing.Budget.Inputs.{Reservation, FinalizeInput as Settlement}
use memory_server_worker.Routing.SpaceLedger.Rows.{Identity, owner_eq}
use memory_server_worker.Routing.SpaceLedger.Inputs.{FinalizeInput, Ticket}
use memory_server_worker.Routing.Executor.Requests.{kind_eq, Input, kind_of, space_of}
use memory_server_worker.Routing.Executor.Ports.{
  Failure, Authority, Ports, signal_read, clock_read, authority_asked, finalizes, settles, Locals,
  Run, Config, perform, observe, assign, get, reject_when,
}
use memory_server_worker.Routing.Executor.Answers.{actor_of}

abbrev pub expiry_of : Option Reservation → ℕ
expiry_of none = max_safe_integer
expiry_of (some r) = r.expires_at_ms

abbrev pub was_replayed : Option Reservation → Bool
was_replayed none = false
was_replayed (some r) = r.replayed

-- Whether the authority is not the first one any more.
abbrev pub has_changed : Input → (first current : Authority) → Bool
has_changed input first current =
    current.space_id != first.space_id
    || current.operation != kind_of input
    || current.account_id != first.account_id
    || current.credential_id != first.credential_id
    || current.owner_kind != first.owner_kind
    || current.owner_id != first.owner_id

module _ {ℓ} {S : Type ℓ} (ports : Ports S) where
  unfoldable pub check : Action Failure (Run S) (Unit {0})
  check = do
    aborted ← observe ports.aborted signal_read
    reject_when aborted "routing_request_aborted"

  unfoldable pub refresh :
      (token : String) → Input → (first : Authority) → Action Failure (Run S) Authority
  refresh token input first = do
    check
    current ←
        perform (ports.authority token (space_of input) (kind_of input))
          (authority_asked token (space_of input) (kind_of input))
    check
    reject_when (has_changed input first current) "routing_authority_changed"
    now ← observe ports.clock clock_read
    reject_when (leb current.authority_expires_at_ms now) "routing_authority_changed"
    return current

module _ (config : Config) where
  unfoldable pub admission_deadline : Ticket → Locals → (authority_expires_at_ms : ℕ) → ℕ
  admission_deadline ticket locals authority_expires_at_ms =
      min (min ticket.expires_at_ms authority_expires_at_ms)
        (min (expiry_of locals.reservation) config.budget_policy.valid_until_ms)

abbrev pub space_outcome : Ticket → Authority → Identity → Locals → FinalizeInput
space_outcome ticket first identity locals = record {
  identity = identity;
  actor = actor_of first;
  ticket_id = ticket.id;
  state = locals.terminal;
}

module _ {ℓ} {S : Type ℓ} (config : Config) (ports : Ports S) where
  unfoldable pub check_admission :
      Ticket → (authority_expires_at_ms : ℕ) → Action Failure (Run S) (Unit {0})
  check_admission ticket authority_expires_at_ms = do
    check ports
    locals ← get
    now ← observe ports.clock clock_read
    reject_when (leb (admission_deadline config ticket locals authority_expires_at_ms) now)
        "routing_authority_expired"

  -- Whether the budget rejected its record of the outcome, where one is due.
  unfoldable pub settle_budget : Locals → Option String → Action Failure (Run S) Bool
  settle_budget locals none = return false
  settle_budget locals (some id) =
      let input : Settlement = record {
        budget_id = config.budget_id;
        reservation_id = id;
        state = locals.terminal;
      } in
      if locals.budget_attempted && not (was_replayed locals.reservation)
      then (λ r. captured (perform (ports.settle input) (settles input) r))
      else return false

  unfoldable pub record_outcome :
      Ticket → Authority → Identity → Locals → Action Failure (Run S) (Unit {0})
  record_outcome ticket first identity locals = do
    let input = space_outcome ticket first identity locals
    space_failed ← (λ r. captured (perform (ports.finalize input) (finalizes input) r))
    budget_failed ← settle_budget locals locals.reservation_id
    reject_when (space_failed || budget_failed) "routing_outcome_recording_failed"
    assign (λ l. record l { recorded = true })

  unfoldable pub finalize_with :
      Option Ticket
      → Option Authority
      → Option Identity
      → Locals
      → Action Failure (Run S) (Unit {0})
  finalize_with (some ticket) (some first) (some identity) locals =
      if ticket.may_dispatch then record_outcome ticket first identity locals else return tt
  finalize_with _ _ _ locals = return tt

  -- `finalize()`
  unfoldable pub finalize : Action Failure (Run S) (Unit {0})
  finalize = do locals ← get; finalize_with locals.ticket locals.first locals.identity locals
