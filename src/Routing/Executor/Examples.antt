-- ===== src/Routing/Executor/Examples.antt =====
-- A run of the executor over the ledger of one Space, and the theorems on it.
use memory_server_worker.Prelude.{
  ℕ, ◌+◌, ◌≤◌, String, true, false, none, some, [], ◌∷◌, count_rows, any_row, Result, ok, err, ◌≡◌,
  refl, arith,
}
use memory_server_worker.Prelude.Actions.{continue, throw_if, captured}
use memory_server_worker.Routing.Schema.{is_identifier, is_payload_hash}
use memory_server_worker.Routing.Consent.{memory_ingest}
use memory_server_worker.Routing.Policy.{
  general, is_decision, are_restrictions, is_restriction, is_locked, resolve_memory_route,
}
use memory_server_worker.Routing.SpaceLedger.Rows.{
  Ledger, Error, Identity, account, admitted, initial, pending, insert_operation, update_operation,
  forbids_transition,
}
use memory_server_worker.Routing.SpaceLedger.Inputs.{
  Env, AdmitInput, Ticket, Retirement, is_identity, is_actor, is_admit, is_check, is_finalize,
}
use memory_server_worker.Routing.SpaceLedger.Admissions
use memory_server_worker.Routing.SpaceLedger.Retirements
use memory_server_worker.Routing.SpaceLedger.Steps.{Reach, here, Reach-trans}
use memory_server_worker.Routing.SpaceLedger.Refinement.Admissions.{
  admit-Reach, check-Reach, finalize-Reach,
}
use memory_server_worker.Routing.SpaceLedger.Refinement.Retirements.{
  retire-Reach, finish_retirement-Reach, usage-Reach,
}
use memory_server_worker.Routing.Executor.Encodings.{utf8_length, utf16_length, is_session}
use memory_server_worker.Routing.Executor.Requests.{
  IngestInput, ingest_request, user, is_request, is_ingest, is_message, total_bytes,
}
use memory_server_worker.Routing.Executor.Ports.{
  Failure, Ports, Config, Run, start, perform, observe, assign, get,
}
use memory_server_worker.Routing.Executor.Answers.{ingest_body, Externals}
use memory_server_worker.Routing.Executor.Admission.{
  check, refresh, admission_deadline, check_admission, settle_budget, record_outcome, finalize_with,
  finalize,
}
use memory_server_worker.Routing.Executor.Dispatching.{
  ingestion, input_of, reserve, clear_to_dispatch, call_provider, disclose_output, dispatch_ticket,
  exchange, handle_exchange,
}
use memory_server_worker.Routing.Executor.Execution.{
  execute, conclude, try_request, parse, run_request, lift, identify, handle,
}
use memory_server_worker.Routing.Executor.Traces.{is_dispatch, outcome_of, admission_of, Causal}
use memory_server_worker.Routing.Executor.Clearance.{is_outcome, Needs}
use memory_server_worker.Routing.Executor.Disclosure.{Justified}
use memory_server_worker.Routing.Executor.Once.{IsSpace, ingest_once}
use memory_server_worker.Routing.Executor.Runs.{
  execute_cleared, execute-Justified, execute_attempts,
}
use memory_server_worker.Routing.Executor.Reconciliation.{reconcile_general_retirements}
use memory_server_worker.Routing.Executor.Deletions.{is_acknowledgement, Deleted}
use memory_server_worker.Routing.Executor.Acknowledgements.{reconcile_counts}

abbrev hash : String
hash = "aaaaaaaaaaaaaaaaaaaaaaaaaaaaaaaaaaaaaaaaaaaaaaaaaaaaaaaaaaaaaaaa"

abbrev externals : Externals
externals = record { is_datetime = λ s. true; digest = λ h. hash; response_bytes = λ b. 100 }

abbrev config : Config
config = record {
  allowed_space_ids = "space-1" ∷ [];
  seoul_space_ids = [];
  provider_account_id = "0123456789abcdef0123456789abcdef";
  provider_namespace = "general";
  budget_id = "budget-1";
  budget_policy = record {
    revision = "r1";
    valid_until_ms = 9000;
    max_monthly_requests = 100;
    max_monthly_input_bytes = 10_000;
    max_monthly_reserved_micro_usd = 1000;
    ingest_base_micro_usd = 1;
    ingest_micro_usd_per_kib = 1;
    search_base_micro_usd = 1;
    search_micro_usd_per_kib = 1;
  };
}

abbrev env : Env
env = record { object_name = none; now = 1000; fresh_id = "ticket-1" }

abbrev returned : {A : Type 0} → Ledger → Result Error (A × Ledger) → Result Failure A × Ledger
returned s (ok (a, s')) = (ok a, s')
returned s (err e) = (err (some "ledger_rejected"), s)

abbrev done : Ledger → Result Error Ledger → Result Failure (Unit {0}) × Ledger
done s (ok s') = (ok tt, s')
done s (err e) = (err (some "ledger_rejected"), s)

abbrev ports : Ports Ledger
ports = record {
  clock = λ s. (1000, s);
  aborted = λ s. (false, s);
  random_uuid = λ s. ("op-search", s);
  authority = λ token space_id k s. (
    ok (record {
      space_id = space_id;
      owner_kind = account;
      owner_id = "owner-1";
      account_id = "account-1";
      credential_id = "credential-1";
      operation = k;
      authority_expires_at_ms = 5000;
    }),
    s,
  );
  admit = λ v s. returned s (Admissions.admit env v s);
  check = λ v s. done s (Admissions.check env v s);
  finalize = λ v s. done s (Admissions.finalize env v s);
  retire = λ v s. returned s (Retirements.retire env v s);
  pending = λ v s. returned s (Retirements.list_pending env v s);
  finish_retirement = λ v s. done s (Retirements.finish_retirement env v s);
  usage = λ i s. returned s (Retirements.usage env i s);
  reserve = λ v s. (
    ok (record {
      reservation_id = v.reservation_id;
      month = "1970-01";
      reserved_micro_usd = 2;
      expires_at_ms = 5000;
      replayed = false;
    }),
    s,
  );
  settle = λ v s. (ok tt, s);
  ingest = λ p ms session d s. (ok tt, s);
  recall = λ p q d s. (ok (record { count = 0; answer = ""; candidates = [] }), s);
  delete_profile = λ p d s. (ok tt, s);
}

abbrev request : IngestInput
request = record {
  routing = record {
    classification = general;
    destination = none;
    requires_seoul = false;
    consent = none;
  };
  space_id = "space-1";
  operation_id = "op-1";
  messages = record { role = user; content = "hello"; timestamp = none } ∷ [];
  session_id = some "s-1";
}

abbrev exchange_run : Run Ledger
exchange_run =
    (execute externals config ports "token" (some (input_of (ingestion request))) initial).1

abbrev issued : Ticket
issued = record {
  id = "ticket-1";
  operation_id = "op-1";
  operation = memory_ingest;
  generation = 1;
  state = admitted;
  created_at_ms = 1000;
  expires_at_ms = 5000;
  may_dispatch = true;
}

-- The ingest is admitted and answered.
run_test :
    ((execute externals config ports "token" (some (ingest_request request)) initial).0
      ≡ record { is_ok = true; body = ingest_body "op-1" "s-1" })
    × (admission_of exchange_run.log ≡ some issued)
unfolding execute conclude try_request parse run_request lift identify handle handle_exchange
    exchange dispatch_ticket reserve clear_to_dispatch call_provider disclose_output finalize
    finalize_with record_outcome settle_budget check check_admission admission_deadline refresh
    perform observe assign get continue throw_if captured is_request is_ingest is_message is_session
    total_bytes utf8_length utf16_length is_identifier is_payload_hash is_decision are_restrictions
    is_restriction is_locked resolve_memory_route admission_of outcome_of Admissions.admit
    Admissions.check Admissions.finalize Admissions.admit_bound Admissions.admit_new
    Admissions.is_full Admissions.finalize_row Admissions.load_ticket Admissions.bind_identity
    Admissions.same_identity insert_operation update_operation forbids_transition is_identity
    is_actor is_admit is_check is_finalize
run_test = (refl, refl)

execute_cleared_example :
    Causal
      (Needs externals config "token" (ingest_request request))
      (execute externals config ports "token" (some (ingest_request request)) initial).1.log
execute_cleared_example =
    execute_cleared externals config "token" ports (ingest_request request) initial

execute-Justified_example :
    Justified config "token"
      (ingest_request request)
      (execute externals config ports "token" (some (ingest_request request)) initial).0.body
      (execute externals config ports "token" (some (ingest_request request)) initial).1.log
execute-Justified_example =
    execute-Justified externals config "token" ports (ingest_request request) initial

execute_attempts_example : any_row is_outcome exchange_run.log ≡ true
execute_attempts_example =
    execute_attempts externals config "token" ports (ingestion request) initial issued run_test.1
      refl

returned-Reach :
    {A : Type 0} (s : Ledger) (r : Result Error (A × Ledger))
    → ((a : A × Ledger) → r ≡ ok a → Reach s a.1)
    → Reach s (returned s r).1
returned-Reach s (ok (a, s')) h = h (a, s') refl
returned-Reach s (err e) h = here

done-Reach :
    (s : Ledger) (r : Result Error Ledger)
    → ((s' : Ledger) → r ≡ ok s' → Reach s s')
    → Reach s (done s r).1
done-Reach s (ok s') h = h s' refl
done-Reach s (err e) h = here

ports-IsSpace : IsSpace ports (λ s. s)
ports-IsSpace = record {
  moves = λ l. record {
    clock_kept = λ s log h. h;
    aborted_kept = λ s log h. h;
    random_uuid_kept = λ s log h. h;
    authority_kept = λ token space_id k s log h. h;
    admit_kept = λ v s log h.
        Reach-trans h (returned-Reach s (Admissions.admit env v s) (λ a e. admit-Reach env v s e));
    check_kept = λ v s log h.
        Reach-trans h (done-Reach s (Admissions.check env v s) (λ a e. check-Reach env v s e));
    finalize_kept = λ v s log h.
        Reach-trans h
          (done-Reach s (Admissions.finalize env v s) (λ a e. finalize-Reach env v s e));
    retire_kept = λ v s log h.
        Reach-trans h
          (returned-Reach s (Retirements.retire env v s) (λ a e. retire-Reach env v s e));
    finish_kept = λ v s log h. Reach-trans h (
        done-Reach s (Retirements.finish_retirement env v s)
          (λ a e. finish_retirement-Reach env v s e));
    usage_kept = λ i s log h.
        Reach-trans h (returned-Reach s (Retirements.usage env i s) (λ a e. usage-Reach env i s e));
    reserve_kept = λ v s log h. h;
    settle_kept = λ v s log h. h;
    ingest_kept = λ p ms session d s log h. h;
    recall_kept = λ p q d s log h. h;
    delete_kept = λ p d s log h. h;
  };
  admitted = λ v s t e. issued_by v s t (Admissions.admit env v s) refl e;
}
  where
    issued_by :
        (v : AdmitInput) (s : Ledger) (t : Ticket) (r : Result Error (Ticket × Ledger))
        → Admissions.admit env v s ≡ r
        → (returned s r).0 ≡ ok t
        → (e : Env) × (b : Ledger) × (c : Ledger) × Reach s b
          × (Admissions.admit e v b ≡ ok (t, c))
          × Reach c (returned s r).1
    issued_by v s t (ok (t', s')) run same =
        let same_ticket : t' ≡ t = ground arith in (env, s, s', here, rw (← same_ticket) run, here)
    issued_by v s t (err e) run same = absurd (ground arith)

-- The same ingest again, in the ledger that the first run left.
ingest_once_example :
    count_rows is_dispatch
        (execute externals config ports "token" (some (ingest_request request)) initial).1.log
      + count_rows is_dispatch
          (execute externals config ports "token"
            (some (ingest_request request))
            (execute externals config ports "token"
              (some (ingest_request request))
              initial).1.world).1.log
    ≤ 1
ingest_once_example =
    ingest_once ports (λ s. s) ports-IsSpace externals config "token" "token" request request
      initial
      (execute externals config ports "token" (some (ingest_request request)) initial).1.world refl
      here

abbrev row : Retirement
row = record {
  id = "retirement-1";
  generation = 1;
  next_generation = 2;
  created_at_ms = 500;
  state = pending;
  may_dispatch = false;
}

abbrev space : Identity
space = record {
  space_id = "space-1";
  owner_kind = account;
  owner_id = "owner-1";
  provider_account_id = "0123456789abcdef0123456789abcdef";
  provider_namespace = "general";
}

-- A ledger that lists one retirement, which it then does not know.
abbrev listing_ports : Ports Ledger
listing_ports = record ports { pending = λ v s. (ok (row ∷ []), s) }

reconcile_counts_example :
    let run = reconcile_general_retirements externals listing_ports space (start initial) in
    (counts : ℕ × ℕ) × (run.0 ≡ ok counts)
    × (counts.0 + counts.1 ≡ 1)
    × (count_rows is_acknowledgement run.1.log ≡ counts.0)
    × Causal (Deleted externals space (row ∷ [])) run.1.log
reconcile_counts_example =
    reconcile_counts externals space listing_ports initial (row ∷ []) refl refl
