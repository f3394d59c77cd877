-- ===== src/Routing/SpaceLedger/Examples.antt =====
-- A Space in which one ingest is admitted, dispatched and finalized, and its generation retired.
use memory_server_worker.Prelude.{
  string_eq, ap, committed, ◌<◌, true, false, none, some, [], ◌∷◌, ◌≡◌, refl, ok,
}
use memory_server_worker.Routing.Schema.{is_identifier, is_payload_hash}
use memory_server_worker.Routing.Consent.{memory_ingest}
use memory_server_worker.Routing.SpaceLedger.Rows.{
  state_eq, admitted, accepted, account, Identity, OperationRow, Ledger, initial, with_state,
  operation_at, insert_operation, insert_retirement, update_operation, forbids_transition,
}
use memory_server_worker.Routing.SpaceLedger.Inputs.{
  Env, Actor, AdmitInput, CheckInput, FinalizeInput, RetireInput, dispatch, is_identity, is_actor,
  is_admit, is_check, is_finalize, is_retire,
}
use memory_server_worker.Routing.SpaceLedger.Admissions.{
  ticket, retired, bind_identity, same_identity, is_replay, is_full, new_operation, admit_new,
  admit_known, admit_bound, admit, load_ticket, check, finalize_row, finalize,
}
use memory_server_worker.Routing.SpaceLedger.Retirements.{
  new_retirement, retire_new, retire_bound, retire,
}
use memory_server_worker.Routing.SpaceLedger.History.{step, admits, finalizes, retires, run}
use memory_server_worker.Routing.SpaceLedger.Steps.{Reach, here}
use memory_server_worker.Routing.SpaceLedger.Refinement.{run-Reach}
use memory_server_worker.Routing.SpaceLedger.Invariant.{IsLedger}
use memory_server_worker.Routing.SpaceLedger.Preservation.{run-IsLedger}
use memory_server_worker.Routing.SpaceLedger.Tickets.{
  admit_once, check_sound, finalize_final, retire_hides,
}

abbrev space : Identity
space = record {
  space_id = "s1";
  owner_kind = account;
  owner_id = "alice";
  provider_account_id = "p1";
  provider_namespace = "memory";
}

abbrev alice : Actor
alice = record { account_id = "alice"; credential_id = "key1" }

abbrev first_env : Env
first_env = record { object_name = some "space:s1"; now = 1000; fresh_id = "ticket-1" }

abbrev later_env : Env
later_env = record { object_name = some "space:s1"; now = 2000; fresh_id = "ticket-2" }

abbrev write : AdmitInput
write = record {
  identity = space;
  actor = alice;
  operation = memory_ingest;
  operation_id = "op-1";
  payload_hash = "0123456789abcdef0123456789abcdef0123456789abcdef0123456789abcdef";
  input_bytes = 40;
  message_count = 2;
  authority_expires_at_ms = 90000;
}

abbrev looks : CheckInput
looks = record {
  identity = space;
  actor = alice;
  ticket_id = "ticket-1";
  authority_expires_at_ms = 90000;
  phase = dispatch;
}

abbrev succeeds : FinalizeInput
succeeds = record { identity = space; actor = alice; ticket_id = "ticket-1"; state = accepted }

abbrev clears : RetireInput
clears = record {
  identity = space;
  actor = alice;
  operation_id = "clear-1";
  payload_hash = "0123456789abcdef0123456789abcdef0123456789abcdef0123456789abcdef";
  authority_expires_at_ms = 90000;
}

abbrev row : OperationRow
row = new_operation first_env write 1

abbrev written : Ledger
written = record {
  identity = some space;
  generation = some 1;
  operations = row ∷ [];
  retirements = [];
  cursor = none;
}

admit_first : admit first_env write initial ≡ ok (ticket row true, written)
unfolding admit admit_bound admit_new is_admit is_identity is_actor is_identifier is_payload_hash
    bind_identity same_identity is_full insert_operation
admit_first = refl

admit_again : admit later_env write written ≡ ok (ticket row false, written)
unfolding admit admit_bound admit_known is_replay is_admit is_identity is_actor is_identifier
    is_payload_hash bind_identity same_identity
admit_again = refl

check_first : check later_env looks written ≡ ok written
unfolding check load_ticket is_check is_identity is_actor is_identifier bind_identity same_identity
check_first = refl

abbrev finished : Ledger
finished = record written { operations = with_state accepted 2000 row ∷ [] }

finalize_first : finalize later_env succeeds written ≡ ok finished
unfolding finalize finalize_row update_operation forbids_transition load_ticket is_finalize
    is_identity is_actor is_identifier bind_identity same_identity
finalize_first = refl

abbrev hidden : Ledger
hidden = record written {
  generation = some 2;
  retirements = new_retirement later_env clears 1 ∷ [];
}

retire_first :
    retire later_env clears written ≡ ok (retired (new_retirement later_env clears 1) true, hidden)
unfolding retire retire_bound retire_new insert_retirement is_retire is_identity is_actor
    is_identifier is_payload_hash bind_identity same_identity
retire_first = refl

run-Reach_example :
    Reach initial (run initial ((first_env, admits write) ∷ (later_env, retires clears) ∷ []))
run-Reach_example = run-Reach initial ((first_env, admits write) ∷ (later_env, retires clears) ∷ [])

run-IsLedger_example : IsLedger (
    run initial (
      (first_env, admits write)
      ∷ (later_env, finalizes succeeds)
      ∷ (later_env, retires clears)
      ∷ []))
run-IsLedger_example =
    run-IsLedger (
      (first_env, admits write)
      ∷ (later_env, finalizes succeeds)
      ∷ (later_env, retires clears)
      ∷ [])

written-run : run initial ((first_env, admits write) ∷ []) ≡ written
unfolding run step
written-run = ap (committed initial) admit_first

written-IsLedger : IsLedger written
written-IsLedger = rw written-run at (run-IsLedger ((first_env, admits write) ∷ []))

admit_once_example :
    (false ≡ false)
    × (row.id ≡ row.id)
    × (row.generation ≡ row.generation)
    × (row.expires_at_ms ≡ row.expires_at_ms)
admit_once_example =
    admit_once first_env later_env write write initial written admit_first here refl admit_again

check_sound_example :
    (o : OperationRow) × (operation_at "ticket-1" written ≡ some o)
    × (o.generation ≡ 1)
    × (2000 < o.expires_at_ms)
    × (2000 < 90000)
    × (o.state ≡ admitted)
    × (o.account_id ≡ "alice")
    × (o.credential_id ≡ "key1")
check_sound_example = check_sound later_env looks written check_first

finalize_final_example :
    (o : OperationRow) × (operation_at "ticket-1" finished ≡ some o) × (o.state ≡ accepted)
finalize_final_example = finalize_final later_env succeeds written finished finalize_first here

retire_hides_example : ¬ (check later_env looks hidden ≡ ok hidden)
retire_hides_example =
    retire_hides later_env later_env clears looks written hidden written-IsLedger retire_first refl
      refl here
