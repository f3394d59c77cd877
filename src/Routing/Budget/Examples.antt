-- ===== src/Routing/Budget/Examples.antt =====
-- A budget in use.
use memory_server_worker.Prelude.{ℕ, String, false, true, some, List, [], ◌∷◌, ◌≡◌, refl, ok}
use memory_server_worker.Routing.Month.{month_at}
use memory_server_worker.Routing.Consent.{memory_search}
use memory_server_worker.Routing.SpaceLedger.Rows.{read_failed}
use memory_server_worker.Routing.Schema.{is_identifier, is_payload_hash}
use memory_server_worker.Routing.Budget.Rows.{
  insert_month, update_month, is_month, insert_reservation, is_reservation, update_reservation,
  forbids_transition, Budget, MonthRow, initial, month_by,
}
use memory_server_worker.Routing.Budget.Inputs.{
  is_reserve, is_policy, is_finalize, Env, Policy, ReserveInput, FinalizeInput, Reservation, Usage,
  canonical_policy,
}
use memory_server_worker.Routing.Budget.Reservations.{
  bind_identity, reserve_bound, reserve_new, reserve_known, same_request, check_month, cost_of,
  is_exhausted, write_reservation, open_month, finalize_row, reserve, finalize, usage,
}
use memory_server_worker.Routing.Budget.History.{Call, reserves, finalizes, reports, run, step}
use memory_server_worker.Routing.Budget.Steps.{here}
use memory_server_worker.Routing.Budget.Invariant.{IsBudget}
use memory_server_worker.Routing.Budget.Preservation.{run-IsBudget}
use memory_server_worker.Routing.Budget.Limits.{IsGranted, IsCharged, reserve-IsCharged}
use memory_server_worker.Routing.Budget.Replays.{reserve_once, finalize_once}

abbrev hash : String
hash = "0123456789abcdef0123456789abcdef0123456789abcdef0123456789abcdef"

abbrev fixed : String → String
fixed s = hash

abbrev at : ℕ → Env
at now = record { object_name = some "budget:main"; now = now }

abbrev policy : Policy
policy = record {
  revision = "r1";
  valid_until_ms = 2_000_000_000_000;
  max_monthly_requests = 2;
  max_monthly_input_bytes = 10_000;
  max_monthly_reserved_micro_usd = 5000;
  ingest_base_micro_usd = 100;
  ingest_micro_usd_per_kib = 10;
  search_base_micro_usd = 50;
  search_micro_usd_per_kib = 7;
}

abbrev search : ReserveInput
search = record {
  budget_id = "main";
  reservation_id = "r-1";
  space_id = "space";
  operation = memory_search;
  payload_hash = hash;
  input_bytes = 1025;
  message_count = 0;
  authority_expires_at_ms = 951_868_900_000;
  policy = policy;
}

abbrev first_grant : Reservation × Budget
first_grant = (
  record {
    reservation_id = "r-1";
    month = "2000-03";
    reserved_micro_usd = 64;
    expires_at_ms = 951_868_860_000;
    replayed = false;
  },
  run fixed initial ((at 951_868_800_000, reserves search) ∷ []),
)

policy_text :
    canonical_policy policy
    ≡ "{\"version\":1,\"revision\":\"r1\",\"validUntilMs\":2000000000000,\"maxMonthlyRequests\":2,\"maxMonthlyInputBytes\":10000,\"maxMonthlyReservedMicroUsd\":5000,\"ingestBaseMicroUsd\":100,\"ingestMicroUsdPerKiB\":10,\"searchBaseMicroUsd\":50,\"searchMicroUsdPerKiB\":7,\"pricingBasis\":\"operator-upper-bound\"}"
unfolding canonical_policy
policy_text = refl

reserve_first : reserve fixed (at 951_868_800_000) search initial ≡ ok first_grant
unfolding reserve run step is_reserve is_identifier is_payload_hash is_policy bind_identity
    reserve_bound reserve_new reserve_known same_request check_month cost_of is_exhausted
    write_reservation open_month insert_month update_month is_month insert_reservation
    is_reservation update_reservation forbids_transition finalize is_finalize finalize_row usage
    month_at canonical_policy
reserve_first = refl

reserve_again :
    reserve fixed (at 951_868_890_000) search first_grant.1
    ≡ ok (record first_grant.0 { replayed = true }, first_grant.1)
unfolding reserve run step is_reserve is_identifier is_payload_hash is_policy bind_identity
    reserve_bound reserve_new reserve_known same_request check_month cost_of is_exhausted
    write_reservation open_month insert_month update_month is_month insert_reservation
    is_reservation update_reservation forbids_transition finalize is_finalize finalize_row usage
    month_at canonical_policy
reserve_again = refl

abbrev failure : FinalizeInput
failure = record { budget_id = "main"; reservation_id = "r-1"; state = read_failed }

abbrev history : List (Env × Call)
history =
    (at 951_868_800_000, reserves search)
    ∷ (at 951_868_801_000, finalizes failure)
    ∷ (at 951_868_890_000, reserves search)
    ∷ (at 951_868_890_000, reports "main")
    ∷ []

finalize_first :
    finalize (at 951_868_801_000) failure first_grant.1 ≡ ok (run fixed initial history)
unfolding reserve run step is_reserve is_identifier is_payload_hash is_policy bind_identity
    reserve_bound reserve_new reserve_known same_request check_month cost_of is_exhausted
    write_reservation open_month insert_month update_month is_month insert_reservation
    is_reservation update_reservation forbids_transition finalize is_finalize finalize_row usage
    month_at canonical_policy
finalize_first = refl

finalize_again :
    finalize (at 951_868_802_000) failure (run fixed initial history)
    ≡ ok (run fixed initial history)
unfolding reserve run step is_reserve is_identifier is_payload_hash is_policy bind_identity
    reserve_bound reserve_new reserve_known same_request check_month cost_of is_exhausted
    write_reservation open_month insert_month update_month is_month insert_reservation
    is_reservation update_reservation forbids_transition finalize is_finalize finalize_row usage
    month_at canonical_policy
finalize_again = refl

abbrev report : Usage
report = record {
  month = "2000-03";
  requests = 1;
  input_bytes = 1025;
  reserved_micro_usd = 64;
  accepted = 0;
  unknown = 0;
  read_failed = 1;
  not_dispatched = 0;
}

usage_now :
    usage (at 951_868_890_000) "main" (run fixed initial history)
    ≡ ok (report, run fixed initial history)
unfolding reserve run step is_reserve is_identifier is_payload_hash is_policy bind_identity
    reserve_bound reserve_new reserve_known same_request check_month cost_of is_exhausted
    write_reservation open_month insert_month update_month is_month insert_reservation
    is_reservation update_reservation forbids_transition finalize is_finalize finalize_row usage
    month_at canonical_policy
usage_now = refl

run-IsBudget_example : IsBudget (run fixed initial history)
run-IsBudget_example = run-IsBudget fixed history

reserve-IsCharged_example :
    IsGranted search 951_868_800_000 first_grant.0
    × (m : MonthRow) × (month_by (month_at 951_868_800_000) first_grant.1 ≡ some m)
    × IsCharged search hash first_grant.0.reserved_micro_usd
        (month_by (month_at 951_868_800_000) initial)
        m
reserve-IsCharged_example =
    reserve-IsCharged fixed (at 951_868_800_000) search initial reserve_first refl

reserve_once_example :
    (true ≡ true)
    × (first_grant.0.month ≡ first_grant.0.month)
    × (first_grant.0.reserved_micro_usd ≡ first_grant.0.reserved_micro_usd)
    × (first_grant.0.expires_at_ms ≡ first_grant.0.expires_at_ms)
    × (first_grant.1.months ≡ first_grant.1.months)
    × (first_grant.1.reservations ≡ first_grant.1.reservations)
    × (first_grant.1.total_reservations ≡ first_grant.1.total_reservations)
reserve_once_example =
    reserve_once fixed (at 951_868_800_000) (at 951_868_890_000) search search initial first_grant.1
      reserve_first here refl reserve_again

finalize_once_example : read_failed ≡ read_failed
finalize_once_example =
    finalize_once (at 951_868_801_000) (at 951_868_802_000) failure failure first_grant.1
      (run fixed initial history) finalize_first here refl finalize_again
