-- ===== src/Routing/Budget/Inputs.antt =====
-- What the methods of `RoutingBudgetLedger` take and give (saas/src/routing/budget-ledger.ts and
-- general-types.ts), the schemas that check it, and the text of a policy.
use Prim.Native.String.{◌++◌ as append}
use memory_server_worker.Prelude.{
  ℕ, zero, suc, ◌-◌, ◌/◌, String, Bool, ◌&&◌, Option, ltb, leb, ◌!=◌, nat_eq, string_eq,
  if◌then◌else◌,
}
use memory_server_worker.Routing.Month.{digit}
use memory_server_worker.Routing.Schema.{is_identifier, is_payload_hash, max_timestamp}
use memory_server_worker.Routing.Consent.{Operation, operation_eq}
use memory_server_worker.Routing.SpaceLedger.Rows.{State, admitted, state_eq}
use memory_server_worker.Routing.Budget.Rows.{fits_usage}

-- `version` and `pricingBasis` have one value each.
pub record Policy : Type 0 where
  pub revision : String
  pub valid_until_ms : ℕ
  pub max_monthly_requests : ℕ
  pub max_monthly_input_bytes : ℕ
  pub max_monthly_reserved_micro_usd : ℕ
  pub ingest_base_micro_usd : ℕ
  pub ingest_micro_usd_per_kib : ℕ
  pub search_base_micro_usd : ℕ
  pub search_micro_usd_per_kib : ℕ

pub record ReserveInput : Type 0 where
  pub budget_id : String
  pub reservation_id : String
  pub space_id : String
  pub operation : Operation
  pub payload_hash : String
  pub input_bytes : ℕ
  pub message_count : ℕ
  pub authority_expires_at_ms : ℕ
  pub policy : Policy

pub record FinalizeInput : Type 0 where
  pub budget_id : String
  pub reservation_id : String
  pub state : State

pub record Reservation : Type 0 where
  pub reservation_id : String
  pub month : String
  pub reserved_micro_usd : ℕ
  pub expires_at_ms : ℕ
  pub replayed : Bool

pub record Usage : Type 0 where
  pub month : String
  pub requests : ℕ
  pub input_bytes : ℕ
  pub reserved_micro_usd : ℕ
  pub accepted : ℕ
  pub unknown : ℕ
  pub read_failed : ℕ
  pub not_dispatched : ℕ

-- What a call reads from outside.
pub record Env : Type 0 where
  pub object_name : Option String
  pub now : ℕ

abbrev pub is_timestamp : ℕ → Bool
is_timestamp n = leb n (max_timestamp - 60_000)

abbrev is_rate : ℕ → Bool
is_rate n = ltb 0 n && leb n 50_000_000

-- policySchema
unfoldable pub is_policy : Policy → Bool
is_policy p =
    is_identifier p.revision
    && is_timestamp p.valid_until_ms
    && (ltb 0 p.max_monthly_requests && leb p.max_monthly_requests 100_000)
    && (ltb 0 p.max_monthly_input_bytes && leb p.max_monthly_input_bytes 1_000_000_000)
    && is_rate p.max_monthly_reserved_micro_usd
    && is_rate p.ingest_base_micro_usd
    && is_rate p.ingest_micro_usd_per_kib
    && is_rate p.search_base_micro_usd
    && is_rate p.search_micro_usd_per_kib

-- reserveSchema
unfoldable pub is_reserve : ReserveInput → Bool
is_reserve v =
    is_identifier v.budget_id
    && is_identifier v.reservation_id
    && is_identifier v.space_id
    && is_payload_hash v.payload_hash
    && leb v.input_bytes 1_000_000_000
    && leb v.message_count 500
    && is_timestamp v.authority_expires_at_ms
    && is_policy v.policy
    && fits_usage v.operation v.input_bytes v.message_count admitted

-- finalizeSchema
unfoldable pub is_finalize : FinalizeInput → Bool
is_finalize v = is_identifier v.budget_id && is_identifier v.reservation_id && v.state != admitted

-- A number below 10^20, which is above every number of a policy.
decimal_on : (fuel n : ℕ) → String
unfolding digit
decimal_on zero n = ""
decimal_on (suc fuel) n =
    let rest = decimal_on fuel (n / 10) in if ltb n 10 then digit n else append rest (digit n)

abbrev field_text : String → ℕ → String
unfolding decimal_on
field_text name n = append "," (append name (append ":" (decimal_on 20 n)))

-- `JSON.stringify` of the policy, whose one text is an identifier and needs no escape.
unfoldable pub canonical_policy : Policy → String
unfolding decimal_on
canonical_policy p = append "{\"version\":1,\"revision\":\"" (
    append p.revision (
      append "\"" (
        append (field_text "\"validUntilMs\"" p.valid_until_ms) (
          append (field_text "\"maxMonthlyRequests\"" p.max_monthly_requests) (
            append (field_text "\"maxMonthlyInputBytes\"" p.max_monthly_input_bytes) (
              append (field_text "\"maxMonthlyReservedMicroUsd\"" p.max_monthly_reserved_micro_usd)
                (append (field_text "\"ingestBaseMicroUsd\"" p.ingest_base_micro_usd) (
                  append (field_text "\"ingestMicroUsdPerKiB\"" p.ingest_micro_usd_per_kib) (
                    append (field_text "\"searchBaseMicroUsd\"" p.search_base_micro_usd) (
                      append (field_text "\"searchMicroUsdPerKiB\"" p.search_micro_usd_per_kib)
                        ",\"pricingBasis\":\"operator-upper-bound\"}"))))))))))
