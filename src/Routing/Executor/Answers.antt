-- ===== src/Routing/Executor/Answers.antt =====
-- What a run of the executor gives (saas/src/routing/general-executor.ts), and the values that it
-- computes without a call.
use Prim.Native.String.{◌++◌ as append}
use mathlib.Core.Option
use memory_server_worker.Prelude.{
  ℕ, String, Bool, true, false, ◌&&◌, ◌||◌, Option, none, some, List, [], ◌∷◌, leb, ◌==◌, nat_eq,
  string_eq, length, all_rows, if◌then◌else◌, ◌≡◌, refl,
}
use memory_server_worker.Routing.Schema.{codes}
use memory_server_worker.Routing.Policy
use memory_server_worker.Routing.Policy.{Classification, general}
use memory_server_worker.Routing.SpaceLedger.Rows.{State, Identity}
use memory_server_worker.Routing.SpaceLedger.Inputs.{Actor, Usage}
use memory_server_worker.Routing.Executor.Ports.{Failure, Authority, Hashed, profile, Locals}

pub data Body : Type 0 where
  usage_body : (space_id : String) → Usage → Body
  retired_body :
      (operation_id : String) (generation : ℕ)
      (replayed provider_dispatched provider_acknowledged cleanup_pending : Bool)
      → Body
  replay_body : (operation_id : String) → State → Body
  ingest_body : (operation_id session_id : String) → Body
  search_body : (operation_id answer : String) (candidates : List String) (count : ℕ) → Body
  -- The last argument has `providerAcknowledged` and `cleanupPending` of a retirement; where there is
  -- one, the state is `retired`, else it is the given one.
  error_body :
      (error : String) (operation_id : Option String)
      → State
      → (provider_dispatched : Bool) (retirement : Option (Bool × Bool)) → Body

-- GeneralResult
pub record Answer : Type 0 where
  pub is_ok : Bool
  pub body : Body

-- Code that is not this repository's: the checks of `z.iso.datetime`, SHA-256 over the canonical
-- text, and the length of the JSON text of a body.
pub record Externals : Type 0 where
  pub is_datetime : String → Bool
  pub digest : Hashed → String
  pub response_bytes : Body → ℕ

abbrev pub profile_name : Externals → Identity → ℕ → String
profile_name x identity generation = append "general-" (x.digest (profile identity generation))

-- `s.slice(0, n)` of a digest, whose characters are single code units.
abbrev pub slice : ℕ → String → String
slice ℕ.zero s = ""
slice (ℕ.suc n) String.[] = ""
slice (ℕ.suc n) (String.◌∷◌ c s) = String.◌∷◌ c (slice n s)

abbrev pub actor_of : Authority → Actor
actor_of first = record { account_id = first.account_id; credential_id = first.credential_id }

abbrev pub policy_failure : Policy.Code → Failure
policy_failure Policy.decision_invalid = some "routing_decision_invalid"
policy_failure Policy.restrictions_invalid = some "routing_restrictions_invalid"
policy_failure Policy.downgrade_denied = some "routing_downgrade_denied"
policy_failure _ = none

abbrev pub is_general : Classification → Bool
is_general general = true
is_general _ = false

all_letters : List ℕ → Bool
all_letters s = leb 1 (length s) && all_rows (λ c. leb b'a' c && leb c b'z' || c == b'_') s

-- Whether the text is the prefix and some of [a-z_] behind it.
is_family : (prefix s : List ℕ) → Bool
unfolding all_letters
is_family [] s = all_letters s
is_family (p ∷ ps) [] = false
is_family (p ∷ ps) (c ∷ s) = p == c && is_family ps s

-- The codes that are shown to the caller.
unfoldable pub is_safe : String → Bool
unfolding is_family
is_safe s =
    is_family (codes "routing_") (codes s)
    || s == "access_denied"
    || s == "space_access_denied"
    || s == "authentication_required"
    || is_family (codes "agent_memory_") (codes s)

unfoldable pub safe_code : Failure → String
safe_code none = "routing_operation_failed"
safe_code (some s) = if is_safe s then s else "routing_operation_failed"

-- The answer of the `catch` block.
unfoldable pub error_answer : Failure → Locals → Answer
error_answer failure locals = record {
  is_ok = false;
  body =
      error_body (safe_code failure) locals.operation_id locals.terminal locals.dispatched
        (Option.map (λ _. (locals.acknowledged, locals.cleanup_pending)) locals.retirement);
}

code_tests :
    (safe_code (some "routing_request_invalid") ≡ "routing_request_invalid")
    × (safe_code (some "routing_") ≡ "routing_operation_failed")
    × (safe_code (some "database 7 is locked") ≡ "routing_operation_failed")
    × (safe_code none ≡ "routing_operation_failed")
unfolding safe_code is_safe
code_tests = (refl, refl, refl, refl)
