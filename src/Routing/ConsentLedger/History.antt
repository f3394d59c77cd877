-- ===== src/Routing/ConsentLedger/History.antt =====
-- A history of the ledger: calls in any order, each in a transaction that is rolled back if it throws.
use memory_server_worker.Prelude.{String, List, [], ◌∷◌, committed}
use memory_server_worker.Routing.ConsentLedger.Rows.{Ledger}
use memory_server_worker.Routing.ConsentLedger.Inputs.{
  Env, GrantInput, RevokeInput, IssueInput, ConsumeInput, FinalizeInput, TicketInput,
}
use memory_server_worker.Routing.ConsentLedger.Exchanges.{issue, consume, finalize, check_ticket}
use memory_server_worker.Routing.ConsentLedger.Methods.{get, grant, revoke}

pub data Call : Type 0 where
  gets : String → Call
  grants : GrantInput → Call
  revokes : RevokeInput → Call
  issues : IssueInput → Call
  consumes : ConsumeInput → Call
  finalizes : FinalizeInput → Call
  checks : TicketInput → Call

unfoldable pub step : (digest : String → String) → Ledger → Env × Call → Ledger
step digest s (env, gets organization_id) = committed s (get env organization_id s)
step digest s (env, grants v) = committed s (grant env v s)
step digest s (env, revokes v) = committed s (revoke env v s)
step digest s (env, issues v) = committed s (issue digest env v s)
step digest s (env, consumes v) = committed s (consume digest env v s)
step digest s (env, finalizes v) = committed s (finalize env v s)
step digest s (env, checks v) = committed s (check_ticket env v s)

unfoldable pub run : (digest : String → String) → Ledger → List (Env × Call) → Ledger
run digest s [] = s
run digest s (c ∷ cs) = run digest (step digest s c) cs
