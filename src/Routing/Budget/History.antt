-- ===== src/Routing/Budget/History.antt =====
-- A history of a budget: calls in any order, each in a transaction that is rolled back if it throws.
use memory_server_worker.Prelude.{String, List, [], ◌∷◌, Result, ok, err, committed}
use memory_server_worker.Routing.Budget.Rows.{Budget, Error}
use memory_server_worker.Routing.Budget.Inputs.{Env, ReserveInput, FinalizeInput}
use memory_server_worker.Routing.Budget.Reservations.{reserve, finalize, usage}

pub data Call : Type 0 where
  reserves : ReserveInput → Call
  finalizes : FinalizeInput → Call
  reports : String → Call

-- `transactionSync` over a method that gives the ledger alone.
abbrev pub settled : Budget → Result Error Budget → Budget
settled s (ok s') = s'
settled s (err e) = s

unfoldable pub step : (digest : String → String) → Budget → Env × Call → Budget
step digest s (env, reserves v) = committed s (reserve digest env v s)
step digest s (env, finalizes v) = settled s (finalize env v s)
step digest s (env, reports budget_id) = committed s (usage env budget_id s)

unfoldable pub run : (digest : String → String) → Budget → List (Env × Call) → Budget
run digest s [] = s
run digest s (c ∷ cs) = run digest (step digest s c) cs
