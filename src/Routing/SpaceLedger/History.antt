-- ===== src/Routing/SpaceLedger/History.antt =====
-- A history of the ledger: calls in any order, each in a transaction that is rolled back if it throws.
use memory_server_worker.Prelude.{List, [], ◌∷◌, Result, ok, err, committed}
use memory_server_worker.Routing.SpaceLedger.Rows.{Identity, Ledger, Error}
use memory_server_worker.Routing.SpaceLedger.Inputs.{
  Env, AdmitInput, CheckInput, FinalizeInput, RetireInput, PendingInput, FinishInput,
}
use memory_server_worker.Routing.SpaceLedger.Admissions.{admit, check, finalize}
use memory_server_worker.Routing.SpaceLedger.Retirements.{
  retire, list_pending, finish_retirement, usage,
}

pub data Call : Type 0 where
  admits : AdmitInput → Call
  checks : CheckInput → Call
  finalizes : FinalizeInput → Call
  retires : RetireInput → Call
  lists : PendingInput → Call
  finishes : FinishInput → Call
  reports : Identity → Call

-- `transactionSync` over a method that gives the ledger alone.
abbrev pub settled : Ledger → Result Error Ledger → Ledger
settled s (ok s') = s'
settled s (err e) = s

unfoldable pub step : Ledger → Env × Call → Ledger
step s (env, admits v) = committed s (admit env v s)
step s (env, checks v) = settled s (check env v s)
step s (env, finalizes v) = settled s (finalize env v s)
step s (env, retires v) = committed s (retire env v s)
step s (env, lists v) = committed s (list_pending env v s)
step s (env, finishes v) = settled s (finish_retirement env v s)
step s (env, reports identity) = committed s (usage env identity s)

unfoldable pub run : Ledger → List (Env × Call) → Ledger
run s [] = s
run s (c ∷ cs) = run (step s c) cs
