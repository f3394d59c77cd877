-- ===== src/Routing/SpaceLedger/Invariant.antt =====
-- The invariant of a Space ledger.
use memory_server_worker.Prelude.{
  ℕ, ◌+◌, ◌≤◌, ◌<◌, true, false, not, ◌&&◌, Option, none, some, List, ◌==◌, ◌!=◌, nat_eq, string_eq,
  length, any_row, All, Distinct, ◌≡◌, refl, arith,
}
use memory_server_worker.Routing.Consent.{memory_search, operation_eq}
use memory_server_worker.Routing.SpaceLedger.Rows.{
  read_failed, acknowledged, OperationRow, RetirementRow, Ledger, initial, state_eq, retirement_eq,
}
use memory_server_worker.Routing.SpaceLedger.Inputs.{fits_operation}
use memory_server_worker.Routing.SpaceLedger.Retirements.{in_flight}

-- The current generation, and 0 before the first call.
abbrev pub current : Option ℕ → ℕ
current none = 0
current (some g) = g

-- Generations are counted by retirements.
abbrev pub Counted : Option ℕ → (operations retirements : ℕ) → Type 0
Counted none operations retirements = (operations ≡ 0) × (retirements ≡ 0)
Counted (some g) operations retirements = g ≡ retirements + 1

pub record IsOperation (generation : ℕ) (o : OperationRow) : Type 0 where
  pub positive : 0 < o.generation
  pub reached : o.generation ≤ generation
  pub lives : o.created_at_ms < o.expires_at_ms
  pub minute : o.expires_at_ms ≤ o.created_at_ms + 60000
  pub fits : fits_operation o.operation o.message_count ≡ true
  pub read : o.state ≡ read_failed → o.operation ≡ memory_search

pub record IsRetirement (generation : ℕ) (r : RetirementRow) : Type 0 where
  pub positive : 0 < r.generation
  pub past : r.generation < generation
  pub successor : r.next_generation ≡ r.generation + 1

-- An acknowledged retirement has no ingest of its generation in flight.
abbrev pub IsSettled : List OperationRow → RetirementRow → Type 0
IsSettled operations r =
    r.state ≡ acknowledged → All (λ o. in_flight r.generation o ≡ false) operations

abbrev pub CursorFits : Option ℕ → List RetirementRow → Type 0
CursorFits none rows = Unit
CursorFits (some g) rows =
    (g ≤ 1000) × ((g != 0 && not (any_row (λ r. r.generation == g) rows)) ≡ false)

pub record IsLedger (s : Ledger) : Type 0 where
  pub counted : Counted s.generation (length s.operations) (length s.retirements)
  pub operation_ids : Distinct (λ o. o.id) s.operations
  pub operation_keys : Distinct (λ o. o.operation_id) s.operations
  pub retirement_ids : Distinct (λ r. r.id) s.retirements
  pub retirement_keys : Distinct (λ r. r.operation_id) s.retirements
  pub retirement_generations : Distinct (λ r. r.generation) s.retirements
  pub operations_fine : All (IsOperation (current s.generation)) s.operations
  pub retirements_fine : All (IsRetirement (current s.generation)) s.retirements
  pub settled : All (IsSettled s.operations) s.retirements
  pub operation_room : length s.operations ≤ 100_000
  pub retirement_room : length s.retirements ≤ 1000
  pub cursor_fits : CursorFits s.cursor s.retirements

pub initial-IsLedger : IsLedger initial
initial-IsLedger = record {
  counted = (refl, refl);
  operation_ids = tt;
  operation_keys = tt;
  retirement_ids = tt;
  retirement_keys = tt;
  retirement_generations = tt;
  operations_fine = tt;
  retirements_fine = tt;
  settled = tt;
  operation_room = omega arith;
  retirement_room = omega arith;
  cursor_fits = tt;
}
