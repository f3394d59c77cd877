-- ===== src/Routing/SpaceLedger/Preservation/Operations.antt =====
-- The writes to the identity and to the operations keep the invariant of a Space ledger.
use memory_server_worker.Prelude.{
  ℕ, String, Bool, true, false, ◌&&◌, Option, none, some, ◌∷◌, ◌==◌, nat_eq, string_eq, length,
  any_row, update_rows, All, All-map, All-both, All-update_rows, Distinct-update_rows,
  any_row-false, find_row-none, length-update_rows, ◌≡◌, refl, ap, arith,
}
use memory_server_worker.Routing.Consent.{operation_eq}
use memory_server_worker.Routing.SpaceLedger.Rows.{
  State, Identity, OperationRow, RetirementRow, Ledger, state_eq, retirement_eq, forbids_transition,
  with_state,
}
use memory_server_worker.Routing.SpaceLedger.Admissions.{or_else}
use memory_server_worker.Routing.SpaceLedger.Retirements.{in_flight}
use memory_server_worker.Routing.SpaceLedger.Steps.{IsNewOperation}
use memory_server_worker.Routing.SpaceLedger.Invariant.{
  current, Counted, IsOperation, IsRetirement, IsSettled, IsLedger,
}

bound-Counted : (g : Option ℕ) (n m : ℕ) → Counted g n m → Counted (some (or_else g 1)) n m
bound-Counted none n m c = omega arith
bound-Counted (some g) n m c = c

-- An update that the trigger allows.
final_fine :
    (g : ℕ) (id : String) (state : State) (now : ℕ) (o : OperationRow)
    → IsOperation g o × ((o.id == id && forbids_transition state o) ≡ false)
    → (o.id == id) ≡ true
    → IsOperation g (with_state state now o)
unfolding forbids_transition
final_fine g id state now o h hit =
    let (fine, allowed) = h in
    record {
      positive = fine.positive;
      reached = fine.reached;
      lives = fine.lives;
      minute = fine.minute;
      fits = fine.fits;
      read = λ e. ground arith;
    }

final_not_in_flight :
    (g : ℕ) (id : String) (state : State) (now : ℕ) (o : OperationRow)
    → (in_flight g o ≡ false) × ((o.id == id && forbids_transition state o) ≡ false)
    → (o.id == id) ≡ true
    → in_flight g (with_state state now o) ≡ false
unfolding forbids_transition
final_not_in_flight g id state now o h hit = ground arith

module _ (s : Ledger) (w : IsLedger s) where
  -- No later row of a retired generation is in flight.
  settled-cons :
      (row : OperationRow)
      → s.generation ≡ some row.generation
      → All (IsSettled (row ∷ s.operations)) s.retirements
  settled-cons row g =
      All-map s.retirements (λ r h e. (past-in_flight r h.0, h.1 e))
        (All-both (IsRetirement (current s.generation)) (IsSettled s.operations) s.retirements
          w.retirements_fine w.settled)
    where
      past-in_flight :
          (r : RetirementRow)
          → IsRetirement (current s.generation) r
          → in_flight r.generation row ≡ false
      past-in_flight r h = ground (arith, ap current g)

  pub admission-IsLedger :
      (row : OperationRow)
      → IsNewOperation s row
      → IsLedger (record s { operations = row ∷ s.operations })
  admission-IsLedger row n = record {
    counted = rw n.current (rw n.current at w.counted);
    operation_ids = (find_row-none _ s.operations n.fresh_id, w.operation_ids);
    operation_keys = (find_row-none _ s.operations n.fresh_key, w.operation_keys);
    retirement_ids = w.retirement_ids;
    retirement_keys = w.retirement_keys;
    retirement_generations = w.retirement_generations;
    operations_fine = (fine, w.operations_fine);
    retirements_fine = w.retirements_fine;
    settled = settled-cons row n.current;
    operation_room = omega (arith, n.room);
    retirement_room = w.retirement_room;
    cursor_fits = w.cursor_fits;
  }
    where
      fine : IsOperation (current s.generation) row
      fine = record {
        positive = ground arith;
        reached = omega (arith, ap current n.current);
        lives = n.lives;
        minute = n.minute;
        fits = n.fits;
        read = λ e. cc (n.starts);
      }

  pub bind-IsLedger :
      (i : Option Identity)
      → IsLedger (record s { identity = i; generation = some (or_else s.generation 1) })
  bind-IsLedger i = record {
    counted = bound-Counted s.generation (length s.operations) (length s.retirements) w.counted;
    operation_ids = w.operation_ids;
    operation_keys = w.operation_keys;
    retirement_ids = w.retirement_ids;
    retirement_keys = w.retirement_keys;
    retirement_generations = w.retirement_generations;
    operations_fine = All-map s.operations grown w.operations_fine;
    retirements_fine = All-map s.retirements grown_past w.retirements_fine;
    settled = w.settled;
    operation_room = w.operation_room;
    retirement_room = w.retirement_room;
    cursor_fits = w.cursor_fits;
  }
    where
      grown :
          (o : OperationRow)
          → IsOperation (current s.generation) o
          → IsOperation (or_else s.generation 1) o
      grown o h = record {
        positive = h.positive;
        reached = ground arith;
        lives = h.lives;
        minute = h.minute;
        fits = h.fits;
        read = h.read;
      }

      grown_past :
          (r : RetirementRow)
          → IsRetirement (current s.generation) r
          → IsRetirement (or_else s.generation 1) r
      grown_past r h = record {
        positive = h.positive;
        past = ground arith;
        successor = h.successor;
      }

  pub outcome-IsLedger :
      (id : String) (state : State) (now : ℕ)
      → any_row (λ o. o.id == id && forbids_transition state o) s.operations ≡ false
      → IsLedger (record s {
        operations = update_rows (λ o. o.id == id) (with_state state now) s.operations;
      })
  outcome-IsLedger id state now allowed = record {
    counted = rw length-update_rows w.counted;
    operation_ids =
        Distinct-update_rows (λ o. o.id) same f (λ o. refl) s.operations w.operation_ids;
    operation_keys =
        Distinct-update_rows (λ o. o.operation_id) same f (λ o. refl) s.operations w.operation_keys;
    retirement_ids = w.retirement_ids;
    retirement_keys = w.retirement_keys;
    retirement_generations = w.retirement_generations;
    operations_fine =
        All-update_rows same f s.operations (final_fine (current s.generation) id state now)
          (λ o h miss. h.0)
          (All-both (IsOperation (current s.generation)) Allowed s.operations w.operations_fine
            allowed_rows);
    retirements_fine = w.retirements_fine;
    settled =
        All-map s.retirements
          (λ r h e.
            All-update_rows same f s.operations (final_not_in_flight r.generation id state now)
              (λ o q miss. q.0)
              (All-both (λ o. in_flight r.generation o ≡ false) Allowed s.operations (h e)
                allowed_rows))
          w.settled;
    operation_room = rw length-update_rows w.operation_room;
    retirement_room = w.retirement_room;
    cursor_fits = w.cursor_fits;
  }
    where
      same : OperationRow → Bool
      same o = o.id == id

      f : OperationRow → OperationRow
      f = with_state state now

      Allowed : OperationRow → Type 0
      Allowed o = (o.id == id && forbids_transition state o) ≡ false

      allowed_rows : All Allowed s.operations
      allowed_rows = any_row-false _ s.operations allowed
