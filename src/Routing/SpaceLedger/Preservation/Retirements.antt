-- ===== src/Routing/SpaceLedger/Preservation/Retirements.antt =====
-- The writes to the retirements and to the cursor keep the invariant of a Space ledger.
use mathlib.Core.Path.{subst}
use memory_server_worker.Prelude.{
  sym, count_rows, ℕ, suc, Bool, true, false, Option, none, some, List, ◌∷◌, ◌==◌, nat_eq,
  string_eq, update_rows, All, All-map, All-both, All-update_rows, Distinct-update_rows,
  any_row-false, any_row-update_rows, find_row-none, find_row_unique, count_rows-zero,
  length-update_rows, ◌≡◌, refl, ap, arith,
}
use memory_server_worker.Routing.Consent.{operation_eq}
use memory_server_worker.Routing.SpaceLedger.Rows.{
  retirement_at, RetirementState, acknowledged, OperationRow, RetirementRow, Ledger, state_eq,
  retirement_eq, with_outcome,
}
use memory_server_worker.Routing.SpaceLedger.Retirements.{in_flight}
use memory_server_worker.Routing.SpaceLedger.Steps.{IsNewRetirement}
use memory_server_worker.Routing.SpaceLedger.Invariant.{
  current, IsOperation, IsRetirement, IsSettled, CursorFits, IsLedger,
}

cursor-cons :
    (c : Option ℕ) (row : RetirementRow) (rows : List RetirementRow)
    → CursorFits c rows
    → CursorFits c (row ∷ rows)
cursor-cons none row rows h = tt
cursor-cons (some g) row rows h = (h.0, ground arith)

cursor-update_rows :
    (c : Option ℕ) (p : RetirementRow → Bool) (state : RetirementState) (now : ℕ)
    (rows : List RetirementRow)
    → CursorFits c rows
    → CursorFits c (update_rows p (with_outcome state now) rows)
cursor-update_rows none p state now rows h = tt
cursor-update_rows (some g) p state now rows h = (
  h.0,
  rw (any_row-update_rows (λ r. r.generation == g) p (with_outcome state now) (λ r. refl) rows) h.1,
)

module _ (s : Ledger) (w : IsLedger s) where
  pub retirement-IsLedger :
      (row : RetirementRow)
      → IsNewRetirement s row
      → IsLedger
          (record s { retirements = row ∷ s.retirements; generation = some (suc row.generation) })
  retirement-IsLedger row n = record {
    counted = let counted = rw n.current at w.counted in omega arith;
    operation_ids = w.operation_ids;
    operation_keys = w.operation_keys;
    retirement_ids = (find_row-none _ s.retirements n.fresh_id, w.retirement_ids);
    retirement_keys = (find_row-none _ s.retirements n.fresh_key, w.retirement_keys);
    retirement_generations =
        (any_row-false _ s.retirements n.fresh_generation, w.retirement_generations);
    operations_fine = All-map s.operations grown w.operations_fine;
    retirements_fine = (new_fine, All-map s.retirements grown_past w.retirements_fine);
    settled = ((λ e. cc (n.starts)), w.settled);
    operation_room = w.operation_room;
    retirement_room = omega (arith, n.room);
    cursor_fits = cursor-cons s.cursor row s.retirements w.cursor_fits;
  }
    where
      grown :
          (o : OperationRow)
          → IsOperation (current s.generation) o
          → IsOperation (suc row.generation) o
      grown o h = record {
        positive = h.positive;
        reached = omega (arith, h.reached, ap current n.current);
        lives = h.lives;
        minute = h.minute;
        fits = h.fits;
        read = h.read;
      }

      grown_past :
          (r : RetirementRow)
          → IsRetirement (current s.generation) r
          → IsRetirement (suc row.generation) r
      grown_past r h = record {
        positive = h.positive;
        past = omega (arith, h.past, ap current n.current);
        successor = h.successor;
      }

      new_fine : IsRetirement (suc row.generation) row
      new_fine = record { positive = ground arith; past = omega arith; successor = n.successor }

  pub purge-IsLedger :
      (row : RetirementRow) (state : RetirementState) (now : ℕ)
      → retirement_at row.id s ≡ some row
      → (state ≡ acknowledged → count_rows (in_flight row.generation) s.operations ≡ 0)
      → IsLedger (record s {
        retirements = update_rows (λ r. r.id == row.id) (with_outcome state now) s.retirements;
      })
  purge-IsLedger row state now found drained = record {
    counted = rw length-update_rows w.counted;
    operation_ids = w.operation_ids;
    operation_keys = w.operation_keys;
    retirement_ids =
        Distinct-update_rows (λ r. r.id) same f (λ r. refl) s.retirements w.retirement_ids;
    retirement_keys =
        Distinct-update_rows (λ r. r.operation_id) same f (λ r. refl) s.retirements
          w.retirement_keys;
    retirement_generations =
        Distinct-update_rows (λ r. r.generation) same f (λ r. refl) s.retirements
          w.retirement_generations;
    operations_fine = w.operations_fine;
    retirements_fine =
        All-update_rows same f s.retirements
          (λ r h hit. record { positive = h.positive; past = h.past; successor = h.successor })
          (λ r h miss. h) w.retirements_fine;
    settled =
        All-update_rows same f s.retirements purged (λ r h miss. h.0)
          (All-both (IsSettled s.operations) Only s.retirements w.settled
            (find_row_unique (λ r. r.id) row.id s.retirements w.retirement_ids found));
    operation_room = w.operation_room;
    retirement_room = rw length-update_rows w.retirement_room;
    cursor_fits = cursor-update_rows s.cursor same state now s.retirements w.cursor_fits;
  }
    where
      same : RetirementRow → Bool
      same r = r.id == row.id

      f : RetirementRow → RetirementRow
      f = with_outcome state now

      Only : RetirementRow → Type 0
      Only r = (r.id == row.id) ≡ true → r ≡ row

      purged :
          (r : RetirementRow)
          → IsSettled s.operations r × Only r
          → same r ≡ true
          → IsSettled s.operations (f r)
      purged r h hit e =
          subst (λ g. All (λ o. in_flight g o ≡ false) s.operations)
            (ap (λ (x : RetirementRow). x.generation) (sym (h.1 hit)))
            (count_rows-zero (in_flight row.generation) s.operations (drained e))

  pub cursor-IsLedger :
      (c : Option ℕ) → CursorFits c s.retirements → IsLedger (record s { cursor = c })
  cursor-IsLedger c fits = record {
    counted = w.counted;
    operation_ids = w.operation_ids;
    operation_keys = w.operation_keys;
    retirement_ids = w.retirement_ids;
    retirement_keys = w.retirement_keys;
    retirement_generations = w.retirement_generations;
    operations_fine = w.operations_fine;
    retirements_fine = w.retirements_fine;
    settled = w.settled;
    operation_room = w.operation_room;
    retirement_room = w.retirement_room;
    cursor_fits = fits;
  }
