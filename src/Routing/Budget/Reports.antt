-- ===== src/Routing/Budget/Reports.antt =====
-- The report of a budget.
use memory_server_worker.Prelude.{
  ℕ, String, List, nat_eq, string_eq, find_row-All, find_row-key, All-map, ◌≡◌, ok, Option-cases,
  inl, inr, sym, refl,
}
use memory_server_worker.Routing.Month.{month_at}
use memory_server_worker.Routing.SpaceLedger.Rows.{
  State, accepted, read_failed, not_dispatched, state_eq,
}
use memory_server_worker.Routing.Budget.Rows.{MonthRow, ReservationRow, Budget, initial, month_by}
use memory_server_worker.Routing.Budget.Inputs.{Env, Usage}
use memory_server_worker.Routing.Budget.Reservations.{usage, usage_of}
use memory_server_worker.Routing.Budget.History.{Call, run}
use memory_server_worker.Routing.Budget.Refinement.Reserving.{bind_identity-Reach}
use memory_server_worker.Routing.Budget.Refinement.Finalizing.{usage-eq-ok}
use memory_server_worker.Routing.Budget.Invariant.{tally, one, in_state, IsMonth, IsBudget}
use memory_server_worker.Routing.Budget.Preservation.{Reach-IsBudget, run-IsBudget}
use memory_server_worker.Routing.Budget.Preservation.Months.{tally-none, absent_month}

-- The figures of a report are sums over the reservations of its month.
pub record IsReport (rows : List ReservationRow) (u : Usage) : Type 0 where
  pub requests : u.requests ≡ tally one u.month rows
  pub input_bytes : u.input_bytes ≡ tally (λ r. r.input_bytes) u.month rows
  pub reserved : u.reserved_micro_usd ≡ tally (λ r. r.reserved_micro_usd) u.month rows
  pub accepted : u.accepted ≡ tally (in_state accepted) u.month rows
  pub unknown : u.unknown ≡ tally (in_state State.unknown) u.month rows
  pub read_failed : u.read_failed ≡ tally (in_state read_failed) u.month rows
  pub not_dispatched : u.not_dispatched ≡ tally (in_state not_dispatched) u.month rows

usage_of-IsReport :
    (month : String) (s : Budget)
    → IsBudget s
    → IsReport s.reservations (usage_of month (month_by month s))
usage_of-IsReport month s w = elim (Option-cases (month_by month s)) [
  | inl missing ↦
      let empty : (f : ReservationRow → ℕ) → tally f month s.reservations ≡ 0 = λ f.
        tally-none f month s.reservations
          (All-map s.reservations (λ r h. absent_month month s.months r missing h) w.accounted) in
      rw missing (record {
        requests = sym (empty one);
        input_bytes = sym (empty (λ r. r.input_bytes));
        reserved = sym (empty (λ r. r.reserved_micro_usd));
        accepted = sym (empty (in_state accepted));
        unknown = sym (empty (in_state State.unknown));
        read_failed = sym (empty (in_state read_failed));
        not_dispatched = sym (empty (in_state not_dispatched));
      })
  | inr (m, found) ↦
      let fine = (find_row-All (IsMonth s.reservations) _ s.months w.months_fine found).0 in
      let key : m.month ≡ month = find_row-key (λ (x : MonthRow). x.month) month s.months found in
      rw (found, ← key)
        (record {
          requests = fine.requests;
          input_bytes = fine.input_bytes;
          reserved = fine.reserved;
          accepted = fine.accepted;
          unknown = fine.unknown;
          read_failed = fine.read_failed;
          not_dispatched = fine.not_dispatched;
        })
]

-- A report is about the current month, and each of its figures is the sum, over all reservations
-- of that month, of what the figure counts.
pub usage_sound :
    (digest : String → String) (env : Env) (budget_id : String) (cs : List (Env × Call))
    {r : Usage × Budget}
    → usage env budget_id (run digest initial cs) ≡ ok r
    → (r.0.month ≡ month_at env.now) × IsReport r.1.reservations r.0
usage_sound digest env budget_id cs {r} h =
    let (bound, same) = usage-eq-ok env budget_id (run digest initial cs) h in
    let w =
      Reach-IsBudget (bind_identity-Reach env budget_id (run digest initial cs) bound)
        (run-IsBudget digest cs) in
    rw same (refl, usage_of-IsReport (month_at env.now) r.1 w)
