-- ===== src/Routing/Budget/Persistence.antt =====
-- What a budget never loses: a reservation keeps all but its state, and a final state stays.
use mathlib.Core.Path.{subst}
use memory_server_worker.Prelude.{
  ℕ, String, none, some, ◌==◌, nat_eq, string_eq, find_row-update_rows, find_row-key, if◌then◌else◌,
  ◌≡◌, ◌≢◌, refl, ap, sym, ◌∙◌, arith, Bool-cases, inl, inr,
}
use memory_server_worker.Routing.SpaceLedger.Rows.{State, admitted, state_eq}
use memory_server_worker.Routing.Budget.Rows.{ReservationRow, Budget, reservation_by, with_state}
use memory_server_worker.Routing.Budget.Steps.{
  IsOutcome, Step, bind, opening, charging, outcome, Reach, here, next,
}

-- `r'` is the row `r`, perhaps with its final state.
pub record IsLater (r r' : ReservationRow) : Type 0 where
  pub reservation_id : r'.reservation_id ≡ r.reservation_id
  pub month : r'.month ≡ r.month
  pub reserved : r'.reserved_micro_usd ≡ r.reserved_micro_usd
  pub expires : r'.expires_at_ms ≡ r.expires_at_ms
  pub final : r.state ≢ admitted → r'.state ≡ r.state

IsLater-refl : (r : ReservationRow) → IsLater r r
IsLater-refl r = record {
  reservation_id = refl;
  month = refl;
  reserved = refl;
  expires = refl;
  final = λ h. refl;
}

IsLater-trans : {o p q : ReservationRow} → IsLater o p → IsLater p q → IsLater o q
IsLater-trans {o} {p} {q} h k = record {
  reservation_id = k.reservation_id ∙ h.reservation_id;
  month = k.month ∙ h.month;
  reserved = k.reserved ∙ h.reserved;
  expires = k.expires ∙ h.expires;
  final = λ n. k.final (λ e. n (sym (h.final n) ∙ e)) ∙ h.final n;
}

outcome-IsLater :
    (s : Budget) (row r : ReservationRow) (state : State) (now : ℕ) (id : String)
    → IsOutcome s row state
    → reservation_by id s ≡ some r
    → IsLater r (if r.reservation_id == row.reservation_id then with_state state now r else r)
outcome-IsLater s row r state now id c found =
    elim (Bool-cases (r.reservation_id == row.reservation_id)) [
      | inl hit ↦
          let key : r.reservation_id ≡ row.reservation_id =
            (string_eq.beq_iff r.reservation_id row.reservation_id).0 hit in
          let wanted : r.reservation_id ≡ id =
            find_row-key (λ (x : ReservationRow). x.reservation_id) id s.reservations found in
          let again : reservation_by row.reservation_id s ≡ some r =
            subst (λ k. reservation_by k s ≡ some r) (sym wanted ∙ key) found in
          let is : r ≡ row = ground (arith, again, c.found) in
          rw hit (record {
            reservation_id = refl;
            month = refl;
            reserved = refl;
            expires = refl;
            final = λ n. absurd (n (ap (λ (x : ReservationRow). x.state) is ∙ c.starts));
          })
      | inr miss ↦ rw miss (IsLater-refl r)
    ]

reservation_by-Step :
    (id : String) {s s' : Budget} {r : ReservationRow}
    → Step s s'
    → reservation_by id s ≡ some r
    → (r' : ReservationRow) × (reservation_by id s' ≡ some r') × IsLater r r'
reservation_by-Step id {r = r} (bind i e) found = (r, rw e found, IsLater-refl r)
reservation_by-Step id {r = r} (opening month hash text now missing e) found =
    (r, rw e found, IsLater-refl r)
reservation_by-Step id {s} {r = r} (charging m row c e) found =
    elim (Bool-cases (row.reservation_id == id)) [
      | inl hit ↦ absurd (
          let key : row.reservation_id ≡ id = (string_eq.beq_iff row.reservation_id id).0 hit in
          let gone : reservation_by id s ≡ none =
            subst (λ k. reservation_by k s ≡ none) key c.fresh in
          cc)
      | inr miss ↦ (r, rw (e, miss) found, IsLater-refl r)
    ]
reservation_by-Step id {s} {r = r} (outcome row state now c e) found = (
  (if r.reservation_id == row.reservation_id then with_state state now r else r),
  rw
      (
        e,
        find_row-update_rows (λ x. x.reservation_id == id)
            (λ x. x.reservation_id == row.reservation_id) (with_state state now) (λ x. refl)
            s.reservations,
        found,
      )
      refl,
  outcome-IsLater s row r state now id c found,
)

pub reservation_by-IsLater :
    (id : String) {s s' : Budget} {r : ReservationRow}
    → Reach s s'
    → reservation_by id s ≡ some r
    → (r' : ReservationRow) × (reservation_by id s' ≡ some r') × IsLater r r'
reservation_by-IsLater id {r = r} here found = (r, found, IsLater-refl r)
reservation_by-IsLater id (next path st) found =
    let (r', found', l) = reservation_by-IsLater id path found in
    let (r'', found'', l') = reservation_by-Step id st found' in (r'', found'', IsLater-trans l l')
