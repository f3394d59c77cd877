-- ===== src/Routing/Budget/Limits.antt =====
-- What a reservation costs, and what is left of its month.
use memory_server_worker.Prelude.{
  ℕ, ◌+◌, ◌*◌, ◌/◌, ◌≤◌, ◌<◌, String, false, Option, none, some, ◌==◌, nat_eq, string_eq,
  find_row-update_rows, find_row-true, find_row, ap, ◌≡◌, refl, ok, Option-cases, inl, inr, arith,
}
use memory_server_worker.Routing.Consent.{memory_ingest, memory_search}
use memory_server_worker.Routing.Month.{month_at}
use memory_server_worker.Routing.Budget.Rows.{MonthRow, Budget, month_by, reservation_by}
use memory_server_worker.Routing.Budget.Inputs.{Env, ReserveInput, Reservation, canonical_policy}
use memory_server_worker.Routing.Budget.Reservations.{
  reservation_of, bind_identity, column, cost_of, is_exhausted, conflicts, check_month,
  write_reservation, new_reservation, reserve_known, reserve_new, reserve_bound, reserve,
}
use memory_server_worker.Routing.Budget.Refinement.Reserving.{
  charge_of, reserve-eq-ok, reserve_new-eq-ok, write_reservation-eq-ok, update_month-eq-ok,
  insert_reservation-eq-ok, open_month-Reach,
}

-- What a request costs: the rate of its operation, and one for each KiB that it begins.
pub record IsPrice (v : ReserveInput) (cost : ℕ) : Type 0 where
  pub kibs : ℕ
  pub covers : v.input_bytes ≤ kibs * 1024
  pub tight : kibs * 1024 < v.input_bytes + 1024
  pub ingest :
      v.operation ≡ memory_ingest
      → cost ≡ v.policy.ingest_base_micro_usd + kibs * v.policy.ingest_micro_usd_per_kib
  pub search :
      v.operation ≡ memory_search
      → cost ≡ v.policy.search_base_micro_usd + kibs * v.policy.search_micro_usd_per_kib

cost_of-IsPrice : (v : ReserveInput) → IsPrice v (cost_of v)
unfolding cost_of
cost_of-IsPrice v = record {
  kibs = (v.input_bytes + 1023) / 1024;
  covers = omega arith;
  tight = omega arith;
  ingest = λ e. rw e refl;
  search = λ e. rw e refl;
}

-- What a counter had before, where the month may not have been opened.
abbrev had : (MonthRow → ℕ) → Option MonthRow → ℕ
had counter none = 0
had counter (some m) = counter m

had-column :
    (counter : MonthRow → ℕ) (before : Option MonthRow) → column counter before ≡ had counter before
had-column counter none = refl
had-column counter (some m) = refl

-- The month's row before and after a reservation: it is charged for the request and its cost, and
-- stays under the caps of the caller's policy, whose hash the row has and had.
pub record IsCharged (v : ReserveInput) (hash : String) (cost : ℕ) (before : Option MonthRow)
    (m : MonthRow) : Type 0 where
  pub same_policy : m.policy_hash ≡ hash
  pub kept_policy : (opened : MonthRow) → before ≡ some opened → opened.policy_hash ≡ hash
  pub one_more : m.requests ≡ had (λ m. m.requests) before + 1
  pub more_bytes : m.input_bytes ≡ had (λ m. m.input_bytes) before + v.input_bytes
  pub more_reserved : m.reserved_micro_usd ≡ had (λ m. m.reserved_micro_usd) before + cost
  pub requests : m.requests ≤ v.policy.max_monthly_requests
  pub input_bytes : m.input_bytes ≤ v.policy.max_monthly_input_bytes
  pub reserved : m.reserved_micro_usd ≤ v.policy.max_monthly_reserved_micro_usd

conflicts-kept :
    (before : Option MonthRow) (hash : String)
    → conflicts before hash ≡ false
    → (opened : MonthRow) → before ≡ some opened
    → opened.policy_hash ≡ hash
conflicts-kept before hash h opened e = (string_eq.beq_iff opened.policy_hash hash).0 (ground arith)

check_month-limits :
    (current : Option MonthRow) (v : ReserveInput) (hash : String)
    → check_month current v hash ≡ ok tt
    → (column (λ m. m.requests) current + 1 ≤ v.policy.max_monthly_requests)
      × (column (λ m. m.input_bytes) current + v.input_bytes ≤ v.policy.max_monthly_input_bytes)
      × (column (λ m. m.reserved_micro_usd) current + cost_of v
          ≤ v.policy.max_monthly_reserved_micro_usd)
      × (conflicts current hash ≡ false)
unfolding check_month is_exhausted
check_month-limits current v hash h = (ground arith, ground arith, ground arith, ground arith)

-- What is in the month's row after the three writes.
write_reservation-month :
    (v : ReserveInput) (month text hash : String) (now : ℕ) (s : Budget) {s' : Budget}
    → conflicts (month_by month s) hash ≡ false
    → write_reservation (month_by month s) v month text hash now s ≡ ok s'
    → (m : MonthRow) × (month_by month s' ≡ some (charge_of (month_by month s) v m))
      × (m.policy_hash ≡ hash)
write_reservation-month v month text hash now s fits h =
    let (opened, opens, charged, charges, inserts) =
      write_reservation-eq-ok (month_by month s) v month text hash now s h in
    let (m, reach, found, policy, q, b, c, t, w) =
      open_month-Reach month hash text now s opens fits in
    let (bounded, t-eq) =
      update_month-eq-ok month (charge_of (month_by month s) v) opened charges in
    let (fresh, valid, u-eq) =
      insert_reservation-eq-ok (new_reservation v month hash now) charged inserts in
    (
      m,
      rw
          (
            u-eq,
            t-eq,
            find_row-update_rows (λ x. x.month == month) (λ x. x.month == month)
                (charge_of (month_by month s) v) (λ x. refl) opened.months,
            found,
          )
          (ground (arith, find_row-true (λ (x : MonthRow). x.month == month) opened.months found)),
      policy,
    )

reserve_new-IsCharged :
    (v : ReserveInput) (text hash : String) (now : ℕ) (s : Budget) {r : Reservation × Budget}
    → reserve_new v text hash now s ≡ ok r
    → (m : MonthRow) × (month_by (month_at now) r.1 ≡ some m)
      × IsCharged v hash (cost_of v) (month_by (month_at now) s) m
      × (r.0 ≡ reservation_of (new_reservation v (month_at now) hash now) false)
reserve_new-IsCharged v text hash now s h =
    let (written, checked, room, same) = reserve_new-eq-ok v text hash now s h in
    let (q, b, c, fits) = check_month-limits (month_by (month_at now) s) v hash checked in
    let (m, found, policy) =
      write_reservation-month v (month_at now) text hash now s fits written in
    (
      charge_of (month_by (month_at now) s) v m,
      found,
      record {
        same_policy = policy;
        kept_policy = conflicts-kept (month_by (month_at now) s) hash fits;
        one_more = ap (λ n. n + 1) (had-column (λ m. m.requests) (month_by (month_at now) s));
        more_bytes =
            ap (λ n. n + v.input_bytes)
              (had-column (λ m. m.input_bytes) (month_by (month_at now) s));
        more_reserved =
            ap (λ n. n + cost_of v)
              (had-column (λ m. m.reserved_micro_usd) (month_by (month_at now) s));
        requests = q;
        input_bytes = b;
        reserved = c;
      },
      same,
    )

-- What a granted reservation says.
pub record IsGranted (v : ReserveInput) (now : ℕ) (t : Reservation) : Type 0 where
  pub reservation_id : t.reservation_id ≡ v.reservation_id
  pub month : t.month ≡ month_at now
  pub cost : IsPrice v t.reserved_micro_usd
  pub later : now < t.expires_at_ms
  pub minute : t.expires_at_ms ≤ now + 60_000
  pub authority : t.expires_at_ms ≤ v.authority_expires_at_ms
  pub policy : t.expires_at_ms ≤ v.policy.valid_until_ms

reserve_bound-new :
    (v : ReserveInput) (text hash : String) (now : ℕ) (s : Budget) {r : Reservation × Budget}
    → reserve_bound v text hash now s ≡ ok r
    → r.0.replayed ≡ false
    → (reserve_new v text hash now s ≡ ok r)
      × (now < v.authority_expires_at_ms)
      × (now < v.policy.valid_until_ms)
unfolding reserve_bound reserve_known
reserve_bound-new v text hash now s h new =
    elim (Option-cases (reservation_by v.reservation_id s)) [
      | inl fresh ↦ (ground arith, ground arith, ground arith)
      | inr (row, e) ↦ absurd (ground arith)
    ]

bind_identity-months :
    (env : Env) (budget_id : String) (s : Budget) {b : Budget}
    → bind_identity env budget_id s ≡ ok b
    → b.months ≡ s.months
unfolding bind_identity
bind_identity-months env budget_id s h = ground arith

-- A reservation that is granted and is not a replay is charged to the current month: the row of the
-- month counts one request more than before, its bytes and its cost, and with these it stays under
-- the caps of the caller's policy, whose hash it has, and had if the month was there before. The
-- cost is the rate of the operation, and one for each KiB that the input begins. The reservation
-- expires after the current time, within a minute, and neither after the caller's authority nor
-- after the policy.
pub reserve-IsCharged :
    (digest : String → String) (env : Env) (v : ReserveInput) (s : Budget)
    {r : Reservation × Budget}
    → reserve digest env v s ≡ ok r
    → r.0.replayed ≡ false
    → IsGranted v env.now r.0
      × (m : MonthRow) × (month_by (month_at env.now) r.1 ≡ some m)
      × IsCharged v
          (digest (canonical_policy v.policy))
          r.0.reserved_micro_usd
          (month_by (month_at env.now) s)
          m
reserve-IsCharged digest env v s {r} h new =
    let (b, bound, run) = reserve-eq-ok digest env v s h in
    let (granted, a, p) =
      reserve_bound-new v (canonical_policy v.policy) (digest (canonical_policy v.policy)) env.now b
        run new in
    let (m, found, charged, same) =
      reserve_new-IsCharged v (canonical_policy v.policy) (digest (canonical_policy v.policy))
        env.now b granted in
    let months : month_by (month_at env.now) b ≡ month_by (month_at env.now) s =
      ap (find_row (λ m. m.month == month_at env.now))
        (bind_identity-months env v.budget_id s bound) in
    (
      rw same (record {
        reservation_id = refl;
        month = refl;
        cost = cost_of-IsPrice v;
        later = omega (arith, a, p);
        minute = omega arith;
        authority = omega arith;
        policy = omega arith;
      }),
      m,
      found,
      rw (same, ← months) charged,
    )
