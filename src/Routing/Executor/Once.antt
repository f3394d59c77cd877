-- ===== src/Routing/Executor/Once.antt =====
-- The executor over a Space ledger that is the modelled one: an ingest is dispatched once.
use mathlib.Core.List.{Memᴰ}
use mathlib.Core.List.Memᴰ
use memory_server_worker.Prelude.{
  ◌+◌, ◌≤◌, String, Bool, true, false, Option, some, List, ◌∷◌, count_rows, any_row, Result, ok,
  err, ◌≡◌, refl, sym, ◌∙◌, arith, Bool-cases, inl, inr,
}
use memory_server_worker.Routing.SpaceLedger.Rows.{Ledger}
use memory_server_worker.Routing.SpaceLedger.Inputs.{Env, AdmitInput, Ticket}
use memory_server_worker.Routing.SpaceLedger.Admissions.{admit}
use memory_server_worker.Routing.SpaceLedger.Steps.{Reach, here, Reach-trans}
use memory_server_worker.Routing.SpaceLedger.Tickets.{admit_once}
use memory_server_worker.Routing.Executor.Requests.{IngestInput, Input, ingest_request}
use memory_server_worker.Routing.Executor.Ports.{Failure, Ports, Event, admits, Config}
use memory_server_worker.Routing.Executor.Answers.{Externals}
use memory_server_worker.Routing.Executor.Execution.{execute}
use memory_server_worker.Routing.Executor.Traces.{is_dispatch}
use memory_server_worker.Routing.Executor.Singles.{
  count_rows-none, dispatches_le, dispatched-IsAdmitted,
}
use memory_server_worker.Routing.Executor.Safety.{execute-IsSafe}
use memory_server_worker.Routing.Executor.Worlds.{IsKept}
use memory_server_worker.Routing.Executor.Invariants.{execute-Holds}

-- The world has the ledger of the Space: `admit` runs on it, and each call, with all that other
-- callers do meanwhile, moves it by its steps.
pub record IsSpace {ℓ} {S : Type ℓ} (ports : Ports S) (ledger : S → Ledger) : Type ℓ where
  pub moves : (l : Ledger) → IsKept ports (λ s log. Reach l (ledger s))
  pub admitted :
      (v : AdmitInput) (s : S) (t : Ticket)
      → (ports.admit v s).0 ≡ ok t
      → (env : Env) × (b : Ledger) × (c : Ledger) × Reach (ledger s) b
        × (admit env v b ≡ ok (t, c))
        × Reach c (ledger (ports.admit v s).1)

abbrev is_admission : Event → Bool
is_admission (admits v (ok ticket)) = true
is_admission _ = false

module _ {ℓ} {S : Type ℓ} (ports : Ports S) (ledger : S → Ledger)
    (space : IsSpace ports ledger) where
  -- A ticket of the log was issued by the ledger, behind the start and before now.
  record IsIssued (start : Ledger) (s : S) (v : AdmitInput) (t : Ticket) : Type 0 where
    env : Env
    before : Ledger
    after : Ledger
    since : Reach start before
    issued : admit env v before ≡ ok (t, after)
    until : Reach after (ledger s)

  record IsTraced (start : Ledger) (s : S) (log : List Event) : Type 0 where
    reached : Reach start (ledger s)
    tickets : (v : AdmitInput) (t : Ticket) → Memᴰ (admits v (ok t)) log → IsIssued start s v t

  IsIssued-later :
      {start : Ledger} {s s' : S} {v : AdmitInput} {t : Ticket}
      → Reach (ledger s) (ledger s')
      → IsIssued start s v t
      → IsIssued start s' v t
  IsIssued-later path h = record {
    env = h.env;
    before = h.before;
    after = h.after;
    since = h.since;
    issued = h.issued;
    until = Reach-trans h.until path;
  }

  IsTraced-more :
      (start : Ledger) (s s' : S) (log : List Event) (e : Event)
      → is_admission e ≡ false
      → Reach (ledger s) (ledger s')
      → IsTraced start s log
      → IsTraced start s' (e ∷ log)
  IsTraced-more start s s' log e other path h = record {
    reached = Reach-trans h.reached path;
    tickets = λ v t m. IsIssued-later path (h.tickets v t (old v t m));
  }
    where
      old :
          (v : AdmitInput) (t : Ticket)
          → Memᴰ (admits v (ok t)) (e ∷ log)
          → Memᴰ (admits v (ok t)) log
      old v t (Memᴰ.head same) = absurd (clash (rw (← same) at other))
        where
          clash : true ≡ false → ⊥
          clash k = ground arith
      old v t (Memᴰ.tail m) = m

  admits-IsTraced :
      (start : Ledger) (v : AdmitInput) (s : S) (log : List Event) (result : Result Failure Ticket)
      → (ports.admit v s).0 ≡ result
      → IsTraced start s log
      → IsTraced start (ports.admit v s).1 (admits v result ∷ log)
  admits-IsTraced start v s log (err e) same h =
      IsTraced-more start s _ log _ refl ((space.moves (ledger s)).admit_kept v s log here) h
  admits-IsTraced start v s log (ok t) same h = record {
    reached = Reach-trans h.reached path;
    tickets = found;
  }
    where
      path : Reach (ledger s) (ledger (ports.admit v s).1)
      path = (space.moves (ledger s)).admit_kept v s log here

      newest : IsIssued start (ports.admit v s).1 v t
      newest =
          let (env, b, c, before, run, behind) = space.admitted v s t same in
          record {
            env = env;
            before = b;
            after = c;
            since = Reach-trans h.reached before;
            issued = run;
            until = behind;
          }

      found :
          (v' : AdmitInput) (t' : Ticket)
          → Memᴰ (admits v' (ok t')) (admits v (ok t) ∷ log)
          → IsIssued start (ports.admit v s).1 v' t'
      found v' t' (Memᴰ.head e) =
          let same_input : v' ≡ v = ground arith in
          let same_ticket : t' ≡ t = ground arith in rw (same_input, same_ticket) newest
      found v' t' (Memᴰ.tail m) = IsIssued-later path (h.tickets v' t' m)

  IsTraced-kept : (start : Ledger) → IsKept ports (IsTraced start)
  IsTraced-kept start = record {
    admit_kept = λ v s log h. admits-IsTraced start v s log (ports.admit v s).0 refl h;
    clock_kept = λ s log h.
        IsTraced-more start s _ log _ refl ((space.moves (ledger s)).clock_kept s log here) h;
    aborted_kept = λ s log h.
        IsTraced-more start s _ log _ refl ((space.moves (ledger s)).aborted_kept s log here) h;
    random_uuid_kept = λ s log h.
        IsTraced-more start s _ log _ refl ((space.moves (ledger s)).random_uuid_kept s log here) h;
    authority_kept = λ token space_id k s log h.
        IsTraced-more start s _ log _ refl
          ((space.moves (ledger s)).authority_kept token space_id k s log here) h;
    check_kept = λ v s log h.
        IsTraced-more start s _ log _ refl ((space.moves (ledger s)).check_kept v s log here) h;
    finalize_kept = λ v s log h.
        IsTraced-more start s _ log _ refl ((space.moves (ledger s)).finalize_kept v s log here) h;
    retire_kept = λ v s log h.
        IsTraced-more start s _ log _ refl ((space.moves (ledger s)).retire_kept v s log here) h;
    finish_kept = λ v s log h.
        IsTraced-more start s _ log _ refl ((space.moves (ledger s)).finish_kept v s log here) h;
    usage_kept = λ i s log h.
        IsTraced-more start s _ log _ refl ((space.moves (ledger s)).usage_kept i s log here) h;
    reserve_kept = λ v s log h.
        IsTraced-more start s _ log _ refl ((space.moves (ledger s)).reserve_kept v s log here) h;
    settle_kept = λ v s log h.
        IsTraced-more start s _ log _ refl ((space.moves (ledger s)).settle_kept v s log here) h;
    ingest_kept = λ p ms session d s log h.
        IsTraced-more start s _ log _ refl
          ((space.moves (ledger s)).ingest_kept p ms session d s log here) h;
    recall_kept = λ p q d s log h.
        IsTraced-more start s _ log _ refl ((space.moves (ledger s)).recall_kept p q d s log here)
          h;
    delete_kept = λ p d s log h.
        IsTraced-more start s _ log _ refl ((space.moves (ledger s)).delete_kept p d s log here) h;
  }

  IsIssued-once :
      {start : Ledger} {r u w : S} {v v' : AdmitInput} {t t' : Ticket}
      → IsIssued start r v t
      → Reach (ledger r) (ledger u)
      → IsIssued (ledger u) w v' t'
      → v'.operation_id ≡ v.operation_id
      → t'.may_dispatch ≡ false
  IsIssued-once h path h' same =
      (admit_once h.env h'.env _ _ h.before h'.before h.issued
        (Reach-trans h.until (Reach-trans path h'.since)) same h'.issued).0

  execute-IsTraced :
      (x : Externals) (config : Config) (token : String) (given : Option Input) (s : S)
      → let r = (execute x config ports token given s).1 in IsTraced (ledger s) r.world r.log
  execute-IsTraced x config token given s =
      execute-Holds (IsTraced (ledger s)) ports (IsTraced-kept (ledger s)) x config token given s
        (record { reached = here; tickets = λ v t m. absurd (Memᴰ.not-nil m) })

  -- Take ports whose Space ledger is the modelled one, and two ingests with one operation id, the
  -- second one run at any later state of the ledger. Together they call the provider at most once.
  pub ingest_once :
      (x : Externals) (config : Config) (token token' : String) (v v' : IngestInput) (s u : S)
      → v'.operation_id ≡ v.operation_id
      → Reach (ledger (execute x config ports token (some (ingest_request v)) s).1.world) (ledger u)
      → count_rows is_dispatch (execute x config ports token (some (ingest_request v)) s).1.log
          + count_rows is_dispatch
              (execute x config ports token' (some (ingest_request v')) u).1.log
        ≤ 1
  ingest_once x config token token' v v' s u same path =
      let r = (execute x config ports token (some (ingest_request v)) s).1 in
      let r' = (execute x config ports token' (some (ingest_request v')) u).1 in
      let causal = (execute-IsSafe x config token ports (ingest_request v) s).sound.causal in
      let causal' = (execute-IsSafe x config token' ports (ingest_request v') u).sound.causal in
      elim (Bool-cases (any_row is_dispatch r.log)) [
        | inr none_first ↦ ground (
          arith,
          count_rows-none r.log none_first,
          dispatches_le x config token' (ingest_request v') r'.log causal',
        )
        | inl some_first ↦ elim (Bool-cases (any_row is_dispatch r'.log)) [
          | inr none_second ↦ ground (
            arith,
            count_rows-none r'.log none_second,
            dispatches_le x config token (ingest_request v) r.log causal,
          )
          | inl some_second ↦
              let a = dispatched-IsAdmitted x config token v r.log causal some_first in
              let a' = dispatched-IsAdmitted x config token' v' r'.log causal' some_second in
              let spent =
                IsIssued-once
                  ((execute-IsTraced x config token (some (ingest_request v)) s).tickets a.request
                    a.ticket a.admitted)
                  path
                  ((execute-IsTraced x config token' (some (ingest_request v')) u).tickets
                    a'.request a'.ticket a'.admitted)
                  (a'.named ∙ same ∙ sym a.named) in
              absurd (ground (arith, spent, a'.fresh))
        ]
      ]
