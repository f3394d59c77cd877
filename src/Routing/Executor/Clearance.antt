-- ===== src/Routing/Executor/Clearance.antt =====
-- What a call of the executor needs to have come before it, and runs in which every call had that.
use mathlib.Core.List.{Memᴰ}
use memory_server_worker.Prelude.{
  ℕ, ◌<◌, ◌≤◌, String, Bool, true, false, some, List, [], ◌∷◌, any_row, Result, ok, ◌≡◌, refl, sym,
  ◌∙◌, arith,
}
use memory_server_worker.Routing.Budget.Inputs.{Reservation}
use memory_server_worker.Routing.SpaceLedger.Rows.{Identity}
use memory_server_worker.Routing.SpaceLedger.Inputs.{Ticket, Retirement, RetireInput, dispatch}
use memory_server_worker.Routing.Executor.Requests.{
  Input, ingest_request, search_request, clear_request, kind_of, space_of, IngestInput, SearchInput,
  ClearInput,
}
use memory_server_worker.Routing.Executor.Ports.{
  Failure, Authority, Event, Locals, clock_read, signal_read, uuid_drawn, authority_asked, admits,
  checks, finalizes, retires, lists, finishes, reports, reserves, settles, ingests, recalls,
  deletes, budget_key, Run, Config, start,
}
use memory_server_worker.Routing.Executor.Answers.{Externals, profile_name}
use memory_server_worker.Routing.Executor.Admission.{has_changed}
use memory_server_worker.Routing.Executor.Dispatching.{
  Exchange, ingestion, question, input_of, admit_input, reserve_input, check_input,
}
use memory_server_worker.Routing.Executor.Execution.{identity_of}
use memory_server_worker.Routing.Executor.Traces.{
  is_dispatch, outcome_of, admission_of, is_quiet, IsQuiet, same, more, outcome_of-IsQuiet,
  admission_of-IsQuiet, dispatches-IsQuiet, Causal, Causal-IsQuiet, Quiet, InOrder,
}

abbrev pub is_outcome : Event → Bool
is_outcome (finalizes v result) = true
is_outcome _ = false

pub outcomes-IsQuiet :
    {a b : List Event} → IsQuiet a b → any_row is_outcome b ≡ any_row is_outcome a
outcomes-IsQuiet same = refl
outcomes-IsQuiet (more e q h) = rw (is_outcome-quiet e q) (outcomes-IsQuiet h)
  where
    is_outcome-quiet : (e : Event) → is_quiet e ≡ true → is_outcome e ≡ false
    is_outcome-quiet e h = ground arith

-- An ingest keeps the name that its caller gave.
abbrev pub Names : Exchange → String → Type 0
Names (ingestion v) operation_id = operation_id ≡ v.operation_id
Names (question v) operation_id = Unit

module _ (x : Externals) (config : Config) (token : String) where
  -- What precedes the call of the provider, from the last call to the first: the clock was read, the
  -- ticket checked, the authority asked again, the reservation made, the request admitted, and the
  -- authority asked for the first time.
  pub record IsCleared (e : Exchange) (profile : String) (deadline_ms : ℕ) (earlier : List Event)
      : Type 0 where
    pub first : Authority
    pub current : Authority
    pub operation_id : String
    pub named : Names e operation_id
    pub ticket : Ticket
    pub reservation : Reservation
    pub fresh : ticket.may_dispatch ≡ true
    pub unspent : reservation.replayed ≡ false
    pub own_reservation :
        reservation.reservation_id ≡ x.digest (budget_key (identity_of config first) ticket.id)
    pub unchanged : has_changed (input_of e) first current ≡ false
    pub own_profile : profile ≡ profile_name x (identity_of config first) ticket.generation
    pub now : ℕ
    pub steps :
        InOrder
          (clock_read now
            ∷ checks (check_input first current (identity_of config first) ticket dispatch) (ok tt)
            ∷ authority_asked token (space_of (input_of e)) (kind_of (input_of e)) (ok current)
            ∷ reserves
                (reserve_input x config e first (identity_of config first) ticket)
                (ok reservation)
            ∷ admits (admit_input x e first (identity_of config first) operation_id) (ok ticket)
            ∷ authority_asked token (space_of (input_of e)) (kind_of (input_of e)) (ok first)
            ∷ [])
          earlier
    pub ahead : now < deadline_ms
    pub ticket_covers : deadline_ms ≤ ticket.expires_at_ms
    pub authority_covers : deadline_ms ≤ current.authority_expires_at_ms
    pub reservation_covers : deadline_ms ≤ reservation.expires_at_ms
    pub policy_covers : deadline_ms ≤ config.budget_policy.valid_until_ms
    pub single : any_row is_dispatch earlier ≡ false

  -- What precedes the deletion of a profile.
  pub record IsRetired (v : ClearInput) (profile : String) (earlier : List Event) : Type 0 where
    pub first : Authority
    pub request : RetireInput
    pub names_operation : request.operation_id ≡ v.operation_id
    pub retirement : Retirement
    pub retired : Memᴰ (retires request (ok retirement)) earlier
    pub fresh : retirement.may_dispatch ≡ true
    pub own_profile : profile ≡ profile_name x (identity_of config first) retirement.generation

  module _ (input : Input) where
    abbrev pub Needs : Event → List Event → Type 0
    Needs (ingests profile messages session deadline_ms result) earlier =
        (v : IngestInput) × (input ≡ ingest_request v)
        × (messages ≡ v.messages)
        × IsCleared (ingestion v) profile deadline_ms earlier
    Needs (recalls profile query deadline_ms result) earlier =
        (v : SearchInput) × (input ≡ search_request v)
        × (query ≡ v.query)
        × IsCleared (question v) profile deadline_ms earlier
    Needs (deletes profile deadline_ms result) earlier =
        (v : ClearInput) × (input ≡ clear_request v) × IsRetired v profile earlier
    Needs (finalizes v result) earlier = v.state ≡ outcome_of earlier
    Needs (settles v result) earlier = v.state ≡ outcome_of earlier
    Needs _ earlier = Unit

    Needs-quiet : (e : Event) (log : List Event) → is_quiet e ≡ true → Needs e log
    Needs-quiet e log h =
        elim e as (λ e. is_quiet e ≡ true → Needs e log) [
          | clock_read now ↦ λ h. tt
          | signal_read aborted ↦ λ h. tt
          | uuid_drawn id ↦ λ h. tt
          | authority_asked t s k result ↦ λ h. tt
          | admits v result ↦ λ h. tt
          | checks v result ↦ λ h. tt
          | finalizes v result ↦ λ h. absurd (ground arith)
          | retires v result ↦ λ h. tt
          | lists v result ↦ λ h. tt
          | finishes v result ↦ λ h. tt
          | reports i result ↦ λ h. tt
          | reserves v result ↦ λ h. tt
          | settles v result ↦ λ h. absurd (ground arith)
          | ingests p m s d result ↦ λ h. absurd (ground arith)
          | recalls p q d result ↦ λ h. absurd (ground arith)
          | deletes p d result ↦ λ h. absurd (ground arith)
        ]
          h

    pub record IsSound {ℓ} {S : Type ℓ} (r : Run S) : Type ℓ where
      pub causal : Causal Needs r.log
      pub truthful : r.locals.terminal ≡ outcome_of r.log
      pub filed : r.locals.ticket ≡ admission_of r.log
      pub owned :
          (t : Ticket)
          → r.locals.ticket ≡ some t
          → (f : Authority) × (i : Identity) × (r.locals.first ≡ some f)
            × (r.locals.identity ≡ some i)
      pub settled : r.locals.recorded ≡ true → any_row is_outcome r.log ≡ true
      pub shown : any_row is_dispatch r.log ≡ true → r.locals.dispatched ≡ true

    pub IsSound-Quiet {ℓ} : {S : Type ℓ} {r s : Run S} → IsSound r → Quiet r s → IsSound s
    IsSound-Quiet h q = record {
      causal = Causal-IsQuiet Needs Needs-quiet q.quiet h.causal;
      truthful = rw (q.locals_same, outcome_of-IsQuiet q.quiet) h.truthful;
      filed = rw (q.locals_same, admission_of-IsQuiet q.quiet) h.filed;
      owned = rw q.locals_same h.owned;
      settled = rw (q.locals_same, outcomes-IsQuiet q.quiet) h.settled;
      shown = rw (q.locals_same, dispatches-IsQuiet q.quiet) h.shown;
    }

    pub start-IsSound {ℓ} : {S : Type ℓ} (s : S) → IsSound (start s)
    unfolding outcome_of admission_of
    start-IsSound s = record {
      causal = tt;
      truthful = refl;
      filed = refl;
      owned = λ t e. absurd (ground arith);
      settled = λ e. absurd (ground arith);
      shown = λ e. absurd (ground arith);
    }

    -- An assignment that keeps what the log is compared with.
    pub IsSound-assign {ℓ} :
        {S : Type ℓ} {r : Run S} (l : Locals)
        → IsSound r
        → l.terminal ≡ r.locals.terminal
        → l.ticket ≡ r.locals.ticket
        → l.first ≡ r.locals.first
        → l.identity ≡ r.locals.identity
        → l.recorded ≡ r.locals.recorded
        → (r.locals.dispatched ≡ true → l.dispatched ≡ true)
        → IsSound (record r { locals = l })
    IsSound-assign l h terminal ticket first identity recorded dispatched = record {
      causal = h.causal;
      truthful = terminal ∙ h.truthful;
      filed = ticket ∙ h.filed;
      owned = λ t e.
          let (f, i, is_first, is_identity) = h.owned t (sym ticket ∙ e) in
          (f, i, first ∙ is_first, identity ∙ is_identity);
      settled = λ e. h.settled (sym recorded ∙ e);
      shown = λ e. dispatched (h.shown e);
    }

    pub IsSound-deletes {ℓ} :
        {S : Type ℓ} {r : Run S} (w : S) (v : ClearInput) (profile : String) (deadline_ms : ℕ)
        (result : Result Failure (Unit {0}))
        → IsSound r
        → input ≡ clear_request v
        → IsRetired v profile r.log
        → IsSound (record r { world = w; log = deletes profile deadline_ms result ∷ r.log })
    unfolding outcome_of admission_of
    IsSound-deletes w v profile deadline_ms result h e retired = record {
      causal = ((v, e, retired), h.causal);
      truthful = h.truthful;
      filed = h.filed;
      owned = h.owned;
      settled = λ k. h.settled k;
      shown = λ k. h.shown k;
    }
