-- ===== src/Routing/Executor/Settling.antt =====
-- `finalize` of the executor: it tries to write the outcome for each ticket that gave the permission
-- to dispatch.
use mathlib.Core.List.{Memᴰ}
use memory_server_worker.Prelude.{
  String, true, Option, none, some, any_row, ok, ◌≡◌, refl, arith, Bool-cases, inl, inr,
}
use memory_server_worker.Prelude.Actions.{After, After-both}
use memory_server_worker.Routing.SpaceLedger.Rows.{Identity}
use memory_server_worker.Routing.SpaceLedger.Inputs.{Ticket}
use memory_server_worker.Routing.Executor.Requests.{Input}
use memory_server_worker.Routing.Executor.Ports.{Authority, Ports, finalizes, Run, Config}
use memory_server_worker.Routing.Executor.Answers.{Externals}
use memory_server_worker.Routing.Executor.Admission.{
  space_outcome, record_outcome, finalize_with, finalize,
}
use memory_server_worker.Routing.Executor.Calls.{get-then}
use memory_server_worker.Routing.Executor.Clearance.{is_outcome, IsSound}
use memory_server_worker.Routing.Executor.Outcomes.{IsLater, IsLater-refl, record_outcome-After}

module _ {ℓ} {S : Type ℓ} (x : Externals) (config : Config) (token : String) (input : Input) where
  abbrev Fine : Run S → Type ℓ
  Fine = IsSound x config token input

  -- What `finalize` leaves, also where it throws.
  pub record IsFinal (r s : Run S) : Type ℓ where
    pub later : IsLater x config token input r s
    pub attempted :
        (t : Ticket)
        → r.locals.ticket ≡ some t
        → t.may_dispatch ≡ true
        → any_row is_outcome s.log ≡ true

  -- What it has written where it returns.
  abbrev pub HasWritten : Run S → Run S → Type 0
  HasWritten r s =
      (t : Ticket)
      → r.locals.ticket ≡ some t
      → t.may_dispatch ≡ true
      → (f : Authority) × (i : Identity) × Memᴰ (finalizes (space_outcome t f i r.locals) (ok tt))
          s.log

  module _ (ports : Ports S) where
    unticketed-IsFinal :
        (r : Run S)
        → Fine r
        → ((t : Ticket) → r.locals.ticket ≡ some t → t.may_dispatch ≡ true → ⊥)
        → IsFinal r r
    unticketed-IsFinal r h free = record {
      later = IsLater-refl x config token input r h;
      attempted = λ t e k. absurd (free t e k);
    }

    finalize_with-After :
        (ticket : Option Ticket) (r : Run S)
        → Fine r
        → r.locals.ticket ≡ ticket
        → After
            (λ _ s. IsFinal r s × HasWritten r s)
            (IsFinal r)
            (finalize_with config ports ticket r.locals.first r.locals.identity r.locals r)
    unfolding finalize_with After
    finalize_with-After none r h e =
        (unticketed-IsFinal r h (λ t k d. ground arith), λ t k d. absurd (ground arith))
    finalize_with-After (some t) r h e =
        let (f, i, is_first, is_identity) = h.owned t e in
        elim (Bool-cases t.may_dispatch) [
          | inl due ↦
              simp (is_first, is_identity, due)
                (After-both (record_outcome config ports t f i r.locals r)
                  (record_outcome-After x config token input ports t f i r h)
                  (λ s a. record { later = a.0; attempted = λ t k d. a.1 })
                  (λ a s w. (
                    record { later = w.0.0; attempted = λ t k d. w.0.1 },
                    λ t' k d. let same' : t' ≡ t = ground arith in (f, i, rw same' w.1),
                  )))
          | inr none_due ↦
              simp (is_first, is_identity, none_due)
                (unticketed-IsFinal r h (λ t' k d. ground arith), λ t' k d. absurd (ground arith))
        ]

    pub finalize-After :
        (r : Run S)
        → Fine r
        → After (λ _ s. IsFinal r s × HasWritten r s) (IsFinal r) (finalize config ports r)
    unfolding finalize
    finalize-After r h = get-then (IsFinal r) _ _ r (finalize_with-After r.locals.ticket r h refl)
