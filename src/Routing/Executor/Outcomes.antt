-- ===== src/Routing/Executor/Outcomes.antt =====
-- The records of an outcome that the executor writes: they have the state that the log tells.
use mathlib.Core.List.{Memᴰ}
use memory_server_worker.Prelude.{
  String, Bool, true, false, ◌&&◌, not, Option, none, some, any_row, Result, ok, err, ◌≡◌, refl,
  sym, ◌∙◌, arith, Bool-cases, inl, inr,
}
use memory_server_worker.Prelude.Actions.{After, After-continue, After-captured, After-throw_if}
use memory_server_worker.Routing.SpaceLedger.Rows.{Identity}
use memory_server_worker.Routing.SpaceLedger.Inputs.{FinalizeInput, Ticket}
use memory_server_worker.Routing.Budget.Inputs.{FinalizeInput as Settlement}
use memory_server_worker.Routing.Executor.Requests.{Input}
use memory_server_worker.Routing.Executor.Ports.{
  Failure, Authority, Ports, Event, finalizes, settles, Locals, Run, Config, assign,
}
use memory_server_worker.Routing.Executor.Answers.{Externals}
use memory_server_worker.Routing.Executor.Admission.{
  space_outcome, was_replayed, settle_budget, record_outcome,
}
use memory_server_worker.Routing.Executor.Traces.{outcome_of, admission_of}
use memory_server_worker.Routing.Executor.Calls.{grown, perform-After}
use memory_server_worker.Routing.Executor.Clearance.{is_outcome, IsSound}

module _ {ℓ} {S : Type ℓ} (x : Externals) (config : Config) (token : String) (input : Input) where
  abbrev pub Sound : Run S → Type ℓ
  Sound = IsSound x config token input

  -- Only records of the outcome came behind the first log.
  pub record IsLater (r s : Run S) : Type ℓ where
    pub sound : Sound s
    pub locals_same : s.locals ≡ record r.locals { recorded = s.locals.recorded }
    pub keeps : (e : Event) → Memᴰ e r.log → Memᴰ e s.log
    pub tells : outcome_of s.log ≡ outcome_of r.log
    pub attempts : any_row is_outcome r.log ≡ true → any_row is_outcome s.log ≡ true

  pub IsLater-refl : (r : Run S) → Sound r → IsLater r r
  IsLater-refl r h = record {
    sound = h;
    locals_same = refl;
    keeps = λ e m. m;
    tells = refl;
    attempts = λ h. h;
  }

  -- One record more.
  finalized-IsLater :
      (v : FinalizeInput) (result : Result Failure (Unit {0})) (r : Run S) (w : S)
      → Sound r
      → v.state ≡ outcome_of r.log
      → IsLater r (grown r w (finalizes v result))
  unfolding outcome_of admission_of
  finalized-IsLater v result r w h e = record {
    sound = record {
      causal = (e, h.causal);
      truthful = h.truthful;
      filed = h.filed;
      owned = h.owned;
      settled = λ k. refl;
      shown = h.shown;
    };
    locals_same = refl;
    keeps = λ e m. Memᴰ.tail m;
    tells = refl;
    attempts = λ k. refl;
  }

  settled-IsLater :
      (v : Settlement) (result : Result Failure (Unit {0})) (r s : Run S) (w : S)
      → IsLater r s
      → v.state ≡ outcome_of s.log
      → IsLater r (grown s w (settles v result))
  unfolding outcome_of admission_of
  settled-IsLater v result r s w h e = record {
    sound = record {
      causal = (e, h.sound.causal);
      truthful = h.sound.truthful;
      filed = h.sound.filed;
      owned = h.sound.owned;
      settled = λ k. ground (arith, h.sound.settled k);
      shown = λ k. h.sound.shown (ground arith);
    };
    locals_same = h.locals_same;
    keeps = λ e m. Memᴰ.tail (h.keeps e m);
    tells = h.tells;
    attempts = λ k. ground (arith, h.attempts k);
  }

  -- What holds once the record was tried, and where it is in the log.
  abbrev pub Attempted : Run S → Run S → Type ℓ
  Attempted r s = IsLater r s × (any_row is_outcome s.log ≡ true)

  abbrev pub Written : Run S → FinalizeInput → Run S → Type ℓ
  Written r v s = Attempted r s × Memᴰ (finalizes v (ok tt)) s.log

  module _ (ports : Ports S) where
    settle_budget-After :
        (P : Run S → Type ℓ) (locals : Locals) (id : Option String) (s : Run S)
        → P s
        → ((v : Settlement) (result : Result Failure (Unit {0})) (w : S)
            → v.state ≡ locals.terminal
            → P (grown s w (settles v result)))
        → (F : Run S → Type ℓ) → After (λ b t. P t) F (settle_budget config ports locals id s)
    unfolding settle_budget After
    settle_budget-After P locals none s h grows F = h
    settle_budget-After P locals (some id) s h grows F =
        elim (Bool-cases (locals.budget_attempted && not (was_replayed locals.reservation))) [
          | inl due ↦ rw due (
              After-captured F (λ b t. P t) _
                (perform-After (λ t. P t) (λ a t. P t) (ports.settle _) (settles _) s
                  (λ a w e. grows _ (ok a) w refl) (λ e w k. grows _ (err e) w refl)))
          | inr none_due ↦ rw none_due h
        ]

    -- A failure of the first record is `true`.
    abbrev Tried : Run S → FinalizeInput → Bool → Run S → Type ℓ
    Tried r v failed s = Attempted r s × (failed ≡ false → Memᴰ (finalizes v (ok tt)) s.log)

    Tried-settles :
        (r s : Run S) (v : FinalizeInput) (failed : Bool) (b : Settlement)
        (result : Result Failure (Unit {0})) (w : S)
        → Tried r v failed s
        → b.state ≡ outcome_of s.log
        → Tried r v failed (grown s w (settles b result))
    Tried-settles r s v failed b result w ((later, attempted), written) e =
        ((settled-IsLater b result r s w later e, attempted), λ k. Memᴰ.tail (written k))

    recorded-IsLater :
        (r s : Run S)
        → Attempted r s
        → IsLater r (record s { locals = record s.locals { recorded = true } })
    recorded-IsLater r s (later, attempted) = record {
      sound = record {
        causal = later.sound.causal;
        truthful = later.sound.truthful;
        filed = later.sound.filed;
        owned = later.sound.owned;
        settled = λ k. attempted;
        shown = later.sound.shown;
      };
      locals_same = rw later.locals_same refl;
      keeps = later.keeps;
      tells = later.tells;
      attempts = later.attempts;
    }

    pub record_outcome-After :
        (t : Ticket) (f : Authority) (i : Identity) (r : Run S)
        → Sound r
        → After
            (λ _ s. Written r (space_outcome t f i r.locals) s)
            (Attempted r)
            (record_outcome config ports t f i r.locals r)
    unfolding record_outcome After assign
    record_outcome-After t f i r h =
        let v = space_outcome t f i r.locals in
        After-continue (Attempted r) (Tried r v) _ _ _
          (After-captured (Attempted r) (Tried r v) _ (
            perform-After (Tried r v true) (λ a s. Tried r v false s) (ports.finalize v)
              (finalizes v) r
              (λ a w e. ((finalized-IsLater v (ok a) r w h h.truthful, refl), λ k. Memᴰ.head refl))
              (λ e w k. (
                (finalized-IsLater v (err e) r w h h.truthful, refl),
                λ k. absurd (ground arith),
              ))))
          (λ failed s tried.
            After-continue (Attempted r) (λ b u. Tried r v failed u) _ _ _
              (settle_budget-After (Tried r v failed) r.locals _ s tried
                (λ b result w e.
                  Tried-settles r s v failed b result w tried
                    (e ∙ h.truthful ∙ sym tried.0.0.tells))
                (Attempted r))
              (λ b u tried'.
                After-throw_if (Attempted r) _ _ _ _ u tried'.0 (λ passed.
                  ((recorded-IsLater r u tried'.0, tried'.0.1), tried'.1 (ground arith)))))
