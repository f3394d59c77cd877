-- ===== src/Routing/Executor/Deletions.antt =====
-- The retirements that the ledger took as acknowledged in a reconciliation, each behind the deletion of
-- its profile.
use mathlib.Core.List.{Memᴰ}
use memory_server_worker.Prelude.{
  ℕ, suc, ◌+◌, Bool, true, false, List, ◌∷◌, count_rows, ◌==◌, Result, ok, err, ◌≡◌, refl, arith,
  if◌then◌else◌,
}
use memory_server_worker.Prelude.Actions.{
  Action, recover, return, After, After-continue, After-guard, After-if, After-both,
}
use memory_server_worker.Routing.SpaceLedger.Rows.{acknowledged, Identity, retirement_eq}
use memory_server_worker.Routing.SpaceLedger.Inputs.{Retirement}
use memory_server_worker.Routing.Executor.Ports.{
  Failure, Ports, Event, clock_read, signal_read, finishes, deletes, Run,
}
use memory_server_worker.Routing.Executor.Answers.{Externals, profile_name}
use memory_server_worker.Routing.Executor.Admission.{check}
use memory_server_worker.Routing.Executor.Reconciliation.{
  check_row, delete_row, leave_row, reconcile_row,
}
use memory_server_worker.Routing.Executor.Traces.{Causal}
use memory_server_worker.Routing.Executor.Calls.{
  grown, perform-After, perform-then, observe-then, assign-then, return-After, get-then,
}

-- The ledger took a retirement as acknowledged.
abbrev pub is_acknowledgement : Event → Bool
is_acknowledgement (finishes v (ok done)) = v.state == acknowledged
is_acknowledgement _ = false

pub data Never {ℓ} : Type ℓ where

After-quiet {ℓ} :
    {S : Type ℓ} (P : Run S → Type ℓ) (m : Result Failure (Unit {0}) × Run S)
    → After (λ _ s. P s) P m
    → After (λ _ s. P s) (λ s. Never) (recover (λ dropped. return tt) m)
unfolding After recover
After-quiet P (ok a, s) h = h
After-quiet P (err e, s) h = h

pub After-run {ℓ κ} :
    {S : Type ℓ} {A : Type κ} (Q : A → Run S → Type ℓ) (m : Result Failure A × Run S)
    → After Q (λ s. Never) m
    → (a : A) × (m.0 ≡ ok a) × Q a m.1
unfolding After
After-run Q (ok a, s) h = (a, refl, h)
After-run Q (err e, s) never = elim never [ ]

After-handled {ℓ} :
    {S : Type ℓ} (F : Run S → Type ℓ) {P Q : Bool → Run S → Type ℓ}
    (handler : Failure → Action Failure (Run S) Bool) (m : Result Failure Bool × Run S)
    → After P F m
    → ((b : Bool) (s : Run S) → P b s → Q b s)
    → ((e : Failure) (s : Run S) → F s → After Q (λ s. Never) (handler e s))
    → After Q (λ s. Never) (recover handler m)
unfolding After recover
After-handled F handler (ok a, s) h returned threw = returned a s h
After-handled F handler (err e, s) h returned threw = threw e s h

module _ (x : Externals) (identity : Identity) (rows : List Retirement) where
  -- The call before an acknowledgement of one of the rows is the deletion of the profile of the
  -- generation that this row retired, which returned.
  abbrev pub Deleted : Event → List Event → Type 0
  Deleted (finishes v result) earlier =
      v.state ≡ acknowledged
      → (row : Retirement) × (deadline_ms : ℕ) × (older : List Event) × Memᴰ row rows
        × (v.identity ≡ identity)
        × (v.retirement_id ≡ row.id)
        × (earlier ≡ deletes (profile_name x identity row.generation) deadline_ms (ok tt) ∷ older)
  Deleted _ earlier = Unit

  module _ {ℓ} {S : Type ℓ} where
    pub record HasCount (n : ℕ) (r : Run S) : Type ℓ where
      pub counted : count_rows is_acknowledgement r.log ≡ n
      pub causal : Causal Deleted r.log

    pub HasCount-more :
        {n : ℕ} {r : Run S} (w : S) (e : Event)
        → is_acknowledgement e ≡ false
        → Deleted e r.log
        → HasCount n r
        → HasCount n (grown r w e)
    HasCount-more w e other needs h = record {
      counted = ground (arith, other, h.counted);
      causal = (needs, h.causal);
    }

    module _ (ports : Ports S) where
      check_row-After :
          (deadline_ms n : ℕ) (r : Run S)
          → HasCount n r
          → After (λ _ s. HasCount n s) (HasCount n) (check_row x ports identity deadline_ms r)
      unfolding check_row check
      check_row-After deadline_ms n r h =
          After-continue (HasCount n) (λ _ s. HasCount n s) _ _ _
            (observe-then (HasCount n) _ ports.aborted signal_read _ r (λ aborted w e.
              After-guard (HasCount n) _ aborted _ _ (λ set. HasCount-more w _ refl tt h)
                (λ clear. HasCount-more w _ refl tt h)))
            (λ a s h1. observe-then (HasCount n) _ ports.clock clock_read _ s (λ now w e.
              After-guard (HasCount n) _ _ _ _ (λ late. HasCount-more w _ refl tt h1)
                (λ early. HasCount-more w _ refl tt h1)))

      delete_row-After :
          (row : Retirement) (n : ℕ) (r : Run S)
          → Memᴰ row rows
          → HasCount n r
          → After
              (λ b s. (b ≡ true) × HasCount (suc n) s)
              (HasCount n)
              (delete_row x ports identity row r)
      unfolding delete_row
      delete_row-After row n r listed h =
          let Q : Bool → Run S → Type ℓ = λ b s. (b ≡ true) × HasCount (suc n) s in
          assign-then (HasCount n) Q _ _ r (
            observe-then (HasCount n) Q ports.clock clock_read _ _ (λ now w e.
              let h1 : HasCount n (grown r w (clock_read now)) = HasCount-more w _ refl tt h in
              After-continue (HasCount n) (λ _ s. HasCount n s) Q _ _
                (check_row-After (now + 15000) n _
                  record { counted = h1.counted; causal = h1.causal })
                (λ a s h2.
                  After-continue (HasCount n) (λ _ s. HasCount n s) Q _ _
                    (check_row-After (now + 15000) n s h2)
                    (λ b t h3. assign-then (HasCount n) Q _ _ t (
                      perform-then (HasCount n) Q _ _ _ _
                        (λ c w4 k.
                          perform-then (HasCount n) Q _ _ _ _
                            (λ d w5 k'. return-After (HasCount n) Q true _ (
                              refl,
                              record {
                                counted = ground (arith, h3.counted);
                                causal = (
                                  (λ same. (row, _, _, listed, refl, refl, refl)),
                                  (tt, h3.causal),
                                );
                              },
                            ))
                            (λ f w5 k'. record {
                              counted = ground (arith, h3.counted);
                              causal = (
                                (λ same. (row, _, _, listed, refl, refl, refl)),
                                (tt, h3.causal),
                              );
                            }))
                        (λ f w4 k. record {
                          counted = ground (arith, h3.counted);
                          causal = (tt, h3.causal);
                        }))))))

      leave_row-After :
          (row : Retirement) (failure : Failure) (n : ℕ) (r : Run S)
          → HasCount n r
          → After
              (λ b s. (b ≡ false) × HasCount n s)
              (λ s. Never)
              (leave_row x ports identity row failure r)
      unfolding leave_row
      leave_row-After row failure n r h =
          get-then (λ s. Never) _ _ r
            (After-continue (λ s. Never) (λ _ s. HasCount n s) (λ b s. (b ≡ false) × HasCount n s) _
              _
              (After-if (λ s. Never) (λ _ s. HasCount n s) r.locals.dispatched _ _ r
                (λ tried. After-quiet (HasCount n) _ (
                  perform-After (HasCount n) (λ _ s. HasCount n s) _ _ r
                    (λ a w k. HasCount-more w _ refl (λ same. absurd (ground arith)) h)
                    (λ e w k. HasCount-more w _ refl (λ same. absurd (ground arith)) h)))
                (λ untried. return-After (λ s. Never) (λ _ s. HasCount n s) tt r h))
              (λ a s h1.
                return-After (λ s. Never) (λ b s. (b ≡ false) × HasCount n s) false s (refl, h1)))

      pub reconcile_row-After :
          (row : Retirement) (n : ℕ) (r : Run S)
          → Memᴰ row rows
          → HasCount n r
          → After
              (λ b s. HasCount (if b then suc n else n) s)
              (λ s. Never)
              (reconcile_row x ports identity row r)
      unfolding reconcile_row
      reconcile_row-After row n r listed h =
          After-handled (HasCount n) _ _ (delete_row-After row n r listed h)
            (λ b s (same, k). rw same k)
            (λ e s k.
              After-both _ (leave_row-After row e n s k) (λ t never. never)
                (λ b t (same, k'). rw same k'))
