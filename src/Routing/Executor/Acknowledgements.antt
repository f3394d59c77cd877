-- ===== src/Routing/Executor/Acknowledgements.antt =====
-- The counts that the reconciliation gives.
use mathlib.Core.List.{Memᴰ}
use memory_server_worker.Prelude.{
  ℕ, suc, ◌+◌, ◌-◌, ◌≤◌, false, List, [], ◌∷◌, length, count_rows, ok, err, ◌≡◌, refl, sym, ◌∙◌, ap,
  arith, if◌then◌else◌,
}
use memory_server_worker.Prelude.Actions.{After, After-continue, After-guard, After-if}
use memory_server_worker.Routing.SpaceLedger.Rows.{Identity, retirement_eq}
use memory_server_worker.Routing.SpaceLedger.Inputs.{PendingInput, Retirement}
use memory_server_worker.Routing.Executor.Ports.{Ports, signal_read, Run, start}
use memory_server_worker.Routing.Executor.Answers.{Externals}
use memory_server_worker.Routing.Executor.Admission.{check}
use memory_server_worker.Routing.Executor.Reconciliation.{
  reconcile_rows, reconcile_general_retirements,
}
use memory_server_worker.Routing.Executor.Traces.{Causal}
use memory_server_worker.Routing.Executor.Calls.{grown, perform-then, observe-then, return-After}
use memory_server_worker.Routing.Executor.Deletions.{
  is_acknowledgement, Never, After-run, Deleted, HasCount, HasCount-more, reconcile_row-After,
}

module _ {ℓ} {S : Type ℓ} (x : Externals) (identity : Identity) (ports : Ports S) where
  -- The counts that the loop gives, and the calls that it made for rows of the list.
  abbrev Counts : (all : List Retirement) (total : ℕ) → ℕ × ℕ → Run S → Type ℓ
  Counts all total counts s = (counts.0 + counts.1 ≡ total) × HasCount x identity all counts.0 s

  reconcile_rows-After :
      (all rows : List Retirement) (n p total : ℕ) (r : Run S)
      → n + p ≡ total
      → length rows ≤ p
      → ((row : Retirement) → Memᴰ row rows → Memᴰ row all)
      → HasCount x identity all n r
      → After (Counts all total) (λ s. Never) (reconcile_rows x ports identity rows n p r)
  unfolding reconcile_rows
  reconcile_rows-After all [] n p total r sum fits among h =
      return-After (λ s. Never) (Counts all total) (n, p) r (sum, h)
  reconcile_rows-After all (row ∷ rows) n p total r sum fits among h =
      observe-then (λ s. Never) (Counts all total) ports.aborted signal_read _ r
        (λ aborted w e.
          let h1 : HasCount x identity all n (grown r w (signal_read aborted)) =
            HasCount-more x identity all w _ refl tt h in
          After-if (λ s. Never) (Counts all total) aborted _ _ _
            (λ set. return-After (λ s. Never) (Counts all total) (n, p) _ (sum, h1))
            (λ clear.
              After-continue (λ s. Never)
                (λ b s. HasCount x identity all (if b then suc n else n) s) (Counts all total) _ _
                (reconcile_row-After x identity all ports row n _ (among row (Memᴰ.head refl)) h1)
                (λ done s h2.
                  After-if (λ s. Never) (Counts all total) done _ _ s
                    (λ d.
                      let k : HasCount x identity all (suc n) s = rw d at h2 in
                      reconcile_rows-After all rows (n + 1) (p - 1) total s
                        (ground (arith, sum, fits)) (ground (arith, fits))
                        (λ row' m. among row' (Memᴰ.tail m))
                        (record { counted = ground (arith, k.counted); causal = k.causal }))
                    (λ d.
                      let k : HasCount x identity all n s = rw d at h2 in
                      reconcile_rows-After all rows n p total s sum (ground (arith, fits))
                        (λ row' m. among row' (Memᴰ.tail m)) k))))

  abbrev listing : PendingInput
  listing = record { identity = identity; limit = 10 }

  reconcile-After :
      (s : S) (rows : List Retirement)
      → (ports.aborted s).0 ≡ false
      → (ports.pending listing (ports.aborted s).1).0 ≡ ok rows
      → After
          (Counts rows (length rows))
          (λ s. Never)
          (reconcile_general_retirements x ports identity (start s))
  unfolding reconcile_general_retirements check
  reconcile-After s rows clear listed =
      After-continue (λ s. Never)
        (λ _ t. HasCount x identity rows 0 t × (t.world ≡ (ports.aborted s).1))
        (Counts rows (length rows)) _ _
        (observe-then (λ s. Never) _ ports.aborted signal_read _ (start s)
          (λ aborted w e.
            After-guard (λ s. Never) _ aborted _ _ (λ set. absurd (ground (arith, ap (λ a. a.0) e)))
              (λ off. (record { counted = refl; causal = (tt, tt) }, sym (ap (λ a. a.1) e)))))
        (λ a t (h, there).
          perform-then (λ s. Never) (Counts rows (length rows)) _ _ _ t
            (λ rows' w k.
              let same : ok rows' ≡ ok rows =
                sym (ap (λ a. a.0) k) ∙ ap (λ u. (ports.pending listing u).0) there ∙ listed in
              let same_rows : rows' ≡ rows = ground arith in
              reconcile_rows-After rows rows' 0 (length rows') (length rows) _ (ground arith)
                (omega arith) (λ row m. rw same_rows at m)
                (HasCount-more x identity rows w _ refl tt h))
            (λ f w k.
              let clash : err f ≡ ok rows =
                sym (ap (λ a. a.0) k) ∙ ap (λ u. (ports.pending listing u).0) there ∙ listed in
              absurd (ground arith)))

  -- Take a signal that is not set at first, and a ledger that lists its pending retirements. The
  -- reconciliation returns, whatever the other calls do: the two counts add up to the rows that were
  -- listed, and the first one is the number of rows that the ledger took as acknowledged. Each of
  -- these is a row of the list, named by its id, and the call before is the deletion of the profile
  -- of the generation that this row retired, which returned.
  pub reconcile_counts :
      (s : S) (rows : List Retirement)
      → (ports.aborted s).0 ≡ false
      → (ports.pending listing (ports.aborted s).1).0 ≡ ok rows
      → let run = reconcile_general_retirements x ports identity (start s) in
        (counts : ℕ × ℕ) × (run.0 ≡ ok counts)
        × (counts.0 + counts.1 ≡ length rows)
        × (count_rows is_acknowledgement run.1.log ≡ counts.0)
        × Causal (Deleted x identity rows) run.1.log
  reconcile_counts s rows clear listed =
      let (counts, run, (sum, h)) =
        After-run (Counts rows (length rows)) _ (reconcile-After s rows clear listed) in
      (counts, run, sum, h.counted, h.causal)
