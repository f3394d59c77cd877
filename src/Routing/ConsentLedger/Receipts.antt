-- ===== src/Routing/ConsentLedger/Receipts.antt =====
-- A receipt is used once.
use mathlib.Core.Path.{subst}
use memory_server_worker.Prelude.{
  ℕ, String, true, false, not, some, List, [], ◌∷◌, leb, ◌==◌, nat_eq, string_eq, All, All-true,
  All-select_rows, All-update_rows, find_row-All, find_row-key, ◌≡◌, ◌≢◌, refl, sym, ◌∙◌, ok,
  Option-cases, inl, inr, arith,
}
use memory_server_worker.Routing.Consent.{Permit, is_some}
use memory_server_worker.Routing.ConsentLedger.Rows.{
  ReceiptRow, Ledger, receipt_by, ticket_by, consumed, consume_receipt,
}
use memory_server_worker.Routing.ConsentLedger.Inputs.{Env, ConsumeInput, Ticket}
use memory_server_worker.Routing.ConsentLedger.Exchanges.{
  find_receipt, is_usable, consume_new, consume_known, consume_valid, consume,
}
use memory_server_worker.Routing.ConsentLedger.Methods.{bind_organization}
use memory_server_worker.Routing.ConsentLedger.History.{Call, step, run}
use memory_server_worker.Routing.ConsentLedger.Steps.{
  Step, bind, recording, purging, issuing, admission, spending, outcome, Reach, here, next,
}
use memory_server_worker.Routing.ConsentLedger.Refinement.{step-Reach, consume-eq-ok}
use memory_server_worker.Routing.ConsentLedger.Refinement.Writes.{consume_new-eq-ok}

-- Every receipt with this hash was consumed.
abbrev IsSpentRow : String → ReceiptRow → Type 0
IsSpentRow hash r = (r.hash == hash) ≡ true → is_some r.consumed_at_ms ≡ true

abbrev pub IsSpent : String → Ledger → Type 0
IsSpent hash s = All (IsSpentRow hash) s.receipts

IsSpent-consume_receipt :
    (hash : String) (now : ℕ) (s : Ledger) → IsSpent hash (consume_receipt hash now s)
IsSpent-consume_receipt hash now s =
    All-update_rows {P = λ r. Unit {0}} (λ r. r.hash == hash) (consumed now) s.receipts
      (λ r u hit same. refl) (λ r u miss same. absurd (ground arith))
      (All-true (λ r. Unit {0}) s.receipts (λ r. tt))

Step-IsSpent :
    {fresh : String} (hash : String) {s s' : Ledger}
    → fresh ≢ hash
    → Step fresh s s'
    → IsSpent hash s
    → IsSpent hash s'
Step-IsSpent hash other (bind i e) w = rw e w
Step-IsSpent hash other (recording r actor action now valid version fits e) w = rw e w
Step-IsSpent hash {s} other (purging now e) w =
    rw e (All-select_rows (IsSpentRow hash) (λ r. not (leb r.expires_at_ms now)) s.receipts w)
Step-IsSpent hash other (issuing row free same room e) w =
    rw e ((λ hit. absurd (other (sym same ∙ (string_eq.beq_iff row.hash hash).0 hit))), w)
Step-IsSpent hash other (admission row n e) w = rw e w
Step-IsSpent hash {s} other (spending h now e) w = rw e (
    All-update_rows {P = IsSpentRow hash} (λ r. r.hash == h) (consumed now) s.receipts
      (λ r spent hit same. refl) (λ r spent miss. spent) w)
Step-IsSpent hash other (outcome row state now found starts e) w = rw e w

Reach-IsSpent :
    {fresh : String} (hash : String) {s s' : Ledger}
    → fresh ≢ hash
    → Reach fresh s s'
    → IsSpent hash s
    → IsSpent hash s'
Reach-IsSpent hash other here w = w
Reach-IsSpent hash other (next r st) w = Step-IsSpent hash other st (Reach-IsSpent hash other r w)

-- No call issues a receipt with this hash.
abbrev pub IsUnissued : (digest : String → String) → String → List (Env × Call) → Type 0
IsUnissued digest hash cs = All (λ (c : Env × Call). digest c.0.fresh_receipt ≢ hash) cs

run-IsSpent :
    (digest : String → String) (hash : String) (s : Ledger) (cs : List (Env × Call))
    → IsUnissued digest hash cs
    → IsSpent hash s
    → IsSpent hash (run digest s cs)
unfolding run
run-IsSpent digest hash s [] u w = w
run-IsSpent digest hash s ((env, c) ∷ cs) u w =
    run-IsSpent digest hash (step digest s (env, c)) cs u.1
      (Reach-IsSpent hash u.0 (step-Reach digest s env c) w)

find_receipt-eq-ok :
    (hash : String) (v : ConsumeInput) (permit : Permit) (now : ℕ) (s : Ledger) {r : ReceiptRow}
    → find_receipt hash v permit now s ≡ ok r
    → (receipt_by hash s ≡ some r) × (is_some r.consumed_at_ms ≡ false)
unfolding find_receipt is_usable
find_receipt-eq-ok hash v permit now s h = (ground arith, ground arith)

consume_valid-IsSpent :
    (env : Env) (v : ConsumeInput) (receipt : ReceiptRow) (permit : Permit) (s : Ledger)
    {r : Ticket × Ledger}
    → consume_valid env v receipt permit s ≡ ok r
    → IsSpent receipt.hash r.1
unfolding consume_valid
consume_valid-IsSpent env v receipt permit s {r} h =
    elim (Option-cases (ticket_by v.actor.space_id v.operation_id s)) [
      | inl free ↦
          let run : consume_new env v receipt permit s ≡ ok r = ground arith in
          let (t, inserted, spent) = consume_new-eq-ok env v receipt permit s run in
          rw spent (IsSpent-consume_receipt receipt.hash env.now t)
      | inr (row, e) ↦
          let known : consume_known env v receipt row s ≡ ok r = ground arith in
          let spent : r.1 ≡ consume_receipt receipt.hash env.now s =
            unfold consume_known in ground arith in
          rw spent (IsSpent-consume_receipt receipt.hash env.now s)
    ]

consume-IsSpent :
    (digest : String → String) (env : Env) (v : ConsumeInput) (s : Ledger) {r : Ticket × Ledger}
    → consume digest env v s ≡ ok r
    → IsSpent (digest v.receipt) r.1
consume-IsSpent digest env v s {r} h =
    let (b, bound, permit, permitted, receipt, found, run) = consume-eq-ok digest env v s h in
    let at = (find_receipt-eq-ok (digest v.receipt) v permit env.now b found).0 in
    let key : receipt.hash ≡ digest v.receipt =
      find_row-key (λ (x : ReceiptRow). x.hash) (digest v.receipt) b.receipts at in
    subst (λ k. IsSpent k r.1) key (consume_valid-IsSpent env v receipt permit b run)

bind_organization-receipts :
    (env : Env) (i : String) (s : Ledger) {t : Ledger}
    → bind_organization env i s ≡ ok t
    → t.receipts ≡ s.receipts
unfolding bind_organization
bind_organization-receipts env i s h = ground arith

spent-consume :
    (digest : String → String) (env : Env) (v : ConsumeInput) (s : Ledger) {r : Ticket × Ledger}
    → IsSpent (digest v.receipt) s
    → ¬ (consume digest env v s ≡ ok r)
spent-consume digest env v s w h =
    let (b, bound, permit, permitted, receipt, found, run) = consume-eq-ok digest env v s h in
    let (at, unused) = find_receipt-eq-ok (digest v.receipt) v permit env.now b found in
    let kept = bind_organization-receipts env v.actor.organization_id s bound in
    let (spent, hit) =
      find_row-All (IsSpentRow (digest v.receipt)) (λ x. x.hash == digest v.receipt) b.receipts
        (rw kept w) at in
    let used = spent hit in cc

-- A receipt is exchanged for a ticket once. After a `consume` that returned, and any calls that do
-- not issue a receipt with the same hash, no `consume` of the receipt returns.
pub consume_once :
    (digest : String → String) (env later : Env) (v v' : ConsumeInput) (s : Ledger)
    (cs : List (Env × Call)) {r r' : Ticket × Ledger}
    → consume digest env v s ≡ ok r
    → v'.receipt ≡ v.receipt
    → IsUnissued digest (digest v.receipt) cs
    → ¬ (consume digest later v' (run digest r.1 cs) ≡ ok r')
consume_once digest env later v v' s cs {r} h same unissued =
    spent-consume digest later v' (run digest r.1 cs) (
      subst (λ k. IsSpent (digest k) (run digest r.1 cs)) (sym same)
        (run-IsSpent digest (digest v.receipt) r.1 cs unissued (consume-IsSpent digest env v s h)))
