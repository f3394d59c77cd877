-- ===== src/Routing/SpaceLedger/Persistence.antt =====
-- What a Space ledger never loses: an admitted operation keeps all but its state, a final state
-- stays, and the generation never falls.
use mathlib.Core.Path.{subst}
use memory_server_worker.Prelude.{
  sym, ℕ, ◌≤◌, String, Bool, true, false, ◌&&◌, none, some, ◌==◌, nat_eq, string_eq, any_row-false,
  ◌≡◌, refl, ap, arith, Bool-cases, inl, inr,
}
use memory_server_worker.Routing.Consent.{operation_eq}
use memory_server_worker.Routing.SpaceLedger.Rows.{
  State, admitted, OperationRow, Ledger, state_eq, retirement_eq, forbids_transition, with_state,
}
use memory_server_worker.Routing.SpaceLedger.Steps.{
  IsNewOperation, Step, bind, admission, outcome, retirement, purge, listing, cursor, Reach, here,
  next,
}
use memory_server_worker.Routing.SpaceLedger.Invariant.{current}
use mathlib.Core.Option
use memory_server_worker.Prelude.{
  ◌≢◌, ◌∙◌, find_row-All, find_row, find_row-update_rows, if◌then◌else◌,
}
use memory_server_worker.Routing.SpaceLedger.Rows.{operation_at, operation_by}

-- `o'` is the row `o`, perhaps with its final state.
pub record IsLater (o o' : OperationRow) : Type 0 where
  pub id : o'.id ≡ o.id
  pub account_id : o'.account_id ≡ o.account_id
  pub credential_id : o'.credential_id ≡ o.credential_id
  pub operation : o'.operation ≡ o.operation
  pub operation_id : o'.operation_id ≡ o.operation_id
  pub payload_hash : o'.payload_hash ≡ o.payload_hash
  pub generation : o'.generation ≡ o.generation
  pub created_at_ms : o'.created_at_ms ≡ o.created_at_ms
  pub expires_at_ms : o'.expires_at_ms ≡ o.expires_at_ms
  pub input_bytes : o'.input_bytes ≡ o.input_bytes
  pub message_count : o'.message_count ≡ o.message_count
  pub final : o.state ≢ admitted → o'.state ≡ o.state

IsLater-refl : (o : OperationRow) → IsLater o o
IsLater-refl o = record {
  id = refl;
  account_id = refl;
  credential_id = refl;
  operation = refl;
  operation_id = refl;
  payload_hash = refl;
  generation = refl;
  created_at_ms = refl;
  expires_at_ms = refl;
  input_bytes = refl;
  message_count = refl;
  final = λ h. refl;
}

IsLater-trans : {o p q : OperationRow} → IsLater o p → IsLater p q → IsLater o q
IsLater-trans {o} {p} {q} h k = record {
  id = k.id ∙ h.id;
  account_id = k.account_id ∙ h.account_id;
  credential_id = k.credential_id ∙ h.credential_id;
  operation = k.operation ∙ h.operation;
  operation_id = k.operation_id ∙ h.operation_id;
  payload_hash = k.payload_hash ∙ h.payload_hash;
  generation = k.generation ∙ h.generation;
  created_at_ms = k.created_at_ms ∙ h.created_at_ms;
  expires_at_ms = k.expires_at_ms ∙ h.expires_at_ms;
  input_bytes = k.input_bytes ∙ h.input_bytes;
  message_count = k.message_count ∙ h.message_count;
  final = λ e. k.final (λ a. e (sym (h.final e) ∙ a)) ∙ h.final e;
}

-- A row that the trigger lets be updated was admitted.
updated-IsLater :
    (id : String) (state : State) (now : ℕ) (o : OperationRow)
    → (o.id == id && forbids_transition state o) ≡ false
    → IsLater o (if o.id == id then with_state state now o else o)
unfolding forbids_transition
updated-IsLater id state now o allowed = elim (Bool-cases (o.id == id)) [
  | inl hit ↦ rw hit (record {
    id = refl;
    account_id = refl;
    credential_id = refl;
    operation = refl;
    operation_id = refl;
    payload_hash = refl;
    generation = refl;
    created_at_ms = refl;
    expires_at_ms = refl;
    input_bytes = refl;
    message_count = refl;
    final = λ h. ground arith;
  })
  | inr miss ↦ rw miss (IsLater-refl o)
]

-- A search by a column that no update touches.
module _ (p : OperationRow → Bool)
    (keeps : (state : State) (now : ℕ) (o : OperationRow) → p (with_state state now o) ≡ p o)
    (fresh : (s : Ledger) (row : OperationRow)
      → IsNewOperation s row
      → p row ≡ true
      → find_row p s.operations ≡ none) where
  Step-IsLater :
      {s s' : Ledger} {o : OperationRow}
      → Step s s'
      → find_row p s.operations ≡ some o
      → (o' : OperationRow) × (find_row p s'.operations ≡ some o') × IsLater o o'
  Step-IsLater {s} {s'} {o} (bind i e) h = (o, rw e h, IsLater-refl o)
  Step-IsLater {s} {s'} {o} (admission row n e) h = elim (Bool-cases (p row)) [
    | inl hit ↦ absurd (cc (fresh s row n hit))
    | inr miss ↦ (o, rw (e, miss) h, IsLater-refl o)
  ]
  Step-IsLater {s} {s'} {o} (outcome id state now allowed e) h = (
    if o.id == id then with_state state now o else o,
    rw e (
        find_row-update_rows p (λ x. x.id == id) (with_state state now) (keeps state now)
          s.operations
        ∙ ap (Option.map (λ x. if x.id == id then with_state state now x else x)) h),
    updated-IsLater id state now o
        (find_row-All (λ x. (x.id == id && forbids_transition state x) ≡ false) p s.operations
          (any_row-false _ s.operations allowed) h).0,
  )
  Step-IsLater {s} {s'} {o} (retirement row n e) h = (o, rw e h, IsLater-refl o)
  Step-IsLater {s} {s'} {o} (purge row state now found allowed drained e) h =
      (o, rw e h, IsLater-refl o)
  Step-IsLater {s} {s'} {o} (listing g same e) h = (o, rw e h, IsLater-refl o)
  Step-IsLater {s} {s'} {o} (cursor g le fits e) h = (o, rw e h, IsLater-refl o)

  pub Reach-IsLater :
      {s s' : Ledger} {o : OperationRow}
      → Reach s s'
      → find_row p s.operations ≡ some o
      → (o' : OperationRow) × (find_row p s'.operations ≡ some o') × IsLater o o'
  Reach-IsLater {o = o} here h = (o, h, IsLater-refl o)
  Reach-IsLater (next r st) h =
      let (o', found, later) = Reach-IsLater r h in
      let (o'', found', later') = Step-IsLater st found in (o'', found', IsLater-trans later later')

-- The searches of the program, by the key of an operation and by the identifier of a ticket.
pub operation_by-IsLater :
    (k : String) {s s' : Ledger} {o : OperationRow}
    → Reach s s'
    → operation_by k s ≡ some o
    → (o' : OperationRow) × (operation_by k s' ≡ some o') × IsLater o o'
operation_by-IsLater k =
    Reach-IsLater (λ o. o.operation_id == k) (λ state now o. refl)
      (λ s row n hit.
        subst (λ x. operation_by x s ≡ none) ((string_eq.beq_iff row.operation_id k).0 hit)
          n.fresh_key)

pub operation_at-IsLater :
    (id : String) {s s' : Ledger} {o : OperationRow}
    → Reach s s'
    → operation_at id s ≡ some o
    → (o' : OperationRow) × (operation_at id s' ≡ some o') × IsLater o o'
operation_at-IsLater id =
    Reach-IsLater (λ o. o.id == id) (λ state now o. refl)
      (λ s row n hit.
        subst (λ x. operation_at x s ≡ none) ((string_eq.beq_iff row.id id).0 hit) n.fresh_id)

Step-generation : {s s' : Ledger} → Step s s' → current s.generation ≤ current s'.generation
Step-generation {s} (bind i e) = rw e (ground arith)
Step-generation {s} (admission row n e) = rw e (omega arith)
Step-generation {s} (outcome id state now allowed e) = rw e (omega arith)
Step-generation {s} (retirement row n e) = rw e (omega (arith, ap current n.current))
Step-generation {s} (purge row state now found allowed drained e) = rw e (omega arith)
Step-generation {s} (listing g same e) = rw e (omega arith)
Step-generation {s} (cursor g le fits e) = rw e (omega arith)

pub Reach-generation : {s s' : Ledger} → Reach s s' → current s.generation ≤ current s'.generation
Reach-generation here = omega arith
Reach-generation (next r st) = omega (arith, Reach-generation r, Step-generation st)
