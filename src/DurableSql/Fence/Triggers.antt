-- ===== src/DurableSql/Fence/Triggers.antt =====
-- The triggers of a fence have different names.
use memory_server_worker.Prelude.{
  ℕ, ◌+◌, ◌/◌, ◌%◌, ◌<◌, ◌≤◌, true, false, none, some, List, [], ◌∷◌, ◌++◌, ◌==◌, length, All,
  All-map, ◌≡◌, ◌≢◌, refl, arith, Bool-cases, inl, inr,
}
use memory_server_worker.Routing.Schema.{codes}
use memory_server_worker.Texts.{Text, text_eq}
use memory_server_worker.DurableSql.Fence.{
  Schema, Operation, inserts, updates, deletes, three_digits, letter_of, trigger_name,
  fence_trigger, fence_triggers, owned,
}

append-cancel : (p a b : Text) → p ++ a ≡ p ++ b → a ≡ b
append-cancel [] a b h = h
append-cancel (c ∷ p) a b h = append-cancel p a b (ground arith)

trigger_name-injective :
    (run_id : Text) (i j : ℕ) (o o' : Operation)
    → i < 1000
    → j < 1000
    → trigger_name run_id i o ≡ trigger_name run_id j o'
    → (i ≡ j) × (letter_of o ≡ letter_of o')
trigger_name-injective run_id i j o o' below below' h =
    let rest : Operation → ℕ → Text =
      λ x n. codes "_" ++ (three_digits n ++ (codes "_" ++ letter_of x)) in
    let same =
      append-cancel run_id (rest o i) (rest o' j)
        (append-cancel (codes "memory_sql_fence_") (run_id ++ rest o i) (run_id ++ rest o' j) h) in
    let hundreds : b'0' + i / 100 ≡ b'0' + j / 100 = ground arith in
    let tens : b'0' + i / 10 % 10 ≡ b'0' + j / 10 % 10 = ground arith in
    let ones : b'0' + i % 10 ≡ b'0' + j % 10 = ground arith in (omega arith, ground arith)

other-index :
    (run_id : Text) (i j : ℕ) (o o' : Operation)
    → i < j
    → j < 1000
    → (trigger_name run_id j o' == trigger_name run_id i o) ≡ false
other-index run_id i j o o' lt below =
    elim (Bool-cases (trigger_name run_id j o' == trigger_name run_id i o)) [
      | inr other ↦ other
      | inl same ↦
          let e = (text_eq.beq_iff (trigger_name run_id j o') (trigger_name run_id i o)).0 same in
          let equal = (trigger_name-injective run_id j i o' o (omega arith) (omega arith) e).0 in
          absurd (omega arith)
    ]

other-operation :
    (run_id : Text) (i : ℕ) (o o' : Operation)
    → i < 1000
    → letter_of o' ≢ letter_of o
    → (trigger_name run_id i o' == trigger_name run_id i o) ≡ false
other-operation run_id i o o' below apart =
    elim (Bool-cases (trigger_name run_id i o' == trigger_name run_id i o)) [
      | inr other ↦ other
      | inl same ↦
          let e = (text_eq.beq_iff (trigger_name run_id i o') (trigger_name run_id i o)).0 same in
          absurd (apart (trigger_name-injective run_id i i o' o below below e).1)
    ]

later-none :
    (run_id : Text) (i k : ℕ) (o : Operation) (items : List Schema)
    → i < k
    → k + length items ≤ 1000
    → owned (trigger_name run_id i o) (fence_triggers run_id k items) ≡ none
later-none run_id i k o [] lt room = refl
later-none run_id i k o (x ∷ xs) lt room =
    let rest = later-none run_id i (k + 1) o xs (omega arith) (omega arith) in
    rw
      (
        rest,
        other-index run_id i k o deletes lt (omega arith),
        other-index run_id i k o updates lt (omega arith),
        other-index run_id i k o inserts lt (omega arith),
      )
      refl

text_same : (a : Text) → (a == a) ≡ true
text_same a = (text_eq.beq_iff a a).1 refl

owned-later :
    (n : Text) (t u : Schema) (ts : List Schema) → owned n ts ≡ some u → owned n (t ∷ ts) ≡ some u
owned-later n t u ts h = rw h refl

owned-here :
    (n : Text) (t : Schema) (ts : List Schema)
    → owned n ts ≡ none
    → (t.name == n) ≡ true
    → owned n (t ∷ ts) ≡ some t
owned-here n t ts h same = rw (h, same) refl

owned-not :
    (n : Text) (t : Schema) (ts : List Schema)
    → owned n ts ≡ none
    → (t.name == n) ≡ false
    → owned n (t ∷ ts) ≡ none
owned-not n t ts h other = rw (h, other) refl

-- A trigger of the fence is the one that its name finds.
pub owned-fence_triggers :
    (run_id : Text) (k : ℕ) (items : List Schema)
    → k + length items ≤ 1000
    → All
        (λ t. owned t.name (fence_triggers run_id k items) ≡ some t)
        (fence_triggers run_id k items)
owned-fence_triggers run_id k [] room = tt
owned-fence_triggers run_id k (x ∷ xs) room =
    let ts = fence_triggers run_id (k + 1) xs in
    let ins = fence_trigger run_id k x inserts in
    let upd = fence_trigger run_id k x updates in
    let del = fence_trigger run_id k x deletes in
    let none_ins = later-none run_id k (k + 1) inserts xs (omega arith) (omega arith) in
    let none_upd = later-none run_id k (k + 1) updates xs (omega arith) (omega arith) in
    let none_del = later-none run_id k (k + 1) deletes xs (omega arith) (omega arith) in
    let below : k < 1000 = omega arith in
    let one : owned ins.name (ins ∷ upd ∷ del ∷ ts) ≡ some ins =
      owned-here ins.name ins (upd ∷ del ∷ ts)
        (owned-not ins.name upd (del ∷ ts)
          (owned-not ins.name del ts none_ins
            (other-operation run_id k inserts deletes below (λ h. absurd (ground arith))))
          (other-operation run_id k inserts updates below (λ h. absurd (ground arith))))
        (text_same ins.name) in
    let two : owned upd.name (ins ∷ upd ∷ del ∷ ts) ≡ some upd =
      owned-later upd.name ins upd (upd ∷ del ∷ ts) (
        owned-here upd.name upd (del ∷ ts)
          (owned-not upd.name del ts none_upd
            (other-operation run_id k updates deletes below (λ h. absurd (ground arith))))
          (text_same upd.name)) in
    let three : owned del.name (ins ∷ upd ∷ del ∷ ts) ≡ some del =
      owned-later del.name ins del (upd ∷ del ∷ ts) (
        owned-later del.name upd del (del ∷ ts)
          (owned-here del.name del ts none_del (text_same del.name))) in
    let rest =
      All-map ts
        (λ t h.
          owned-later t.name ins t (upd ∷ del ∷ ts)
            (owned-later t.name upd t (del ∷ ts) (owned-later t.name del t ts h)))
        (owned-fence_triggers run_id (k + 1) xs (omega arith)) in
    (one, (two, (three, rest)))
