-- ===== src/Prelude/Tables.antt =====
-- SQL tables as lists of rows, the newest first.
use Prim.Native.Nat.{ℕ, zero, suc, ◌+◌, ◌≤◌}
use mathlib.Core.Path.{◌≡◌, refl}
use mathlib.Core.Logic.{◌↔◌, inl, inr}
use mathlib.Core.Logic.Or
use mathlib.Core.Bool.{Bool, true, false, not, ◌&&◌}
use mathlib.Core.Option.{Option, none, some}
use mathlib.Core.List.{List, [], ◌∷◌}
use native.Mathlib.Omega.{arith}
use mathlib.Core.List.{Mem, mem-cons, mem-cons_self, mem-cons_of_mem, not-mem-nil}
use memory_server_worker.Prelude.Tests.{Eq, leb, ◌==◌, if◌then◌else◌, Bool-cases}

if_same : (b : Bool) → (if b then true else true) ≡ true
if_same true = refl
if_same false = refl

module _ {ℓ} {A : Type ℓ} where
  abbrev pub length : List A → ℕ
  length [] = 0
  length (x ∷ xs) = suc (length xs)

  -- `SELECT * FROM t WHERE p`, the first row.
  abbrev pub find_row : (A → Bool) → List A → Option A
  find_row p [] = none
  find_row p (x ∷ xs) = if p x then some x else find_row p xs

  -- `SELECT count(*) FROM t WHERE p`
  abbrev pub count_rows : (A → Bool) → List A → ℕ
  count_rows p [] = 0
  count_rows p (x ∷ xs) = (if p x then 1 else 0) + count_rows p xs

  -- `SELECT sum(f) FROM t`
  abbrev pub sum_rows : (A → ℕ) → List A → ℕ
  sum_rows f [] = 0
  sum_rows f (x ∷ xs) = f x + sum_rows f xs

  -- `UPDATE t SET f WHERE p`
  abbrev pub update_rows : (A → Bool) → (A → A) → List A → List A
  update_rows p f [] = []
  update_rows p f (x ∷ xs) = (if p x then f x else x) ∷ update_rows p f xs

  -- `SELECT * FROM t WHERE p`, and `DELETE FROM t` of the other rows.
  abbrev pub select_rows : (A → Bool) → List A → List A
  select_rows p [] = []
  select_rows p (x ∷ xs) = let rest = select_rows p xs in if p x then x ∷ rest else rest

  -- `LIMIT n`
  abbrev pub take : ℕ → List A → List A
  take zero xs = []
  take (suc n) [] = []
  take (suc n) (x ∷ xs) = x ∷ take n xs

  -- `ORDER BY key`
  abbrev pub insert_by : (A → ℕ) → A → List A → List A
  insert_by key a [] = a ∷ []
  insert_by key a (x ∷ xs) =
      let rest = insert_by key a xs in if leb (key a) (key x) then a ∷ x ∷ xs else x ∷ rest

  abbrev pub order_by : (A → ℕ) → List A → List A
  order_by key [] = []
  order_by key (x ∷ xs) = insert_by key x (order_by key xs)

  abbrev pub any_row : (A → Bool) → List A → Bool
  any_row p [] = false
  any_row p (x ∷ xs) = if p x then true else any_row p xs

  abbrev pub all_rows : (A → Bool) → List A → Bool
  all_rows p [] = true
  all_rows p (x ∷ xs) = p x && all_rows p xs

  abbrev pub All {κ} : (A → Type κ) → List A → Type κ
  All P [] = Unit
  All P (x ∷ xs) = P x × All P xs

  pub All-map {κ μ} :
      {P : A → Type κ} {Q : A → Type μ} (xs : List A) → ((x : A) → P x → Q x) → All P xs → All Q xs
  All-map [] f h = tt
  All-map (x ∷ xs) f h = (f x h.0, All-map xs f h.1)

  -- A row that is found satisfies the condition, and what all rows satisfy.
  pub find_row-All {κ} :
      (P : A → Type κ) (p : A → Bool) (xs : List A) {r : A}
      → All P xs
      → find_row p xs ≡ some r
      → P r × (p r ≡ true)
  find_row-All P p [] h e = absurd (cc)
  find_row-All P p (x ∷ xs) {r} h e = elim (Bool-cases (p x)) [
    | inl found ↦ let same : x ≡ r = ground arith in rw (← same) (h.0, found)
    | inr other ↦ find_row-All P p xs h.1 (rw other at e)
  ]

  pub find_row-none :
      (p : A → Bool) (xs : List A) → find_row p xs ≡ none → All (λ r. p r ≡ false) xs
  find_row-none p [] e = tt
  find_row-none p (x ∷ xs) e = elim (Bool-cases (p x)) [
    | inl found ↦ absurd (ground arith)
    | inr other ↦ (other, find_row-none p xs (rw other at e))
  ]

  pub All-update_rows {κ μ} :
      {P : A → Type κ} {Q : A → Type μ} (p : A → Bool) (f : A → A) (xs : List A)
      → ((x : A) → P x → p x ≡ true → Q (f x))
      → ((x : A) → P x → p x ≡ false → Q x)
      → All P xs
      → All Q (update_rows p f xs)
  All-update_rows p f [] hit miss h = tt
  All-update_rows p f (x ∷ xs) hit miss h = elim (Bool-cases (p x)) [
    | inl e ↦ rw e (hit x h.0 e, All-update_rows p f xs hit miss h.1)
    | inr e ↦ rw e (miss x h.0 e, All-update_rows p f xs hit miss h.1)
  ]

  pub length-update_rows :
      (p : A → Bool) (f : A → A) (xs : List A) → length (update_rows p f xs) ≡ length xs
  length-update_rows p f [] = refl
  length-update_rows p f (x ∷ xs) = omega (arith, length-update_rows p f xs)

  pub count_rows_le : (p : A → Bool) (xs : List A) → count_rows p xs ≤ length xs
  count_rows_le p [] = omega arith
  count_rows_le p (x ∷ xs) = ground (arith, count_rows_le p xs)

  pub length-take : (n : ℕ) (xs : List A) → length (take n xs) ≤ n
  length-take zero xs = omega arith
  length-take (suc n) [] = omega arith
  length-take (suc n) (x ∷ xs) = omega (arith, length-take n xs)

  pub length-select_rows :
      (p : A → Bool) (xs : List A) → length (select_rows p xs) ≡ count_rows p xs
  length-select_rows p [] = refl
  length-select_rows p (x ∷ xs) = ground (arith, length-select_rows p xs)

-- A unique key: no two rows agree on it.
module _ {ℓ κ} {A : Type ℓ} {K : Type κ} ⦃e : Eq K⦄ (key : A → K) where
  abbrev pub Absent : K → List A → Type 0
  Absent k xs = All (λ y. (key y == k) ≡ false) xs

  abbrev pub Distinct : List A → Type 0
  Distinct [] = Unit
  Distinct (x ∷ xs) = Absent (key x) xs × Distinct xs

module _ {ℓ} {A : Type ℓ} where
  pub any_row_none :
      (p : A → Bool) (xs : List A) → any_row p xs ≡ false → (x : A) → Mem x xs → p x ≡ false
  any_row_none p [] h x m = absurd (not-mem-nil m)
  any_row_none p (y ∷ ys) h x m = elim (Bool-cases (p y)) [
    | inl hit ↦ absurd (ground arith)
    | inr miss ↦
        Or.elim (hlevel) (mem-cons.0 m) (λ same. rw same miss) (any_row_none p ys (rw miss at h) x)
  ]

  pub any_row_all :
      (p : A → Bool) (xs : List A) → ((x : A) → Mem x xs → p x ≡ false) → any_row p xs ≡ false
  any_row_all p [] h = refl
  any_row_all p (y ∷ ys) h =
      rw (h y mem-cons_self) (any_row_all p ys (λ x m. h x (mem-cons_of_mem y m)))

-- `xs.includes(x)`
module _ {ℓ} {A : Type ℓ} ⦃e : Eq A⦄ where
  abbrev pub contains : A → List A → Bool
  contains a [] = false
  contains a (x ∷ xs) = if a == x then true else contains a xs

  -- `new Set(xs).size === xs.length`
  abbrev pub unique : List A → Bool
  unique [] = true
  unique (x ∷ xs) = not (contains x xs) && unique xs

  contains_sound : (a : A) (xs : List A) → contains a xs ≡ true → Mem a xs
  contains_sound a [] h = absurd (cc)
  contains_sound a (x ∷ xs) h = elim (Bool-cases (a == x)) [
    | inl same ↦ mem-cons.1 (Or.inl ((e.beq_iff a x).0 same))
    | inr other ↦ mem-cons.1 (Or.inr (contains_sound a xs (rw other at h)))
  ]

  contains_complete : (a : A) (xs : List A) → Mem a xs → contains a xs ≡ true
  contains_complete a [] m = absurd (not-mem-nil m)
  contains_complete a (x ∷ xs) m =
      Or.elim (hlevel) (mem-cons.0 m) (λ same. rw ((e.beq_iff a x).1 same) refl)
        (λ later. rw (contains_complete a xs later) (if_same (a == x)))

  pub contains_iff : (a : A) (xs : List A) → (contains a xs ≡ true) ↔ Mem a xs
  contains_iff a xs = (contains_sound a xs, contains_complete a xs)

  -- No row fails the test, exactly when all rows pass it.
  pub any_not_sound :
      (p : A → Bool) (xs : List A)
      → any_row (λ x. not (p x)) xs ≡ false
      → (x : A) → Mem x xs
      → p x ≡ true
  any_not_sound p [] h x m = absurd (not-mem-nil m)
  any_not_sound p (y ∷ ys) h x m = elim (Bool-cases (p y)) [
    | inl holds ↦
        Or.elim (hlevel) (mem-cons.0 m) (λ same. rw same holds)
          (any_not_sound p ys (rw holds at h) x)
    | inr fails ↦ absurd (ground arith)
  ]

  pub any_not_complete :
      (p : A → Bool) (xs : List A)
      → ((x : A) → Mem x xs → p x ≡ true)
      → any_row (λ x. not (p x)) xs ≡ false
  any_not_complete p [] h = refl
  any_not_complete p (y ∷ ys) h =
      rw (h y mem-cons_self) (any_not_complete p ys (λ x m. h x (mem-cons_of_mem y m)))
