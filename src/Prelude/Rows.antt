-- ===== src/Prelude/Rows.antt =====
-- Laws of the tables: what updates and unique keys keep.
use Prim.Native.Nat.{ℕ, zero, suc, ◌+◌, ◌-◌, ◌≤◌, min}
use mathlib.Core.Path.{◌≡◌, refl, ap, subst, ◌∙◌}
use mathlib.Core.Logic.{inl, inr}
use mathlib.Core.Bool.{Bool, true, false}
use mathlib.Core.Option
use mathlib.Core.Option.{Option, none, some}
use mathlib.Core.List.{List, [], ◌∷◌, ◌++◌}
use native.Mathlib.Omega.{arith}
use memory_server_worker.Prelude.Tests.{Eq, ◌==◌, if◌then◌else◌, Bool-cases}
use memory_server_worker.Prelude.Tables.{
  All, All-map, find_row-All, length, sum_rows, take, insert_by, order_by, find_row, select_rows,
  count_rows, any_row, update_rows, Absent, Distinct,
}

module _ {ℓ} {A : Type ℓ} where
  pub All-both {κ μ} :
      (P : A → Type κ) (Q : A → Type μ) (xs : List A)
      → All P xs
      → All Q xs
      → All (λ x. P x × Q x) xs
  All-both P Q [] h k = tt
  All-both P Q (x ∷ xs) h k = ((h.0, k.0), All-both P Q xs h.1 k.1)

  pub find_row-true : (p : A → Bool) (xs : List A) {r : A} → find_row p xs ≡ some r → p r ≡ true
  find_row-true p [] e = absurd (cc)
  find_row-true p (x ∷ xs) {r} e = elim (Bool-cases (p x)) [
    | inl found ↦ let same : x ≡ r = ground arith in rw (← same) found
    | inr other ↦ find_row-true p xs (rw other at e)
  ]

  pub any_row-false :
      (p : A → Bool) (xs : List A) → any_row p xs ≡ false → All (λ x. p x ≡ false) xs
  any_row-false p [] h = tt
  any_row-false p (x ∷ xs) h = elim (Bool-cases (p x)) [
    | inl e ↦ absurd (ground arith)
    | inr e ↦ (e, any_row-false p xs (rw e at h))
  ]

  -- What no row satisfies, the row that a search finds does not satisfy.
  pub find_row-false :
      (p q : A → Bool) (xs : List A) {r : A}
      → find_row p xs ≡ some r
      → any_row q xs ≡ false
      → q r ≡ false
  find_row-false p q xs found none_of =
      (find_row-All (λ x. q x ≡ false) p xs (any_row-false q xs none_of) found).0

  pub any_row-true : (p : A → Bool) (xs : List A) → All (λ x. p x ≡ false) xs → any_row p xs ≡ false
  any_row-true p [] h = refl
  any_row-true p (x ∷ xs) h = rw h.0 (any_row-true p xs h.1)

  pub find_row-absent :
      (p : A → Bool) (xs : List A) → All (λ x. p x ≡ false) xs → find_row p xs ≡ none
  find_row-absent p [] h = refl
  find_row-absent p (x ∷ xs) h = rw h.0 (find_row-absent p xs h.1)

  pub count_rows-zero :
      (p : A → Bool) (xs : List A) → count_rows p xs ≡ 0 → All (λ x. p x ≡ false) xs
  count_rows-zero p [] h = tt
  count_rows-zero p (x ∷ xs) h = (ground arith, count_rows-zero p xs (ground arith))

  pub any_row-update_rows :
      (q p : A → Bool) (f : A → A)
      → ((x : A) → q (f x) ≡ q x)
      → (xs : List A) → any_row q (update_rows p f xs) ≡ any_row q xs
  any_row-update_rows q p f same [] = refl
  any_row-update_rows q p f same (x ∷ xs) =
      ground (arith, same x, any_row-update_rows q p f same xs)

module _ {ℓ κ} {A : Type ℓ} {K : Type κ} ⦃e : Eq K⦄ (key : A → K) where
  -- The row of a unique key is the only one with it.
  pub find_row_unique :
      (k : K) (xs : List A) {r : A}
      → Distinct key xs
      → find_row (λ x. key x == k) xs ≡ some r
      → All (λ x. (key x == k) ≡ true → x ≡ r) xs
  find_row_unique k [] d h = tt
  find_row_unique k (x ∷ xs) {r} d h = elim (Bool-cases (key x == k)) [
    | inl hit ↦
        let same : x ≡ r = ground arith in
        let k-eq : key x ≡ k = (e.beq_iff (key x) k).0 hit in
        (λ _. same, All-map xs (λ y absent found. absurd (cc)) d.0)
    | inr miss ↦ (λ hit. absurd (ground arith), find_row_unique k xs d.1 (rw miss at h))
  ]

  -- The row that a key finds has that key.
  pub find_row-key :
      (k : K) (xs : List A) {r : A} → find_row (λ x. key x == k) xs ≡ some r → key r ≡ k
  find_row-key k xs {r} h = (e.beq_iff (key r) k).0 (find_row-true (λ x. key x == k) xs h)

  Absent-update_rows :
      (k : K) (p : A → Bool) (f : A → A)
      → ((x : A) → key (f x) ≡ key x)
      → (xs : List A) → Absent key k xs
      → Absent key k (update_rows p f xs)
  Absent-update_rows k p f same [] h = tt
  Absent-update_rows k p f same (x ∷ xs) h = elim (Bool-cases (p x)) [
    | inl e ↦ rw (e, same x) (h.0, Absent-update_rows k p f same xs h.1)
    | inr e ↦ rw e (h.0, Absent-update_rows k p f same xs h.1)
  ]

  -- An update of other columns keeps a key unique.
  pub Distinct-update_rows :
      (p : A → Bool) (f : A → A)
      → ((x : A) → key (f x) ≡ key x)
      → (xs : List A) → Distinct key xs
      → Distinct key (update_rows p f xs)
  Distinct-update_rows p f same [] d = tt
  Distinct-update_rows p f same (x ∷ xs) d = elim (Bool-cases (p x)) [
    | inl e ↦
        rw (e, same x)
          (Absent-update_rows (key x) p f same xs d.0, Distinct-update_rows p f same xs d.1)
    | inr e ↦
        rw e (Absent-update_rows (key x) p f same xs d.0, Distinct-update_rows p f same xs d.1)
  ]

module _ {ℓ} {A : Type ℓ} where
  -- What a search finds after an update that leaves the searched column alone.
  pub find_row-update_rows :
      (p q : A → Bool) (f : A → A)
      → ((x : A) → p (f x) ≡ p x)
      → (xs : List A)
      → find_row p (update_rows q f xs) ≡ Option.map (λ x. if q x then f x else x) (find_row p xs)
  find_row-update_rows p q f same [] = refl
  find_row-update_rows p q f same (x ∷ xs) =
      ground (arith, same x, find_row-update_rows p q f same xs)

  pub update_rows-absent :
      (p : A → Bool) (f : A → A) (xs : List A) → All (λ x. p x ≡ false) xs → update_rows p f xs ≡ xs
  update_rows-absent p f [] h = refl
  update_rows-absent p f (x ∷ xs) h = rw h.0 (ap (◌∷◌ x) (update_rows-absent p f xs h.1))

  pub sum_rows-zero : (h : A → ℕ) (xs : List A) → All (λ x. h x ≡ 0) xs → sum_rows h xs ≡ 0
  sum_rows-zero h [] z = refl
  sum_rows-zero h (x ∷ xs) z = omega (arith, z.0, sum_rows-zero h xs z.1)

  pub sum_rows-same :
      (h : A → ℕ) (p : A → Bool) (f : A → A)
      → ((x : A) → h (f x) ≡ h x)
      → (xs : List A) → sum_rows h (update_rows p f xs) ≡ sum_rows h xs
  sum_rows-same h p f same [] = refl
  sum_rows-same h p f same (x ∷ xs) = ground (arith, same x, sum_rows-same h p f same xs)

  pub take-append :
      (n : ℕ) (xs ys : List A) → take n (xs ++ ys) ≡ take n xs ++ take (n - length (take n xs)) ys
  take-append zero xs ys = refl
  take-append (suc n) [] ys = let e : suc n ≡ suc n - 0 = omega arith in ap (λ k. take k ys) e
  take-append (suc n) (x ∷ xs) ys =
      let e : n - length (take n xs) ≡ suc n - suc (length (take n xs)) = omega arith in
      ap (◌∷◌ x) (take-append n xs ys ∙ ap (λ k. take n xs ++ take k ys) e)

  pub length-insert_by :
      (key : A → ℕ) (a : A) (xs : List A) → length (insert_by key a xs) ≡ suc (length xs)
  length-insert_by key a [] = refl
  length-insert_by key a (x ∷ xs) = ground (arith, length-insert_by key a xs)

  pub length-order_by : (key : A → ℕ) (xs : List A) → length (order_by key xs) ≡ length xs
  length-order_by key [] = refl
  length-order_by key (x ∷ xs) =
      length-insert_by key x (order_by key xs) ∙ ap suc (length-order_by key xs)

  pub length-take-min : (n : ℕ) (xs : List A) → length (take n xs) ≡ min n (length xs)
  length-take-min zero xs = omega arith
  length-take-min (suc n) [] = omega arith
  length-take-min (suc n) (x ∷ xs) = omega (arith, length-take-min n xs)

  pub length-append : (xs ys : List A) → length (xs ++ ys) ≡ length xs + length ys
  length-append [] ys = omega arith
  length-append (x ∷ xs) ys = omega (arith, length-append xs ys)

  -- Two tests of which each row passes exactly one.
  pub count_rows-split :
      (p q r : A → Bool)
      → ((x : A) → (if p x then 1 else 0) ≡ (if q x then 1 else 0) + (if r x then 1 else 0))
      → (xs : List A) → count_rows p xs ≡ count_rows q xs + count_rows r xs
  count_rows-split p q r h [] = refl
  count_rows-split p q r h (x ∷ xs) = omega (arith, h x, count_rows-split p q r h xs)

module _ {ℓ κ} {A : Type ℓ} {K : Type κ} ⦃e : Eq K⦄ (key : A → K) where
  -- A sum after the update of the one row of a key.
  pub sum_rows-update_rows :
      (h : A → ℕ) (f : A → A) (k : K) (xs : List A) {r : A}
      → Distinct key xs
      → find_row (λ x. key x == k) xs ≡ some r
      → sum_rows h (update_rows (λ x. key x == k) f xs) + h r ≡ sum_rows h xs + h (f r)
  sum_rows-update_rows h f k [] d found = absurd (cc)
  sum_rows-update_rows h f k (x ∷ xs) {r} d found = elim (Bool-cases (key x == k)) [
    | inl hit ↦
        let same : x ≡ r = ground arith in
        let k-eq : key x ≡ k = (e.beq_iff (key x) k).0 hit in
        let rest : update_rows (λ y. key y == k) f xs ≡ xs =
          update_rows-absent (λ y. key y == k) f xs
            (All-map xs (λ y absent. subst (λ z. (key y == z) ≡ false) k-eq absent) d.0) in
        rw (hit, rest, same) (omega arith)
    | inr miss ↦ rw miss (omega (arith, sum_rows-update_rows h f k xs d.1 (rw miss at found)))
  ]

module _ {ℓ} {A : Type ℓ} where
  pub All-select_rows {κ} :
      (P : A → Type κ) (p : A → Bool) (xs : List A) → All P xs → All P (select_rows p xs)
  All-select_rows P p [] h = tt
  All-select_rows P p (x ∷ xs) h = elim (Bool-cases (p x)) [
    | inl kept ↦ rw kept (h.0, All-select_rows P p xs h.1)
    | inr dropped ↦ rw dropped (All-select_rows P p xs h.1)
  ]

  pub All-true {κ} : (P : A → Type κ) (xs : List A) → ((x : A) → P x) → All P xs
  All-true P [] h = tt
  All-true P (x ∷ xs) h = (h x, All-true P xs h)

  pub length-select_rows_le : (p : A → Bool) (xs : List A) → length (select_rows p xs) ≤ length xs
  length-select_rows_le p [] = omega arith
  length-select_rows_le p (x ∷ xs) = ground (arith, length-select_rows_le p xs)

module _ {ℓ κ} {A : Type ℓ} {K : Type κ} ⦃e : Eq K⦄ (key : A → K) where
  pub Distinct-select_rows :
      (p : A → Bool) (xs : List A) → Distinct key xs → Distinct key (select_rows p xs)
  Distinct-select_rows p [] d = tt
  Distinct-select_rows p (x ∷ xs) d = elim (Bool-cases (p x)) [
    | inl kept ↦
        rw kept
          (All-select_rows (λ y. (key y == key x) ≡ false) p xs d.0, Distinct-select_rows p xs d.1)
    | inr dropped ↦ rw dropped (Distinct-select_rows p xs d.1)
  ]
