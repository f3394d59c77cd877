-- ===== src/DurableSql/Fence/Sorting.antt =====
-- The catalog of a catalog is the catalog.
use memory_server_worker.Prelude.{
  ℕ, ◌+◌, ◌≤◌, Bool, true, false, not, ◌&&◌, List, [], ◌∷◌, map, ◌==◌, nat_eq, leb, length,
  contains, ◌≡◌, refl, ap, sym, ◌∙◌, arith, Bool-cases, inl, inr, if◌then◌else◌, ok,
}
use memory_server_worker.Texts.{Text, text_eq}
use memory_server_worker.DurableSql.Fence.{
  Schema, text_ltb, insert_named, sort_named, are_valid, lower_code, catalog, is_name,
}

-- No item has a name that is less than the one before it.
abbrev is_sorted : List Schema → Bool
is_sorted [] = true
is_sorted (x ∷ []) = true
is_sorted (x ∷ y ∷ l) = not (text_ltb y.name x.name) && is_sorted (y ∷ l)

text_ltb-asym : (a b : Text) → text_ltb a b ≡ true → text_ltb b a ≡ false
text_ltb-asym [] [] h = refl
text_ltb-asym [] (d ∷ t) h = refl
text_ltb-asym (c ∷ s) [] h = absurd (ground arith)
text_ltb-asym (c ∷ s) (d ∷ t) h = ground (arith, text_ltb-asym s t)

insert_named-is_sorted :
    (x : Schema) (l : List Schema) → is_sorted l ≡ true → is_sorted (insert_named x l) ≡ true
insert_named-is_sorted x [] h = refl
insert_named-is_sorted x (y ∷ []) h = elim (Bool-cases (text_ltb y.name x.name)) [
  | inl less ↦ rw (less, text_ltb-asym y.name x.name less) refl
  | inr other ↦ rw (other, other) refl
]
insert_named-is_sorted x (y ∷ z ∷ l) h =
    let rest = insert_named-is_sorted x (z ∷ l) in
    elim (Bool-cases (text_ltb y.name x.name)) [
      | inl less ↦ elim (Bool-cases (text_ltb z.name x.name)) [
        | inl less' ↦
            let tail = rw less' at (rest (ground arith)) in
            let first : (text_ltb z.name y.name) ≡ false = ground arith in
            rw (less, less', first) tail
        | inr other' ↦
            let tail : is_sorted (z ∷ l) ≡ true = ground arith in
            rw (less, other', text_ltb-asym y.name x.name less, other') tail
      ]
      | inr other ↦ rw (other, other) h
    ]

sort_named-is_sorted : (l : List Schema) → is_sorted (sort_named l) ≡ true
sort_named-is_sorted [] = refl
sort_named-is_sorted (x ∷ l) = insert_named-is_sorted x (sort_named l) (sort_named-is_sorted l)

sort_named-sorted : (l : List Schema) → is_sorted l ≡ true → sort_named l ≡ l
sort_named-sorted [] h = refl
sort_named-sorted (x ∷ []) h = refl
sort_named-sorted (x ∷ y ∷ l) h =
    let rest = sort_named-sorted (y ∷ l) (ground arith) in
    let first : (text_ltb y.name x.name) ≡ false = ground arith in
    ap (insert_named x) rest ∙ rw first refl

pub length-insert_named : (x : Schema) (l : List Schema) → length (insert_named x l) ≡ length l + 1
length-insert_named x [] = ground arith
length-insert_named x (y ∷ l) = ground (arith, length-insert_named x l)

pub length-sort_named : (l : List Schema) → length (sort_named l) ≡ length l
length-sort_named [] = refl
length-sort_named (x ∷ l) =
    length-insert_named x (sort_named l) ∙ omega (arith, length-sort_named l)

-- Only which names were seen matters.
are_valid-seen :
    (s s' : List Text) (l : List Schema)
    → ((n : Text) → contains n s ≡ contains n s')
    → are_valid s l ≡ are_valid s' l
are_valid-seen s s' [] h = refl
are_valid-seen s s' (x ∷ l) h =
    let rest =
      are_valid-seen (map lower_code x.name ∷ s) (map lower_code x.name ∷ s') l
        (λ n. rw (h n) refl) in
    rw (h (map lower_code x.name), rest) refl

contains-swap : (n a b : Text) (s : List Text) → contains n (a ∷ b ∷ s) ≡ contains n (b ∷ a ∷ s)
contains-swap n a b s = elim (Bool-cases (n == a)) [
  | inl e ↦ elim (Bool-cases (n == b)) [ inl e' ↦ rw (e, e') refl | inr e' ↦ rw (e, e') refl ]
  | inr e ↦ elim (Bool-cases (n == b)) [ inl e' ↦ rw (e, e') refl | inr e' ↦ rw (e, e') refl ]
]

eq-sym : (a b : Text) → (a == b) ≡ (b == a)
eq-sym a b = elim (Bool-cases (a == b)) [
  | inl e ↦ e ∙ sym ((text_eq.beq_iff b a).1 (sym ((text_eq.beq_iff a b).0 e)))
  | inr e ↦ elim (Bool-cases (b == a)) [
    | inl e' ↦ absurd (let back = (text_eq.beq_iff a b).1 (sym ((text_eq.beq_iff b a).0 e')) in cc)
    | inr e' ↦ e ∙ sym e'
  ]
]

swap-tests :
    (a b c d p q e k m r : Bool)
    → (a && c && not p && k && (b && d && not (if e then true else q) && m && r))
      ≡ (b && d && not q && m && (a && c && not (if e then true else p) && k && r))
swap-tests a b c d p q e k m r = ground arith

are_valid-swap :
    (s : List Text) (x y : Schema) (l : List Schema)
    → are_valid s (x ∷ y ∷ l) ≡ are_valid s (y ∷ x ∷ l)
are_valid-swap s x y l =
    let rest =
      are_valid-seen (map lower_code y.name ∷ map lower_code x.name ∷ s)
        (map lower_code x.name ∷ map lower_code y.name ∷ s) l
        (λ n. contains-swap n (map lower_code y.name) (map lower_code x.name) s) in
    rw (rest, eq-sym (map lower_code y.name) (map lower_code x.name))
      (swap-tests (is_name x.name) (is_name y.name) (is_name x.table_name) (is_name y.table_name)
        (contains (map lower_code x.name) s) (contains (map lower_code y.name) s)
        (map lower_code x.name == map lower_code y.name) (leb (length x.sql) 100_000)
        (leb (length y.sql) 100_000)
        (are_valid (map lower_code x.name ∷ map lower_code y.name ∷ s) l))

are_valid-insert_named :
    (s : List Text) (x : Schema) (l : List Schema)
    → are_valid s (insert_named x l) ≡ are_valid s (x ∷ l)
are_valid-insert_named s x [] = refl
are_valid-insert_named s x (y ∷ l) = elim (Bool-cases (text_ltb y.name x.name)) [
  | inr other ↦ rw other refl
  | inl less ↦
      let rest = are_valid-insert_named (map lower_code y.name ∷ s) x l in
      rw (less, rest) (are_valid-swap s y x l)
]

are_valid-sort_named :
    (s : List Text) (l : List Schema) → are_valid s (sort_named l) ≡ are_valid s l
are_valid-sort_named s [] = refl
are_valid-sort_named s (x ∷ l) =
    let rest = are_valid-sort_named (map lower_code x.name ∷ s) l in
    are_valid-insert_named s x (sort_named l) ∙ rw rest refl

-- A catalog that was accepted is accepted again, and is the same.
pub catalog-again :
    (xs : List Schema) (maximum more : ℕ) {r : List Schema}
    → catalog xs maximum ≡ ok r
    → maximum ≤ more
    → catalog r more ≡ ok r
unfolding catalog
catalog-again xs maximum more {r = r} h le =
    let sorted : r ≡ sort_named xs = ground arith in
    let size = length-sort_named xs in
    let valid = are_valid-sort_named [] xs in
    let still = sort_named-sorted (sort_named xs) (sort_named-is_sorted xs) in
    rw sorted (rw (still, size, valid) (ground arith))
