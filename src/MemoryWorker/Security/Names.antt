-- ===== src/MemoryWorker/Security/Names.antt =====
-- What the sanitizer of names gives.
use memory_server_worker.Prelude.{
  ℕ, zero, suc, ◌≤◌, Bool, true, false, ◌&&◌, not, [], ◌∷◌, ◌==◌, nat_eq, length, take, all_rows,
  ◌≡◌, refl, arith, Bool-cases, inl, inr, length-take,
}
use memory_server_worker.Texts.{Text, is_empty}
use memory_server_worker.MemoryWorker.Security.{
  is_name_part, hyphened, collapsed, drop_last_hyphen, without_end_hyphens, or_default,
  legacy_profile_name,
}

-- No two hyphens are adjacent.
abbrev pub has_single_hyphens : Text → Bool
has_single_hyphens [] = true
has_single_hyphens (c ∷ []) = true
has_single_hyphens (c ∷ d ∷ s) = not (c == b'-' && d == b'-') && has_single_hyphens (d ∷ s)

abbrev pub begins_with_hyphen : Text → Bool
begins_with_hyphen [] = false
begins_with_hyphen (c ∷ s) = c == b'-'

pub record IsProfileName (s : Text) : Type 0 where
  pub full : is_empty s ≡ false
  pub short : length s ≤ 100
  pub parts : all_rows is_name_part s ≡ true
  pub single_hyphens : has_single_hyphens s ≡ true
  pub no_first_hyphen : begins_with_hyphen s ≡ false

and-map : (a : Bool) {b b' : Bool} → (b ≡ true → b' ≡ true) → (a && b) ≡ true → (a && b') ≡ true
and-map true f h = f h
and-map false f h = h

and-both : (a : Bool) {b : Bool} → (a && b) ≡ true → (a ≡ true) × (b ≡ true)
and-both true h = (refl, h)
and-both false h = absurd (ground arith)

hyphened-parts : (s : Text) → all_rows is_name_part (hyphened s) ≡ true
hyphened-parts [] = refl
hyphened-parts (c ∷ s) = elim (Bool-cases (is_name_part c)) [
  | inl e ↦ rw (hyphened-parts s) (ground arith)
  | inr e ↦ rw (e, hyphened-parts s) refl
]

module _ (p : ℕ → Bool) where
  all_rows-collapsed : (s : Text) → all_rows p s ≡ true → all_rows p (collapsed s) ≡ true
  all_rows-collapsed [] h = refl
  all_rows-collapsed (c ∷ s) h =
      let (one, more) = and-both (p c) h in let rest = all_rows-collapsed s more in ground arith

  all_rows-drop_last_hyphen :
      (s : Text) → all_rows p s ≡ true → all_rows p (drop_last_hyphen s) ≡ true
  all_rows-drop_last_hyphen [] h = refl
  all_rows-drop_last_hyphen (c ∷ []) h = ground arith
  all_rows-drop_last_hyphen (c ∷ d ∷ s) h = and-map (p c) (all_rows-drop_last_hyphen (d ∷ s)) h

  all_rows-without_end_hyphens :
      (s : Text) → all_rows p s ≡ true → all_rows p (without_end_hyphens s) ≡ true
  all_rows-without_end_hyphens [] h = refl
  all_rows-without_end_hyphens (c ∷ s) h = elim (Bool-cases (c == b'-')) [
    | inl e ↦ rw e (all_rows-drop_last_hyphen s (and-both (p c) h).1)
    | inr e ↦ rw e (all_rows-drop_last_hyphen (c ∷ s) h)
  ]

  all_rows-take : (n : ℕ) (s : Text) → all_rows p s ≡ true → all_rows p (take n s) ≡ true
  all_rows-take zero s h = refl
  all_rows-take (suc n) [] h = refl
  all_rows-take (suc n) (c ∷ s) h = and-map (p c) (all_rows-take n s) h

collapsed-single : (s : Text) → has_single_hyphens (collapsed s) ≡ true
collapsed-single [] = refl
collapsed-single (c ∷ s) = let rest = collapsed-single s in ground arith

drop-single :
    (s : Text) → has_single_hyphens s ≡ true → has_single_hyphens (drop_last_hyphen s) ≡ true
drop-single [] h = refl
drop-single (c ∷ []) h = ground arith
drop-single (c ∷ d ∷ []) h = ground arith
drop-single (c ∷ d ∷ e ∷ s) h = and-map (not (c == b'-' && d == b'-')) (drop-single (d ∷ e ∷ s)) h

tail-single : (c : ℕ) (s : Text) → has_single_hyphens (c ∷ s) ≡ true → has_single_hyphens s ≡ true
tail-single c [] h = refl
tail-single c (d ∷ s) h = (and-both (not (c == b'-' && d == b'-')) h).1

without-single :
    (s : Text) → has_single_hyphens s ≡ true → has_single_hyphens (without_end_hyphens s) ≡ true
without-single [] h = refl
without-single (c ∷ s) h = elim (Bool-cases (c == b'-')) [
  | inl e ↦ rw e (drop-single s (tail-single c s h))
  | inr e ↦ rw e (drop-single (c ∷ s) h)
]

take-single :
    (n : ℕ) (s : Text) → has_single_hyphens s ≡ true → has_single_hyphens (take n s) ≡ true
take-single zero s h = refl
take-single (suc n) [] h = refl
take-single (suc zero) (c ∷ s) h = refl
take-single (suc (suc n)) (c ∷ []) h = refl
take-single (suc (suc n)) (c ∷ d ∷ s) h =
    and-map (not (c == b'-' && d == b'-')) (take-single (suc n) (d ∷ s)) h

drop-begins :
    (s : Text) → begins_with_hyphen s ≡ false → begins_with_hyphen (drop_last_hyphen s) ≡ false
drop-begins [] h = refl
drop-begins (c ∷ []) h = ground arith
drop-begins (c ∷ d ∷ s) h = h

without-begins :
    (s : Text) → has_single_hyphens s ≡ true → begins_with_hyphen (without_end_hyphens s) ≡ false
without-begins [] h = refl
without-begins (c ∷ []) h = ground arith
without-begins (c ∷ d ∷ s) h = ground (arith, drop-begins (d ∷ s), drop-begins (c ∷ d ∷ s))

take-begins :
    (n : ℕ) (s : Text) → begins_with_hyphen s ≡ false → begins_with_hyphen (take n s) ≡ false
take-begins zero s h = refl
take-begins (suc n) [] h = refl
take-begins (suc n) (c ∷ s) h = h

or_default-IsProfileName :
    (s : Text)
    → length s ≤ 100
    → all_rows is_name_part s ≡ true
    → has_single_hyphens s ≡ true
    → begins_with_hyphen s ≡ false
    → IsProfileName (or_default s)
or_default-IsProfileName [] le parts single first = record {
  full = refl;
  short = omega arith;
  parts = refl;
  single_hyphens = refl;
  no_first_hyphen = refl;
}
or_default-IsProfileName (c ∷ s) le parts single first = record {
  full = refl;
  short = le;
  parts = parts;
  single_hyphens = single;
  no_first_hyphen = first;
}

-- The name of a legacy profile is not empty, has at most 100 code units, all from [a-z0-9-], has no
-- two hyphens next to each other and does not begin with one.
legacy_profile_name-IsProfileName :
    (lower : Text → Text) (user_id : Text) → IsProfileName (legacy_profile_name lower user_id)
unfolding legacy_profile_name
legacy_profile_name-IsProfileName lower user_id =
    let named = hyphened (lower user_id) in
    let collapse = collapsed named in
    let core = without_end_hyphens collapse in
    let single = collapsed-single named in
    let parts = all_rows-collapsed is_name_part named (hyphened-parts (lower user_id)) in
    or_default-IsProfileName (take 100 core) (length-take 100 core)
      (all_rows-take is_name_part 100 core
        (all_rows-without_end_hyphens is_name_part collapse parts))
      (take-single 100 core (without-single collapse single))
      (take-begins 100 core (without-begins collapse single))
