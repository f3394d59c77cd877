-- ===== src/MemoryWorker/Security/Uuids.antt =====
-- A UUID keeps its name: the sanitizer of names only brings it to lower case.
use memory_server_worker.Prelude.{
  ℕ, zero, suc, ◌+◌, ◌-◌, ◌≤◌, Bool, true, false, ◌&&◌, List, [], ◌∷◌, ◌==◌, nat_eq, ltb, length,
  take, map, all_rows, ◌≡◌, refl, ap, arith, Bool-cases, inl, inr,
}
use memory_server_worker.Texts.{Text}
use memory_server_worker.MemoryWorker.Security.{
  is_name_part, hyphened, collapsed, drop_last_hyphen, without_end_hyphens, or_default,
  legacy_profile_name, has_groups, is_uuid,
}
use memory_server_worker.MemoryWorker.Security.Names.{has_single_hyphens, begins_with_hyphen}
use memory_server_worker.MemoryWorker.Security.Profiles.{lower_ascii, IsLower, is_uuid-is_ascii}

abbrev are_positive : List ℕ → Bool
are_positive groups = all_rows (λ g. ltb 0 g) groups

abbrev total : List ℕ → ℕ
total [] = 0
total (g ∷ gs) = g + 1 + total gs

lowered_groups :
    (n : ℕ) (groups : List ℕ) (s : Text)
    → has_groups n groups s ≡ true
    → has_groups n groups (map lower_ascii s) ≡ true
lowered_groups n [] [] h = h
lowered_groups n (g ∷ gs) [] h = h
lowered_groups n [] (c ∷ s) h = ground (arith, lowered_groups (n - 1) [] s)
lowered_groups n (g ∷ gs) (c ∷ s) h = elim (Bool-cases (n == 0)) [
  | inl e ↦ ground (arith, lowered_groups g gs s)
  | inr e ↦ ground (arith, lowered_groups (n - 1) (g ∷ gs) s)
]

lowered_parts :
    (n : ℕ) (groups : List ℕ) (s : Text)
    → has_groups n groups s ≡ true
    → all_rows is_name_part (map lower_ascii s) ≡ true
lowered_parts n groups [] h = refl
lowered_parts n [] (c ∷ s) h = ground (arith, lowered_parts (n - 1) [] s)
lowered_parts n (g ∷ gs) (c ∷ s) h = elim (Bool-cases (n == 0)) [
  | inl e ↦ ground (arith, lowered_parts g gs s)
  | inr e ↦ ground (arith, lowered_parts (n - 1) (g ∷ gs) s)
]

length-groups :
    (n : ℕ) (groups : List ℕ) (s : Text)
    → has_groups n groups s ≡ true
    → length s ≡ n + total groups
length-groups n [] [] h = ground arith
length-groups n (g ∷ gs) [] h = absurd (ground arith)
length-groups n [] (c ∷ s) h = ground (arith, length-groups (n - 1) [] s)
length-groups n (g ∷ gs) (c ∷ s) h = elim (Bool-cases (n == 0)) [
  | inl e ↦ ground (arith, length-groups g gs s)
  | inr e ↦ ground (arith, length-groups (n - 1) (g ∷ gs) s)
]

single-groups :
    (n : ℕ) (groups : List ℕ) (s : Text)
    → are_positive groups ≡ true
    → has_groups n groups s ≡ true
    → has_single_hyphens s ≡ true
single-groups n groups [] p h = refl
single-groups n groups (c ∷ []) p h = refl
single-groups n [] (c ∷ d ∷ s) p h = ground (arith, single-groups (n - 1) [] (d ∷ s))
single-groups n (g ∷ []) (c ∷ d ∷ s) p h = elim (Bool-cases (n == 0)) [
  | inl e ↦ ground (arith, single-groups g [] (d ∷ s))
  | inr e ↦ ground (arith, single-groups (n - 1) (g ∷ []) (d ∷ s))
]
single-groups n (g ∷ k ∷ gs) (c ∷ d ∷ s) p h = elim (Bool-cases (n == 0)) [
  | inl e ↦ ground (arith, single-groups g (k ∷ gs) (d ∷ s))
  | inr e ↦ ground (arith, single-groups (n - 1) (g ∷ k ∷ gs) (d ∷ s))
]

drop_last_hyphen-groups :
    (n : ℕ) (groups : List ℕ) (s : Text)
    → are_positive groups ≡ true
    → has_groups n groups s ≡ true
    → drop_last_hyphen s ≡ s
drop_last_hyphen-groups n groups [] p h = refl
drop_last_hyphen-groups n [] (c ∷ []) p h = ground arith
drop_last_hyphen-groups n (g ∷ []) (c ∷ []) p h = ground arith
drop_last_hyphen-groups n (g ∷ k ∷ gs) (c ∷ []) p h = ground arith
drop_last_hyphen-groups n [] (c ∷ d ∷ s) p h =
    ground (arith, drop_last_hyphen-groups (n - 1) [] (d ∷ s))
drop_last_hyphen-groups n (g ∷ gs) (c ∷ d ∷ s) p h = elim (Bool-cases (n == 0)) [
  | inl e ↦ ground (arith, drop_last_hyphen-groups g gs (d ∷ s))
  | inr e ↦ ground (arith, drop_last_hyphen-groups (n - 1) (g ∷ gs) (d ∷ s))
]

hyphened-same : (s : Text) → all_rows is_name_part s ≡ true → hyphened s ≡ s
hyphened-same [] h = refl
hyphened-same (c ∷ s) h = ground (arith, hyphened-same s)

collapsed-apart :
    (c d : ℕ) (s t : Text)
    → collapsed t ≡ d ∷ s
    → (c == b'-' && d == b'-') ≡ false
    → collapsed (c ∷ t) ≡ c ∷ d ∷ s
collapsed-apart c d s t e h = ground arith

collapsed-same : (s : Text) → has_single_hyphens s ≡ true → collapsed s ≡ s
collapsed-same [] h = refl
collapsed-same (c ∷ []) h = refl
collapsed-same (c ∷ d ∷ s) h =
    let rest : collapsed (d ∷ s) ≡ d ∷ s = collapsed-same (d ∷ s) (ground arith) in
    collapsed-apart c d s (d ∷ s) rest (ground arith)

take-same : (n : ℕ) (s : Text) → length s ≤ n → take n s ≡ s
take-same zero [] h = refl
take-same (suc n) [] h = refl
take-same zero (c ∷ s) h = absurd (omega arith)
take-same (suc n) (c ∷ s) h = ap (λ t. c ∷ t) (take-same n s (omega arith))

begins-groups :
    (n : ℕ) (groups : List ℕ) (s : Text)
    → (n == 0) ≡ false
    → has_groups n groups s ≡ true
    → begins_with_hyphen s ≡ false
begins-groups n groups [] e h = refl
begins-groups n [] (c ∷ s) e h = ground arith
begins-groups n (g ∷ gs) (c ∷ s) e h = ground arith

without_end_hyphens-same :
    (s : Text) → begins_with_hyphen s ≡ false → without_end_hyphens s ≡ drop_last_hyphen s
without_end_hyphens-same [] h = refl
without_end_hyphens-same (c ∷ s) h = ground arith

or_default-same : (n : ℕ) (s : Text) → length s ≡ suc n → or_default s ≡ s
or_default-same n [] h = absurd (ground arith)
or_default-same n (c ∷ s) h = refl

groups-same :
    (s : Text)
    → has_groups 8 (4 ∷ 4 ∷ 4 ∷ 12 ∷ []) s ≡ true
    → all_rows is_name_part s ≡ true
    → or_default (take 100 (without_end_hyphens (collapsed (hyphened s)))) ≡ s
groups-same s h parts =
    let groups = 4 ∷ 4 ∷ 4 ∷ 12 ∷ [] in
    let size : length s ≡ 36 = length-groups 8 groups s h in
    let named : hyphened s ≡ s = hyphened-same s parts in
    let single : collapsed s ≡ s = collapsed-same s (single-groups 8 groups s refl h) in
    let begins : without_end_hyphens s ≡ drop_last_hyphen s =
      without_end_hyphens-same s (begins-groups 8 groups s refl h) in
    let ends : drop_last_hyphen s ≡ s = drop_last_hyphen-groups 8 groups s refl h in
    let short : take 100 s ≡ s = take-same 100 s (omega (arith, size)) in
    rw (named, single, begins, ends, short) (or_default-same 35 s size)

pub is_uuid-legacy_profile_name :
    (lower : Text → Text) (user : Text)
    → IsLower lower
    → is_uuid user ≡ true
    → is_uuid (legacy_profile_name lower user) ≡ true
unfolding is_uuid legacy_profile_name
is_uuid-legacy_profile_name lower user low h =
    let groups = 4 ∷ 4 ∷ 4 ∷ 12 ∷ [] in
    let lowered : lower user ≡ map lower_ascii user = low user (is_uuid-is_ascii 8 groups user h) in
    let kept = lowered_groups 8 groups user h in
    let same : or_default
          (take 100 (without_end_hyphens (collapsed (hyphened (map lower_ascii user)))))
        ≡ map lower_ascii user =
      groups-same (map lower_ascii user) kept (lowered_parts 8 groups user h) in
    rw (lowered, same) kept
