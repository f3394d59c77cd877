-- ===== src/MemoryWorker/Security/Profiles.antt =====
-- The profiles of different users, scopes and applications are different.
use memory_server_worker.Prelude.{
  ℕ, ◌+◌, ◌-◌, Bool, true, false, ◌&&◌, Option, List, [], ◌∷◌, ◌++◌, map, ◌==◌, nat_eq, all_rows,
  leb, ltb, ◌≡◌, ◌≢◌, refl, ap, sym, ◌∙◌, arith, if◌then◌else◌, Bool-cases, inl, inr, ◌⊎◌, ok,
}
use memory_server_worker.Routing.Schema.{codes}
use memory_server_worker.Texts.{Text, trim}
use memory_server_worker.MemoryWorker.Security.{
  is_name_part, hyphened, collapsed, drop_last_hyphen, without_end_hyphens, legacy_profile_name,
  is_hex_digit, has_groups, is_uuid, is_valued, or_null, trimmed, profile_tuple, keeps_legacy_name,
  profile_name, resolve_profile_name,
}

abbrev pub lower_ascii : ℕ → ℕ
lower_ascii c = if leb b'A' c && leb c b'Z' then c + 32 else c

abbrev pub is_ascii : Text → Bool
is_ascii s = all_rows (λ c. ltb c 128) s

abbrev pub first : Text → ℕ
first [] = 0
first (c ∷ s) = c

pub is_uuid-is_ascii :
    (n : ℕ) (groups : List ℕ) (s : Text) → has_groups n groups s ≡ true → is_ascii s ≡ true
is_uuid-is_ascii n groups [] h = refl
is_uuid-is_ascii n [] (c ∷ s) h = ground (arith, is_uuid-is_ascii (n - 1) [] s)
is_uuid-is_ascii n (g ∷ gs) (c ∷ s) h = elim (Bool-cases (n == 0)) [
  | inl e ↦ ground (arith, is_uuid-is_ascii g gs s)
  | inr e ↦ ground (arith, is_uuid-is_ascii (n - 1) (g ∷ gs) s)
]

Text-cases : (s : Text) → (s ≡ []) ⊎ ((c : ℕ) × (t : Text) × (s ≡ c ∷ t))
Text-cases [] = inl refl
Text-cases (c ∷ t) = inr (c, t, refl)

first-collapsed :
    (c : ℕ) (s : Text) → (c == b'-') ≡ false → (t : Text) × (collapsed (c ∷ s) ≡ c ∷ t)
first-collapsed c s e = elim (Text-cases (collapsed s)) [
  | inl alone ↦ ([], ground arith)
  | inr (d, t, more) ↦ (d ∷ t, ground arith)
]

first-drop :
    (c : ℕ) (s : Text) → (c == b'-') ≡ false → (t : Text) × (drop_last_hyphen (c ∷ s) ≡ c ∷ t)
first-drop c [] e = ([], ground arith)
first-drop c (d ∷ s) e = (drop_last_hyphen (d ∷ s), refl)

-- A legacy name begins with the first code unit, if that is a hexadecimal digit.
first-legacy_profile_name :
    (lower : Text → Text) (c : ℕ) (s : Text) (user : Text)
    → lower user ≡ c ∷ s
    → is_name_part c ≡ true
    → (c == b'-') ≡ false
    → first (legacy_profile_name lower user) ≡ c
unfolding legacy_profile_name
first-legacy_profile_name lower c s user e part other =
    let (t, kept) = first-collapsed c (hyphened s) other in
    let (t', still) = first-drop c t other in
    let cut : without_end_hyphens (collapsed (hyphened (lower user))) ≡ c ∷ t' = ground arith in
    rw cut refl

-- What `toLowerCase` does on a text of ASCII.
abbrev pub IsLower : (Text → Text) → Type 0
IsLower lower = (s : Text) → is_ascii s ≡ true → lower s ≡ map lower_ascii s

abbrev pub u_code : ℕ
u_code = b'u'

hex_name :
    (c : ℕ)
    → is_hex_digit c ≡ true
    → (is_name_part (lower_ascii c) ≡ true)
      × ((lower_ascii c == b'-') ≡ false)
      × (lower_ascii c ≢ b'u')
hex_name c h = (ground arith, ground arith, ground arith)

first-uuid :
    (user : Text)
    → is_uuid user ≡ true
    → (c : ℕ) × (s : Text) × (user ≡ c ∷ s) × (is_hex_digit c ≡ true)
unfolding is_uuid
first-uuid [] h = absurd (ground arith)
first-uuid (c ∷ s) h = (c, s, refl, ground arith)

legacy_profile_name-u :
    (lower : Text → Text) (user : Text)
    → IsLower lower
    → is_uuid user ≡ true
    → first (legacy_profile_name lower user) ≢ b'u'
legacy_profile_name-u lower user low uuid =
    let (c, s, e, hex) = first-uuid user uuid in
    let (part, other, no_u) = hex_name c hex in
    let ascii = is_uuid-is_ascii 8 (4 ∷ 4 ∷ 4 ∷ 12 ∷ []) user (unfold is_uuid in uuid) in
    let lowered : lower user ≡ lower_ascii c ∷ map lower_ascii s =
      low user ascii ∙ ap (map lower_ascii) e in
    let begins =
      first-legacy_profile_name lower (lower_ascii c) (map lower_ascii s) user lowered part other in
    λ h. no_u (sym begins ∙ h)

abbrev pub IsInjective : (List (Option Text) → Text) → Type 0
IsInjective digest = (a b : List (Option Text)) → digest a ≡ digest b → a ≡ b

profile_tuple-injective :
    (u u' : Text) (s s' a a' : Option Text)
    → profile_tuple u s a ≡ profile_tuple u' s' a'
    → (u ≡ u') × (or_null s ≡ or_null s') × (or_null a ≡ or_null a')
profile_tuple-injective u u' s s' a a' h = elim (Bool-cases (is_valued a)) [
  | inl e ↦ elim (Bool-cases (is_valued a')) [
    | inl e' ↦ (ground arith, ground arith, ground arith)
    | inr e' ↦ absurd (ground arith)
  ]
  | inr e ↦ elim (Bool-cases (is_valued a')) [
    | inl e' ↦ absurd (ground arith)
    | inr e' ↦ (ground arith, ground arith, ground arith)
  ]
]

module _ (lower : Text → Text) (digest : List (Option Text) → Text) (low : IsLower lower)
    (injective : IsInjective digest) where
  profile_name-separate :
      (u u' : Text) (s s' a a' : Option Text)
      → profile_name lower digest u s a ≡ profile_name lower digest u' s' a'
      → keeps_legacy_name u s a ≡ false
      → (u ≡ u') × (or_null s ≡ or_null s') × (or_null a ≡ or_null a')
  profile_name-separate u u' s s' a a' same bound = elim (Bool-cases (keeps_legacy_name u' s' a')) [
    | inl legacy ↦
        let mixed : codes "user-" ++ digest (profile_tuple u s a) ≡ legacy_profile_name lower u' =
          ground arith in
        absurd (legacy_profile_name-u lower u' low (ground arith) (ap first (sym mixed)))
    | inr bound' ↦
        let hashed : digest (profile_tuple u s a) ≡ digest (profile_tuple u' s' a') =
          ground arith in
        profile_tuple-injective u u' s s' a a' (injective _ _ hashed)
  ]

  resolve-eq-ok :
      (user_id : Text) (scope application : Option Text) {name : Text}
      → resolve_profile_name lower digest user_id scope application ≡ ok name
      → profile_name lower digest (trim user_id) (trimmed scope) (trimmed application) ≡ name
  unfolding resolve_profile_name
  resolve-eq-ok user_id scope application h = ground arith

  -- Let the digest be free of collisions, and `toLowerCase` be known on ASCII. Two requests that get
  -- the same profile have the same trimmed user, and the same scope and application, trimmed and as
  -- none if they are empty, if the first does not keep a legacy name: it has a scope or an
  -- application, or its user is no UUID.
  pub resolve_profile_name_separate :
      (user_id user_id' : Text) (scope scope' application application' : Option Text) {name : Text}
      → resolve_profile_name lower digest user_id scope application ≡ ok name
      → resolve_profile_name lower digest user_id' scope' application' ≡ ok name
      → keeps_legacy_name (trim user_id) (trimmed scope) (trimmed application) ≡ false
      → (trim user_id ≡ trim user_id')
        × (or_null (trimmed scope) ≡ or_null (trimmed scope'))
        × (or_null (trimmed application) ≡ or_null (trimmed application'))
  resolve_profile_name_separate u u' s s' a a' h h' bound =
      profile_name-separate (trim u) (trim u') (trimmed s) (trimmed s') (trimmed a) (trimmed a')
        (resolve-eq-ok u s a h ∙ sym (resolve-eq-ok u' s' a' h')) bound
