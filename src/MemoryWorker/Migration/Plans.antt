-- ===== src/MemoryWorker/Migration/Plans.antt =====
-- The plans that may be built: they copy from a profile that no request of this version uses.
use mathlib.Core.List.{Memᴰ}
use memory_server_worker.Prelude.{
  ℕ, ◌≤◌, true, false, ◌||◌, Option, none, some, List, [], ◌∷◌, ◌++◌, ◌==◌, ◌≡◌, ◌≢◌, ◌⊎◌, refl, ap,
  sym, ◌∙◌, arith, ok, Result-cases, Bool-cases, inl, inr, length, all_rows, nat_eq,
}
use memory_server_worker.Routing.Schema.{codes}
use memory_server_worker.Texts.{Text, text_eq, trim}
use memory_server_worker.MemoryWorker.Security.{
  is_uuid, trimmed, profile_tuple, keeps_legacy_name, profile_name, legacy_profile_name,
  resolve_profile_name,
}
use memory_server_worker.MemoryWorker.Security.Profiles.{IsLower}
use memory_server_worker.MemoryWorker.Security.Uuids.{is_uuid-legacy_profile_name}
use memory_server_worker.MemoryWorker.Migration.{
  Plan, scope_plan, personal_plan, is_ambiguous, is_hash_digit, is_user_bound,
  build_scope_migration_plan, build_personal_migration_plan,
}

different : (a b : Text) → (a == b) ≡ false → a ≢ b
different a b h same = absurd (ground (arith, (text_eq.beq_iff a b).1 same))

-- What SHA-256 gives, in hexadecimal.
abbrev pub IsHexadecimal : ℕ → Type 0
IsHexadecimal c = (b'0' ≤ c) × (c ≤ b'9') ⊎ (b'a' ≤ c) × (c ≤ b'f')

abbrev pub IsHash : (List (Option Text) → Text) → Type 0
IsHash digest =
    (parts : List (Option Text))
    → (length (digest parts) ≡ 64) × ((c : ℕ) → Memᴰ c (digest parts) → IsHexadecimal c)

all_hash_digits :
    (s : Text) → ((c : ℕ) → Memᴰ c s → IsHexadecimal c) → all_rows is_hash_digit s ≡ true
all_hash_digits [] h = refl
all_hash_digits (c ∷ s) h =
    ground (arith, h c (Memᴰ.head refl), all_hash_digits s (λ d m. h d (Memᴰ.tail m)))

hash-is_user_bound :
    (s : Text)
    → (length s ≡ 64) × ((c : ℕ) → Memᴰ c s → IsHexadecimal c)
    → is_user_bound (codes "user-" ++ s) ≡ true
unfolding is_user_bound
hash-is_user_bound s (size, hex) = ground (arith, all_hash_digits s hex)

module _ (lower : Text → Text) (digest : List (Option Text) → Text) where
  -- No request of this version gets the source, whatever its user, scope and application are.
  pub record IsSafePlan (plan : Plan) : Type 0 where
    pub unused :
        (user : Text) (scope application : Option Text) {name : Text}
        → resolve_profile_name lower digest user scope application ≡ ok name
        → name ≢ plan.source_profile
    pub named : plan.source_profile ≢ codes "default"
    pub separate : plan.source_profile ≢ plan.target_profile

  module _ (low : IsLower lower) (hash : IsHash digest) where
    profile_name-is_ambiguous :
        (user : Text) (scope application : Option Text)
        → (is_uuid (profile_name lower digest user scope application)
            || is_user_bound (profile_name lower digest user scope application))
          ≡ true
    profile_name-is_ambiguous user scope application =
        elim (Bool-cases (keeps_legacy_name user scope application)) [
          | inl kept ↦ rw kept (rw (is_uuid-legacy_profile_name lower user low (ground arith)) refl)
          | inr bound ↦ rw bound (
              ground (
                arith,
                hash-is_user_bound (digest (profile_tuple user scope application))
                    (hash (profile_tuple user scope application)),
              ))
        ]

    resolve-is_ambiguous :
        (user : Text) (scope application : Option Text) {name : Text}
        → resolve_profile_name lower digest user scope application ≡ ok name
        → (is_uuid name || is_user_bound name) ≡ true
    unfolding resolve_profile_name
    resolve-is_ambiguous user scope application h =
        ground (arith, profile_name-is_ambiguous (trim user) (trimmed scope) (trimmed application))

    clear-IsSafePlan :
        (plan : Plan)
        → is_ambiguous plan.source_profile ≡ false
        → (plan.source_profile == plan.target_profile) ≡ false
        → IsSafePlan plan
    clear-IsSafePlan plan clear apart = record {
      unused = λ user scope application e same.
          absurd (ground (arith, resolve-is_ambiguous user scope application e, clear, same));
      named = different plan.source_profile (codes "default") (ground arith);
      separate = different plan.source_profile plan.target_profile apart;
    }

    -- Let `toLowerCase` be known on ASCII, and let the digest give 64 hexadecimal digits. A plan for
    -- a scope that is built copies from the legacy name of the trimmed scope to the profile that the
    -- trimmed owner and scope resolve to. The source is another profile than the target, it is not
    -- `default`, and no request of this version gets it, whatever its user, scope and application
    -- are.
    pub build_scope_migration_plan-IsSafePlan :
        (owner scope : Text) {plan : Plan}
        → build_scope_migration_plan lower digest owner scope ≡ ok plan
        → IsSafePlan plan
          × (plan.source_profile ≡ legacy_profile_name lower (trim scope))
          × (resolve_profile_name lower digest (trim owner) (some (trim scope)) none
              ≡ ok plan.target_profile)
    unfolding build_scope_migration_plan
    build_scope_migration_plan-IsSafePlan owner scope {plan = plan} h =
        elim (Result-cases
          (resolve_profile_name lower digest (trim owner) (some (trim scope)) none)) [
            | inr (e, fails) ↦ absurd (ground arith)
            | inl (target, resolves) ↦
                let source = legacy_profile_name lower (trim scope) in
                let built : scope_plan (trim owner) (trim scope) source target ≡ ok plan =
                  ground arith in
                let from : plan.source_profile ≡ source = ground arith in
                let to : plan.target_profile ≡ target = ground arith in
                (
                  clear-IsSafePlan plan (rw from (ground arith)) (rw (from, to) (ground arith)),
                  from,
                  resolves ∙ ap ok (sym to),
                )
          ]

    build_personal_migration_plan-IsSafePlan :
        (owner : Text) {plan : Plan}
        → build_personal_migration_plan lower digest owner ≡ ok plan
        → IsSafePlan plan
          × (plan.source_profile ≡ legacy_profile_name lower (trim owner))
          × (resolve_profile_name lower digest (trim owner) none none ≡ ok plan.target_profile)
    unfolding build_personal_migration_plan
    build_personal_migration_plan-IsSafePlan owner {plan = plan} h =
        elim (Result-cases (resolve_profile_name lower digest (trim owner) none none)) [
          | inr (e, fails) ↦ absurd (ground arith)
          | inl (target, resolves) ↦
              let source = legacy_profile_name lower (trim owner) in
              let built : personal_plan (trim owner) source target ≡ ok plan = ground arith in
              let from : plan.source_profile ≡ source = ground arith in
              let to : plan.target_profile ≡ target = ground arith in
              (
                clear-IsSafePlan plan (rw from (ground arith)) (rw (from, to) (ground arith)),
                from,
                resolves ∙ ap ok (sym to),
              )
        ]
