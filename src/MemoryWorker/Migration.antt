-- ===== src/MemoryWorker/Migration.antt =====
-- The migration of the profiles of versions before 2.0 (packages/memory-worker/src/migration.ts). The
-- memory service is a client over a state of type S: each call gives a value or throws, and a state,
-- also where it throws, since nothing is rolled back. `lower` and `digest` are those of Security.
pub mod Stores
pub mod Sets
pub mod Verified
pub mod Plans
pub mod Fingerprints
pub mod Success
pub mod Retry
use memory_server_worker.Prelude.{
  ℕ, ◌+◌, ◌-◌, Bool, true, false, ◌&&◌, ◌||◌, not, Option, none, some, List, [], ◌∷◌, ◌++◌, ◌==◌,
  ◌!=◌, nat_eq, leb, length, all_rows, any_row, contains, if◌then◌else◌, Result, ok, err,
}
use memory_server_worker.Prelude.Actions
use memory_server_worker.Prelude.Actions.{continue, ◌>>=◌, ◌>>◌, return, throw_if}
use memory_server_worker.Routing.Schema.{codes}
use memory_server_worker.Texts.{Text, text_eq, trim, is_empty}
use memory_server_worker.MemoryWorker.Security
use memory_server_worker.MemoryWorker.Security.{
  is_uuid, legacy_profile_name, resolve_profile_name, default_name,
}

pub data Error : Type 0 where
  owner_required scope_required same_profiles ownership_unconfirmed source_empty : Error
  target_has_other_data source_changed verification_failed : Error
  ambiguous : Text → Error
  unresolved : Security.Error → Error
  client_failed : Text → Error

pub data ProfileKind : Type 0 where
  scoped personal : ProfileKind

pub record Plan : Type 0 where
  pub profile_kind : ProfileKind
  pub owner_sub : Text
  pub logical_scope : Option Text
  pub source_profile : Text
  pub target_profile : Text

pub record Memory : Type 0 where
  pub id : Text
  pub content : Text
  pub session_id : Option Text

pub record Summary : Type 0 where
  pub source_count : ℕ
  pub unique_source_count : ℕ
  pub copied : ℕ
  pub already_present : ℕ

-- Code that may throw and changes the state S.
abbrev pub Action {ℓ κ} : Type ℓ → Type κ → Type (ℓ ⊔ κ)
Action S A = Actions.Action Error S A

pub record Client {ℓ} (S : Type ℓ) : Type ℓ where
  pub list_profile : Text → Action S (List Memory)
  pub remember : Text → (content : Text) (session_id : Option Text) → Action S (Unit {0})

-- /^user-[a-f0-9]{64}$/
abbrev pub is_hash_digit : ℕ → Bool
is_hash_digit c = leb b'0' c && leb c b'9' || leb b'a' c && leb c b'f'

abbrev pub has_prefix : (prefix s : Text) → (rest : Text → Bool) → Bool
has_prefix [] s rest = rest s
has_prefix (c ∷ p) [] rest = false
has_prefix (c ∷ p) (d ∷ s) rest = c == d && has_prefix p s rest

unfoldable pub is_user_bound : Text → Bool
is_user_bound s =
    has_prefix (codes "user-") s (λ rest. length rest == 64 && all_rows is_hash_digit rest)

abbrev pub is_ambiguous : Text → Bool
is_ambiguous profile = profile == default_name || (is_uuid profile || is_user_bound profile)

abbrev pub resolved : Result Security.Error Text → (Text → Result Error Plan) → Result Error Plan
resolved (err e) rest = err (unresolved e)
resolved (ok target) rest = rest target

abbrev pub scope_plan : (owner scope source target : Text) → Result Error Plan
scope_plan owner scope source target =
    if is_ambiguous source
    then err (ambiguous source)
    else if source == target
    then err same_profiles
    else ok (record {
      profile_kind = scoped;
      owner_sub = owner;
      logical_scope = some scope;
      source_profile = source;
      target_profile = target;
    })

abbrev pub personal_plan : (owner source target : Text) → Result Error Plan
personal_plan owner source target =
    if source == target
    then err same_profiles
    else if is_ambiguous source
    then err (ambiguous source)
    else ok (record {
      profile_kind = personal;
      owner_sub = owner;
      logical_scope = none;
      source_profile = source;
      target_profile = target;
    })

module _ (lower : Text → Text) (digest : List (Option Text) → Text) where
  unfoldable pub build_scope_migration_plan : (owner_sub logical_scope : Text) → Result Error Plan
  build_scope_migration_plan owner_sub logical_scope =
      if is_empty (trim owner_sub)
      then err owner_required
      else if is_empty (trim logical_scope)
      then err scope_required
      else resolved
          (resolve_profile_name lower digest (trim owner_sub) (some (trim logical_scope)) none)
          (λ target.
            scope_plan (trim owner_sub) (trim logical_scope)
              (legacy_profile_name lower (trim logical_scope)) target)

  unfoldable pub build_personal_migration_plan : (owner_sub : Text) → Result Error Plan
  build_personal_migration_plan owner_sub =
      if is_empty (trim owner_sub)
      then err owner_required
      else resolved (resolve_profile_name lower digest (trim owner_sub) none none) (λ target.
        personal_plan (trim owner_sub) (legacy_profile_name lower (trim owner_sub)) target)

abbrev pub is_confirmed : Plan → (confirmed_owner_sub : Text) → Bool
is_confirmed plan confirmed_owner_sub = trim confirmed_owner_sub == plan.owner_sub

-- A `Set` of texts, as the list of its elements.
abbrev pub add : Text → List Text → List Text
add f set = if contains f set then set else f ∷ set

-- Whether each element of the first set is in the second one.
abbrev pub has_all : (set of : List Text) → Bool
has_all set of = all_rows (λ f. contains f of) set

module _ (digest : List (Option Text) → Text) where
  abbrev pub memory_fingerprint : (content : Text) (session_id : Option Text) → Text
  memory_fingerprint content session_id =
      digest (some (codes "memory-scope-copy-v1") ∷ some content ∷ session_id ∷ [])

  abbrev pub fingerprint_of : Memory → Text
  fingerprint_of m = memory_fingerprint m.content m.session_id

  abbrev pub add_all : List Memory → List Text → List Text
  add_all [] set = set
  add_all (m ∷ ms) set = add_all ms (add (fingerprint_of m) set)

  abbrev pub fingerprint_set : List Memory → List Text
  fingerprint_set memories = add_all memories []

module _ {ℓ} {S : Type ℓ} (digest : List (Option Text) → Text) (client : Client S)
    (plan : Plan) where
  -- The loop over the source, with the sets and the counters that it changes.
  unfoldable pub copy_memories :
      List Memory → (seen target : List Text) (copied already_present : ℕ) → Action S (ℕ × ℕ)
  copy_memories [] seen target copied already_present s = (ok (copied, already_present), s)
  copy_memories (m ∷ ms) seen target copied already_present s =
      let f = fingerprint_of digest m in
      if contains f seen || contains f target
      then copy_memories ms (add f seen) target copied (already_present + 1) s
      else continue (λ _. copy_memories ms (add f seen) (add f target) (copied + 1) already_present)
          (client.remember plan.target_profile m.content m.session_id s)

  -- What follows the two first reads.
  unfoldable pub migrate_between : (source target_before : List Memory) → Action S Summary
  migrate_between source target_before = do
    throw_if (not (has_all (fingerprint_set digest target_before) (fingerprint_set digest source)))
        target_has_other_data
    counts ← copy_memories source [] (fingerprint_set digest target_before) 0 0
    source_after ← client.list_profile plan.source_profile
    throw_if
        (length (fingerprint_set digest source_after) != length (fingerprint_set digest source)
          || not (has_all (fingerprint_set digest source) (fingerprint_set digest source_after)))
        source_changed
    target_after ← client.list_profile plan.target_profile
    throw_if (not (has_all (fingerprint_set digest source) (fingerprint_set digest target_after)))
        verification_failed
    return (record {
      source_count = length source;
      unique_source_count = length (fingerprint_set digest source);
      copied = counts.0;
      already_present = counts.1;
    })

  unfoldable pub migrate_legacy_scoped_profile : (confirmed_owner_sub : Text) → Action S Summary
  migrate_legacy_scoped_profile confirmed_owner_sub = do
    throw_if (not (is_confirmed plan confirmed_owner_sub)) ownership_unconfirmed
    source ← client.list_profile plan.source_profile
    throw_if (length source == 0) source_empty
    target_before ← client.list_profile plan.target_profile
    migrate_between source target_before
