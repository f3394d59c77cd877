-- ===== src/MemoryWorker/Examples.antt =====
-- The memory worker in use: a digest without collisions, streams, and a store of profiles.
use mathlib.Core.List.{Memᴰ}
use memory_server_worker.Prelude.{
  all_rows, ℕ, zero, suc, ◌<◌, true, false, Option, none, some, List, [], ◌∷◌, ◌==◌, map, length,
  Result, ok, err, ◌≡◌, ◌↔◌, inl, inr, refl, ap, ◌∙◌, ◌++◌, arith, if◌then◌else◌, Bool-cases,
}
use memory_server_worker.Routing.Schema.{codes}
use memory_server_worker.Texts.{Text, text_eq, is_empty, trim, is_space}
use memory_server_worker.MemoryWorker.Security.{
  is_uuid, legacy_profile_name, resolve_profile_name, keeps_legacy_name, is_valid_sso_state,
  or_null, trimmed,
}
use memory_server_worker.MemoryWorker.Security.States.{is_valid_sso_state_iff}
use memory_server_worker.MemoryWorker.Security.Profiles.{
  lower_ascii, IsInjective, resolve_profile_name_separate,
}
use memory_server_worker.MemoryWorker.Body.{
  Read, chunk, done, Source, Reason, read_bounded_body, read_json_request_body, finite,
}
use memory_server_worker.MemoryWorker.Body.Reading.{
  read_bounded_body-Gives, read_bounded_body_returns,
}
use memory_server_worker.MemoryWorker.Body.Json.{IsOver, IsAnswer, read_json_request_body-IsAnswer}
use memory_server_worker.Prelude.Actions.{continue, throw_if}
use memory_server_worker.MemoryWorker.Migration.{
  is_hash_digit, is_user_bound, build_scope_migration_plan, client_failed, Plan, Memory, Client,
  Summary, scoped, migrate_legacy_scoped_profile, is_confirmed, copy_memories, migrate_between,
}
use memory_server_worker.MemoryWorker.Migration.Stores.{IsStore, IsCopying, migrate_copies_only}
use memory_server_worker.MemoryWorker.Migration.Plans.{
  IsHexadecimal, IsHash, IsSafePlan, build_scope_migration_plan-IsSafePlan,
}
use memory_server_worker.MemoryWorker.Migration.Success.{IsReliable}
use memory_server_worker.MemoryWorker.Migration.Retry.{migrate_again}
use memory_server_worker.MemoryWorker.Migration.Verified.{IsVerified, migrate-IsVerified}

-- A text is spelled by the successors of its code units, and a 0 at its end.
abbrev spell : Text → Text → Text
spell [] rest = 0 ∷ rest
spell (c ∷ s) rest = suc c ∷ spell s rest

abbrev spelled : List (Option Text) → Text
spelled [] = []
spelled (none ∷ parts) = 0 ∷ spelled parts
spelled (some s ∷ parts) = 1 ∷ spell s (spelled parts)

spell-injective :
    (s s' rest rest' : Text) → spell s rest ≡ spell s' rest' → (s ≡ s') × (rest ≡ rest')
spell-injective [] [] rest rest' h = (refl, ground arith)
spell-injective [] (c ∷ s') rest rest' h = absurd (ground arith)
spell-injective (c ∷ s) [] rest rest' h = absurd (ground arith)
spell-injective (c ∷ s) (d ∷ s') rest rest' h =
    let (same, left) = spell-injective s s' rest rest' (ground arith) in (ground arith, left)

spelled-IsInjective : IsInjective spelled
spelled-IsInjective [] [] h = refl
spelled-IsInjective [] (none ∷ b) h = absurd (ground arith)
spelled-IsInjective [] (some t ∷ b) h = absurd (ground arith)
spelled-IsInjective (none ∷ a) [] h = absurd (ground arith)
spelled-IsInjective (some s ∷ a) [] h = absurd (ground arith)
spelled-IsInjective (none ∷ a) (none ∷ b) h =
    ap (λ r. none ∷ r) (spelled-IsInjective a b (ground arith))
spelled-IsInjective (none ∷ a) (some t ∷ b) h = absurd (ground arith)
spelled-IsInjective (some s ∷ a) (none ∷ b) h = absurd (ground arith)
spelled-IsInjective (some s ∷ a) (some t ∷ b) h =
    let (same, left) = spell-injective s t (spelled a) (spelled b) (ground arith) in
    let rest = spelled-IsInjective a b left in ground arith

abbrev lowered : Text → Text
lowered s = map lower_ascii s

abbrev ann_name : Text
ann_name = codes " Ann "

abbrev notes : Text
notes = codes "notes"

abbrev ann_notes : Text
ann_notes = codes "notes "

abbrev profile : Text
profile = codes "user-"

is_valid_sso_state_iff_example :
    (is_valid_sso_state (some notes) (some notes) ≡ true)
    ↔ ((s : Text) × (some notes ≡ some s) × (some notes ≡ some s) × (is_empty s ≡ false))
is_valid_sso_state_iff_example = is_valid_sso_state_iff (some notes) (some notes)

abbrev two_chunks : ℕ → Read
two_chunks zero = chunk (1 ∷ 2 ∷ [])
two_chunks (suc zero) = chunk (3 ∷ [])
two_chunks (suc (suc at)) = done

abbrev endless : ℕ → Read
endless at = chunk (1 ∷ [])

abbrev short : Source
short = record { content_length = some (finite 3); body = some two_chunks }

abbrev flood : Source
flood = record { content_length = none; body = some endless }

read_bounded_body-Gives_example : read_bounded_body 3 short 8 ≡ some (ok (1 ∷ 2 ∷ 3 ∷ []))
read_bounded_body-Gives_example =
    read_bounded_body-Gives 3 short 8 two_chunks ((1 ∷ 2 ∷ []) ∷ (3 ∷ []) ∷ []) true refl
      (refl, (refl, refl)) (omega arith)

read_json_request_body-IsAnswer_example :
    IsAnswer some some
      (IsOver short 2 ((1 ∷ 2 ∷ []) ∷ (3 ∷ []) ∷ []))
      true
      (1 ∷ 2 ∷ 3 ∷ [])
      (read_json_request_body some some 3 short 2)
read_json_request_body-IsAnswer_example =
    read_json_request_body-IsAnswer some some 3 short 2 two_chunks ((1 ∷ 2 ∷ []) ∷ (3 ∷ []) ∷ [])
      true refl (refl, (refl, refl)) (omega arith)

endless-full :
    (reads : ℕ → Read)
    → flood.body ≡ some reads
    → (at : ℕ) (c : List ℕ) → reads at ≡ chunk c
    → 0 < length c
endless-full reads e at c given =
    let same : endless ≡ reads = cc in
    let one : chunk (1 ∷ []) ≡ chunk c = ap (λ (f : ℕ → Read). f at) same ∙ given in ground arith

read_bounded_body_returns_example :
    (r : Result Reason (List ℕ)) × (read_bounded_body 4 flood 3 ≡ some r)
read_bounded_body_returns_example = read_bounded_body_returns flood 3 endless-full

-- Profiles that never fail.
abbrev Profiles : Type 0
Profiles = Text → List Memory

abbrev service : Client Profiles
service = record {
  list_profile = λ p s. (ok (s p), s);
  remember = λ p content session_id s. (
    ok tt,
    λ q.
        if q == p
        then record { id = []; content = content; session_id = session_id } ∷ s q
        else s q,
  );
}

abbrev view : Profiles → Text → List Memory
view s p = s p

service-IsStore : IsStore service view
service-IsStore = record {
  list_keeps = λ p s q. refl;
  list_reads = λ p s ms read. ground arith;
  remember_others = λ p content session_id s q other. elim (Bool-cases (q == p)) [
    | inl same ↦ absurd (other ((text_eq.beq_iff q p).0 same))
    | inr miss ↦ rw miss refl
  ];
  remember_adds = λ p content session_id s. inr ([], rw ((text_eq.beq_iff p p).1 refl) refl);
}

abbrev plan : Plan
plan = record {
  profile_kind = scoped;
  owner_sub = codes "Ann";
  logical_scope = some notes;
  source_profile = notes;
  target_profile = profile;
}

abbrev memory : Memory
memory = record { id = codes "m1"; content = codes "x"; session_id = none }

abbrev before : Profiles
before p = if p == notes then memory ∷ [] else []

abbrev migrated : Summary × Profiles
migrated = (
  record { source_count = 1; unique_source_count = 1; copied = 1; already_present = 0 },
  (migrate_legacy_scoped_profile spelled service plan ann_name before).1,
)

migrate_first :
    migrate_legacy_scoped_profile spelled service plan ann_name before ≡ (ok migrated.0, migrated.1)
unfolding migrate_legacy_scoped_profile migrate_between copy_memories continue throw_if is_space
migrate_first = refl

migrate-IsVerified_example :
    (is_confirmed plan ann_name ≡ true)
    × IsVerified spelled service plan view (memory ∷ []) migrated
migrate-IsVerified_example =
    migrate-IsVerified spelled service plan view service-IsStore ann_name before {done = migrated}
      migrate_first

migrate_copies_only_example :
    IsCopying spelled service view service-IsStore plan
      (λ content session_id. content ≡ codes "x")
      before
      (migrate_legacy_scoped_profile spelled service plan ann_name before).1
migrate_copies_only_example =
    migrate_copies_only spelled service view service-IsStore plan
      (λ content session_id. content ≡ codes "x") before ann_name (λ h. absurd (ground arith))
      (refl, tt) tt

abbrev resolved_name : Text
resolved_name =
    profile ++ spelled (some (codes "memory-profile-v1") ∷ some (codes "Ann") ∷ some notes ∷ [])

resolve_first : resolve_profile_name lowered spelled ann_name (some notes) none ≡ ok resolved_name
unfolding resolve_profile_name is_space
resolve_first = refl

resolve_again :
    resolve_profile_name lowered spelled (codes "Ann") (some ann_notes) none ≡ ok resolved_name
unfolding resolve_profile_name is_space
resolve_again = refl

is_bound : keeps_legacy_name (trim ann_name) (trimmed (some notes)) (trimmed none) ≡ false
unfolding is_space
is_bound = refl

resolve_profile_name_separate_example :
    (trim ann_name ≡ trim (codes "Ann"))
    × (or_null (trimmed (some notes)) ≡ or_null (trimmed (some ann_notes)))
    × (or_null (trimmed none) ≡ or_null (trimmed none))
resolve_profile_name_separate_example =
    resolve_profile_name_separate lowered spelled (λ s ascii. refl) spelled-IsInjective ann_name
      (codes "Ann") (some notes) (some ann_notes) none none resolve_first resolve_again is_bound

-- A service that adds a memory and then throws.
abbrev flaky : Client Profiles
flaky = record {
  list_profile = service.list_profile;
  remember = λ p content session_id s.
      (err (client_failed (codes "timeout")), (service.remember p content session_id s).1);
}

flaky-IsStore : IsStore flaky view
flaky-IsStore = record {
  list_keeps = service-IsStore.list_keeps;
  list_reads = service-IsStore.list_reads;
  remember_others = service-IsStore.remember_others;
  remember_adds = service-IsStore.remember_adds;
}

service-IsReliable : IsReliable service view
service-IsReliable = record {
  store = service-IsStore;
  lists = λ p s. refl;
  remembers = λ p content session_id s. refl;
  adds = λ p content session_id s. ([], rw ((text_eq.beq_iff p p).1 refl) refl);
}

confirmed_first : is_confirmed plan ann_name ≡ true
unfolding is_space
confirmed_first = refl

migrate_again_example :
    (done : Summary) × ((migrate_legacy_scoped_profile spelled service plan ann_name
        (migrate_legacy_scoped_profile spelled flaky plan ann_name before).1).0
      ≡ ok done)
migrate_again_example =
    migrate_again spelled flaky service view flaky-IsStore service-IsReliable plan ann_name ann_name
      before (λ h. absurd (ground arith)) confirmed_first (omega arith) refl

abbrev hashed : List (Option Text) → Text
hashed parts = codes "0123456789abcdef0123456789abcdef0123456789abcdef0123456789abcdef"

digits-IsHexadecimal :
    (s : Text) → all_rows is_hash_digit s ≡ true → (c : ℕ) → Memᴰ c s → IsHexadecimal c
digits-IsHexadecimal [] h c m = elim m [ ]
digits-IsHexadecimal (d ∷ s) h c (Memᴰ.head same) = rw same (hex d (ground arith))
  where
    hex : (d : ℕ) → is_hash_digit d ≡ true → IsHexadecimal d
    hex d h = ground arith
digits-IsHexadecimal (d ∷ s) h c (Memᴰ.tail m) = digits-IsHexadecimal s (ground arith) c m

hashed-IsHash : IsHash hashed
hashed-IsHash parts = (refl, digits-IsHexadecimal (hashed parts) refl)

abbrev built_plan : Plan
built_plan = record {
  profile_kind = scoped;
  owner_sub = codes "Ann";
  logical_scope = some notes;
  source_profile = notes;
  target_profile = profile ++ hashed [];
}

build_hashed : build_scope_migration_plan lowered hashed ann_name ann_notes ≡ ok built_plan
unfolding build_scope_migration_plan resolve_profile_name legacy_profile_name is_uuid is_user_bound
    is_space
build_hashed = refl

build_scope_migration_plan-IsSafePlan_example :
    IsSafePlan lowered hashed built_plan
    × (notes ≡ legacy_profile_name lowered (trim ann_notes))
    × (resolve_profile_name lowered hashed (trim ann_name) (some (trim ann_notes)) none
        ≡ ok (profile ++ hashed []))
build_scope_migration_plan-IsSafePlan_example =
    build_scope_migration_plan-IsSafePlan lowered hashed (λ s ascii. refl) hashed-IsHash ann_name
      ann_notes build_hashed
