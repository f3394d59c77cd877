-- ===== src/MemoryWorker/Security.antt =====
-- The names of profiles and the comparison of states (packages/memory-worker/src/security.ts).
-- `lower` stands for `toLowerCase`, and `digest` for the SHA-256, in hexadecimal, of the JSON text of
-- an array of texts and nulls.
pub mod Names
pub mod States
pub mod Profiles
pub mod Uuids
use Prim.Native.Nat.{bit_or, bit_xor}
use memory_server_worker.Prelude.{
  ℕ, ◌-◌, String, Bool, true, false, ◌&&◌, ◌||◌, not, Option, none, some, List, [], ◌∷◌, ◌++◌, leb,
  ◌==◌, ◌!=◌, nat_eq, take, length, if◌then◌else◌, Result, ok, err, reject_if, ◌>>=◌, ◌>>◌,
  all_rows, ◌≡◌, refl,
}
use memory_server_worker.Routing.Schema.{codes}
use memory_server_worker.Texts.{Text, text_eq, trim, is_empty}

-- [a-z0-9-]
abbrev pub is_name_part : ℕ → Bool
is_name_part c = leb b'a' c && leb c b'z' || (leb b'0' c && leb c b'9' || c == b'-')

-- .replace(/[^a-z0-9-]/g, "-")
abbrev pub hyphened : Text → Text
hyphened [] = []
hyphened (c ∷ s) = (if is_name_part c then c else b'-') ∷ hyphened s

-- .replace(/-+/g, "-")
abbrev pub collapsed : Text → Text
collapsed [] = []
collapsed (c ∷ s) = elim (collapsed s) [
  | [] ↦ c ∷ []
  | d ∷ t ↦ if c == b'-' && d == b'-' then d ∷ t else c ∷ d ∷ t
]

-- The `-$` of .replace(/^-|-$/g, "").
abbrev pub drop_last_hyphen : Text → Text
drop_last_hyphen [] = []
drop_last_hyphen (c ∷ []) = if c == b'-' then [] else c ∷ []
drop_last_hyphen (c ∷ d ∷ s) = c ∷ drop_last_hyphen (d ∷ s)

-- .replace(/^-|-$/g, "")
abbrev pub without_end_hyphens : Text → Text
without_end_hyphens [] = []
without_end_hyphens (c ∷ s) = if c == b'-' then drop_last_hyphen s else drop_last_hyphen (c ∷ s)

abbrev pub default_name : Text
default_name = codes "default"

abbrev pub or_default : Text → Text
or_default [] = default_name
or_default (c ∷ s) = c ∷ s

unfoldable pub legacy_profile_name : (lower : Text → Text) → Text → Text
legacy_profile_name lower user_id =
    or_default (take 100 (without_end_hyphens (collapsed (hyphened (lower user_id)))))

-- [0-9a-f] with the flag `i`
abbrev pub is_hex_digit : ℕ → Bool
is_hex_digit c = leb b'0' c && leb c b'9' || (leb b'a' c && leb c b'f' || leb b'A' c && leb c b'F')

-- Whether the text has the groups of hexadecimal digits of these lengths, with hyphens between.
abbrev pub has_groups : ℕ → List ℕ → Text → Bool
has_groups n groups [] = n == 0 && length groups == 0
has_groups n [] (c ∷ s) = n != 0 && is_hex_digit c && has_groups (n - 1) [] s
has_groups n (g ∷ gs) (c ∷ s) =
    if n == 0
    then c == b'-' && has_groups g gs s
    else is_hex_digit c && has_groups (n - 1) (g ∷ gs) s

-- /^[0-9a-f]{8}(?:-[0-9a-f]{4}){3}-[0-9a-f]{12}$/i
unfoldable pub is_uuid : Text → Bool
is_uuid s = has_groups 8 (4 ∷ 4 ∷ 4 ∷ 12 ∷ []) s

abbrev pub is_valued : Option Text → Bool
is_valued none = false
is_valued (some s) = not (is_empty s)

-- `text || null`
abbrev pub or_null : Option Text → Option Text
or_null o = if is_valued o then o else none

-- `scope?.trim()`
abbrev pub trimmed : Option Text → Option Text
trimmed none = none
trimmed (some s) = some (trim s)

pub data Error : Type 0 where
  user_id_required : Error

abbrev pub profile_tuple : Text → (scope application : Option Text) → List (Option Text)
profile_tuple user scope application =
    if is_valued application
    then some (codes "memory-profile-v2") ∷ some user ∷ or_null scope ∷ application ∷ []
    else some (codes "memory-profile-v1") ∷ some user ∷ or_null scope ∷ []

-- Whether the subject keeps the name that it had before profiles were bound to subjects.
abbrev pub keeps_legacy_name : Text → (scope application : Option Text) → Bool
keeps_legacy_name user scope application =
    not (is_valued scope) && not (is_valued application) && is_uuid user

abbrev pub profile_name :
    (lower : Text → Text) (digest : List (Option Text) → Text) (user : Text)
    (scope application : Option Text)
    → Text
profile_name lower digest user scope application =
    if keeps_legacy_name user scope application
    then legacy_profile_name lower user
    else codes "user-" ++ digest (profile_tuple user scope application)

unfoldable pub resolve_profile_name :
    (lower : Text → Text) (digest : List (Option Text) → Text) (user_id : Text)
    (logical_scope application : Option Text)
    → Result Error Text
resolve_profile_name lower digest user_id logical_scope application = do
  reject_if (is_empty (trim user_id)) user_id_required
  ok (profile_name lower digest (trim user_id) (trimmed logical_scope) (trimmed application))

-- The loop of `isValidSsoState`. A code unit past the end of the second text is NaN, which `^` reads
-- as 0.
abbrev pub differences : ℕ → (a b : Text) → ℕ
differences difference [] b = difference
differences difference (c ∷ a) [] = differences (bit_or difference (bit_xor c 0)) a []
differences difference (c ∷ a) (d ∷ b) = differences (bit_or difference (bit_xor c d)) a b

abbrev pub same_state : Text → Text → Bool
same_state a b =
    if is_empty a || (is_empty b || length a != length b) then false else differences 0 a b == 0

unfoldable pub is_valid_sso_state : (cookie_state query_state : Option Text) → Bool
is_valid_sso_state none query_state = false
is_valid_sso_state (some a) none = false
is_valid_sso_state (some a) (some b) = same_state a b
