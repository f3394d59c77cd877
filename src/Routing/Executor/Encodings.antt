-- ===== src/Routing/Executor/Encodings.antt =====
-- The lengths of JavaScript strings and the refinements of texts in the schemas of
-- saas/src/routing/client.ts. A string has no lone surrogates here, so `wellFormed` holds of each.
use memory_server_worker.Prelude.{
  ℕ, suc, ◌+◌, String, Bool, true, false, not, ◌&&◌, ◌||◌, Option, none, some, List, [], ◌∷◌, ltb,
  leb, ◌==◌, ◌!=◌, nat_eq, string_eq, all_rows, any_row, if◌then◌else◌, ◌≡◌, refl,
}
use memory_server_worker.Routing.Schema.{codes, is_digit}

abbrev char_bytes : ℕ → ℕ
char_bytes c = if ltb c 128 then 1 else if ltb c 2048 then 2 else if ltb c 65536 then 3 else 4

bytes_of : List ℕ → ℕ
bytes_of [] = 0
bytes_of (c ∷ s) = char_bytes c + bytes_of s

-- `utf8.encode(s).length`
unfoldable pub utf8_length : String → ℕ
unfolding bytes_of
utf8_length s = bytes_of (codes s)

units_of : List ℕ → ℕ
units_of [] = 0
units_of (c ∷ s) = (if ltb c 65536 then 1 else 2) + units_of s

-- The code units of a JavaScript string.
unfoldable pub utf16_length : String → ℕ
unfolding units_of
utf16_length s = units_of (codes s)

-- In a pattern, the letter d stands for a digit.
abbrev fits : (pattern c : ℕ) → Bool
unfolding is_digit
fits pattern c = if pattern == b'd' then is_digit c else pattern == c

behind : (pattern s : List ℕ) → Option (List ℕ)
behind [] s = some s
behind (p ∷ ps) [] = none
behind (p ∷ ps) (c ∷ s) = if fits p c then behind ps s else none

abbrev is_whole : Option (List ℕ) → Bool
is_whole (some []) = true
is_whole _ = false

-- (?:Z|[+-]\d{2}:\d{2})$
is_zone : List ℕ → Bool
unfolding behind
is_zone s =
    is_whole (behind (b'Z' ∷ []) s)
    || (is_whole (behind (b'+' ∷ codes "dd:dd") s) || is_whole (behind (b'-' ∷ codes "dd:dd") s))

-- At most this many digits more, then a zone.
digits_then_zone : (seen : ℕ) → List ℕ → Bool
unfolding is_digit is_zone
digits_then_zone seen [] = false
digits_then_zone seen (c ∷ s) =
    if is_digit c
    then ltb seen 9 && digits_then_zone (suc seen) s
    else ltb 0 seen && is_zone (c ∷ s)

-- (?:\.\d{1,9})?(?:Z|[+-]\d{2}:\d{2})$
is_fraction_and_zone : List ℕ → Bool
unfolding is_zone digits_then_zone
is_fraction_and_zone [] = false
is_fraction_and_zone (c ∷ s) = if c == b'.' then digits_then_zone 0 s else is_zone (c ∷ s)

is_rest_of_time : Option (List ℕ) → Bool
unfolding is_fraction_and_zone
is_rest_of_time none = false
is_rest_of_time (some s) = is_fraction_and_zone s

-- The refinement of `timestampSchema`.
unfoldable pub is_wire_time : String → Bool
unfolding behind is_rest_of_time
is_wire_time s =
    not (is_year_zero (codes s)) && is_rest_of_time (behind (codes "dddd-dd-ddTdd:dd:dd") (codes s))
  where
    is_year_zero : List ℕ → Bool
    is_year_zero (a ∷ b ∷ c ∷ d ∷ s) = all_rows (λ x. x == b'0') (a ∷ b ∷ c ∷ d ∷ [])
    is_year_zero _ = true

abbrev is_control : ℕ → Bool
is_control c = ltb c 32 || c == 127

-- sessionId
unfoldable pub is_session : String → Bool
is_session s =
    leb 1 (utf16_length s)
    && leb (utf16_length s) 64
    && not (any_row is_control (codes s))
    && s != "."
    && s != ".."

time_tests :
    (is_wire_time "2026-01-31T10:20:30Z" ≡ true)
    × (is_wire_time "2026-01-31T10:20:30.123+09:00" ≡ true)
    × (is_wire_time "2026-01-31T10:20Z" ≡ false)
    × (is_wire_time "0000-01-31T10:20:30Z" ≡ false)
    × (is_wire_time "2026-01-31T10:20:30.1234567890Z" ≡ false)
unfolding is_wire_time
time_tests = (refl, refl, refl, refl, refl)
