-- ===== src/Routing/Schema.antt =====
-- The zod schemas that the routing modules share (the first lines of saas/src/routing/consent.ts,
-- ledger.ts, general-ledger.ts and budget-ledger.ts). A text is read as its code points; the ranges
-- of numbers are tests on natural numbers, since every schema wants an integer of at least 0.
use Prim.Native.Char.{code}
use memory_server_worker.Prelude.{
  ℕ, ◌-◌, ◌^◌, String, Bool, true, false, ◌&&◌, ◌||◌, List, [], ◌∷◌, leb, ◌==◌, nat_eq, length,
  all_rows, any_row, ◌≡◌, refl,
}

abbrev pub codes : String → List ℕ
codes String.[] = []
codes (String.◌∷◌ c s) = code c ∷ codes s

unfoldable pub is_digit : ℕ → Bool
is_digit c = leb b'0' c && leb c b'9'

is_alphanumeric : ℕ → Bool
unfolding is_digit
is_alphanumeric c = leb b'A' c && leb c b'Z' || (leb b'a' c && leb c b'z' || is_digit c)

-- [A-Za-z0-9._:-]
is_identifier_part : ℕ → Bool
unfolding is_alphanumeric
is_identifier_part c = is_alphanumeric c || any_row (λ d. c == d) (b'.' ∷ b'_' ∷ b':' ∷ b'-' ∷ [])

identifier_codes : List ℕ → Bool
unfolding is_identifier_part
identifier_codes [] = false
identifier_codes (c ∷ rest) =
    is_alphanumeric c && (leb (length rest) 127 && all_rows is_identifier_part rest)

-- /^[A-Za-z0-9][A-Za-z0-9._:-]{0,127}$/
unfoldable pub is_identifier : String → Bool
unfolding identifier_codes
is_identifier s = identifier_codes (codes s)

is_hex : ℕ → Bool
unfolding is_digit
is_hex c = is_digit c || leb b'a' c && leb c b'f'

-- /^[0-9a-f]{64}$/
unfoldable pub is_payload_hash : String → Bool
unfolding is_hex
is_payload_hash s = length (codes s) == 64 && all_rows is_hex (codes s)

-- [A-Za-z0-9_-]
is_receipt_part : ℕ → Bool
unfolding is_alphanumeric
is_receipt_part c = is_alphanumeric c || (c == b'_' || c == b'-')

-- /^[A-Za-z0-9_-]{43}$/
unfoldable pub is_receipt : String → Bool
unfolding is_receipt_part
is_receipt s = length (codes s) == 43 && all_rows is_receipt_part (codes s)

abbrev pub max_safe_integer : ℕ
max_safe_integer = 2 ^ 53 - 1

-- The greatest time value of a `Date`.
abbrev pub max_timestamp : ℕ
max_timestamp = 8_640_000_000_000_000

identifier_tests :
    (is_identifier "space:a-1" ≡ true)
    × (is_identifier "" ≡ false)
    × (is_identifier "-a" ≡ false)
    × (is_identifier "a b" ≡ false)
unfolding is_identifier
identifier_tests = (refl, refl, refl, refl)
