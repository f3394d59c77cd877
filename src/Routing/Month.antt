-- ===== src/Routing/Month.antt =====
-- `new Date(now).toISOString()`, as far as the ledgers read it: the year and the month, for
-- the periods by which they account. The civil date is computed from the days since 1970-01-01,
-- in cycles of 400 years that begin in March.
use Prim.Native.String.{◌++◌ as append}
use memory_server_worker.Prelude.{
  ℕ, zero, suc, ◌+◌, ◌-◌, ◌*◌, ◌/◌, ◌%◌, String, List, [], ◌∷◌, ltb, leb, if◌then◌else◌, ◌≡◌, refl,
}

record Civil : Type 0 where
  year : ℕ
  month : ℕ

-- Of a day of the cycle that began in March of the year `400 * era`.
civil_of : ℕ → ℕ → Civil
civil_of era day =
    let year = (day - day / 1460 + day / 36524 - day / 146096) / 365 in
    let day_of_year = day - (365 * year + year / 4 - year / 100) in
    let march_month = (5 * day_of_year + 2) / 153 in
    let month = if ltb march_month 10 then march_month + 3 else march_month - 9 in
    record { year = year + 400 * era + (if leb month 2 then 1 else 0); month = month }

civil : ℕ → Civil
unfolding civil_of
civil now = let days = now / 86_400_000 + 719_468 in civil_of (days / 146_097) (days % 146_097)

nth : ℕ → List String → String
nth n [] = ""
nth zero (d ∷ ds) = d
nth (suc n) (d ∷ ds) = nth n ds

unfoldable pub digit : ℕ → String
unfolding nth
digit n = nth (n % 10) ("0" ∷ "1" ∷ "2" ∷ "3" ∷ "4" ∷ "5" ∷ "6" ∷ "7" ∷ "8" ∷ "9" ∷ [])

-- The last `width` decimal digits.
padded : ℕ → ℕ → String
unfolding digit
padded zero n = ""
padded (suc width) n = append (padded width (n / 10)) (digit n)

-- Years after 9999 have a sign and six digits.
year_text : Civil → String
unfolding padded
year_text c = if ltb 9999 c.year then append "+" (padded 6 c.year) else padded 4 c.year

-- `.split('T', 1)[0].slice(0, -3)`
unfoldable pub month_at : ℕ → String
unfolding civil year_text
month_at now = let c = civil now in append (year_text c) (append "-" (padded 2 c.month))

-- `.slice(0, 7)`, which ends with the year where the year has a sign.
unfoldable pub iso_month : ℕ → String
unfolding month_at
iso_month now = let c = civil now in if ltb 9999 c.year then year_text c else month_at now

month_tests :
    (iso_month 0 ≡ "1970-01")
    × (iso_month 951_782_400_000 ≡ "2000-02")
    × (iso_month 951_868_799_999 ≡ "2000-02")
    × (iso_month 951_868_800_000 ≡ "2000-03")
    × (iso_month 253_402_300_739_999 ≡ "9999-12")
    × (month_at 253_402_300_800_000 ≡ "+010000-01")
    × (iso_month 253_402_300_800_000 ≡ "+010000")
unfolding iso_month
month_tests = (refl, refl, refl, refl, refl, refl, refl)
