-- ===== src/Time/RoundTrip.antt =====
-- databaseTime and parseDatabaseTime (internal/database/database.go, schedule.go).
use native.Mathlib.Nat.{div-add-mod, mod-lt}
use family_dashboard.Common.{
  ℕ, zero, suc, ◌/◌, ◌%◌, ◌<◌, ◌≡◌, ap, some, [], ◌∷◌, ◌++◌, arith, ◌==◌, Bool-cases, inl, inr,
  none, if◌then◌else◌, ltb,
}
use family_dashboard.Time.{
  Time, second, year_10000, pow10, fraction_digits, fraction_text, database_time, parse_digits,
  parse_fraction, parse_database_time,
}

pow10-pos : (k : ℕ) → 0 < pow10 k
unfolding pow10
pow10-pos zero = omega arith
pow10-pos (suc k) = omega (arith, pow10-pos k)

leading_digit : (k n : ℕ) → n < pow10 (suc k) → n / pow10 k < 10
unfolding pow10
leading_digit k n h = grind (arith, pow10-pos k)

-- The digits that the layout writes for `n` are read back as `n`.
parse-fraction_digits :
    (k n : ℕ) → n < pow10 k → parse_digits k (fraction_digits k n ++ b'Z' ∷ []) ≡ some n
unfolding fraction_digits parse_digits
parse-fraction_digits zero n h = ground arith
parse-fraction_digits (suc k) n h = ground (
  arith,
  leading_digit k n h,
  parse-fraction_digits k (n % pow10 k),
  mod-lt n (pow10-pos k),
  div-add-mod n (pow10 k),
)

parse-fraction_text : (n : ℕ) → n < second → parse_fraction (fraction_text n) ≡ some n
unfolding fraction_text parse_fraction pow10
parse-fraction_text n h = elim (Bool-cases (n == 0)) [
  | inl e ↦ ground arith
  | inr e ↦ rw e (ground (arith, parse-fraction_digits 9 n h, leading_digit 8 n h))
]

pub parse-database_time :
    (t : Time) → parse_database_time (database_time t) ≡ (if ltb t year_10000 then some t else none)
unfolding database_time parse_database_time
parse-database_time t = ground (arith, parse-fraction_text (t % second), div-add-mod t second)

pub parse-database_time_early :
    (t : Time) → t < year_10000 → parse_database_time (database_time t) ≡ some t
parse-database_time_early t h = ground (arith, parse-database_time t)

-- So two instants before year 10000 that are stored as the same text are the same instant.
pub database_time-injective :
    (a b : Time) → a < year_10000 → b < year_10000 → database_time a ≡ database_time b → a ≡ b
database_time-injective a b h k e =
    ground (
      arith,
      parse-database_time_early a h,
      parse-database_time_early b k,
      ap parse_database_time e,
    )
