-- ===== src/Time.antt =====
-- Instants (Go's time.Time after UTC()) and the texts that internal/database/database.go stores
-- for them. An instant is the number of nanoseconds since 0000-01-01T00:00:00Z.
pub mod Order
pub mod RoundTrip
pub mod Examples
use family_dashboard.Common.{
  ℕ, zero, suc, ◌+◌, ◌-◌, ◌*◌, ◌/◌, ◌%◌, Bool, true, false, not, ◌&&◌, Option, none, some, List, [],
  ◌∷◌, ◌++◌, ltb, leb, ◌==◌, if◌then◌else◌, Text, text_lt,
}
use mathlib.Core.Option

abbrev pub Time : Type 0
Time = ℕ

abbrev pub second : ℕ
second = 1000000000

abbrev pub minute : ℕ
minute = 60 * second

abbrev pub hour : ℕ
hour = 60 * minute

-- `time.Time{}`, the start of year 1: year 0 has 366 days.
abbrev pub zero_time : Time
zero_time = 366 * 24 * hour

-- The first second of year 10000. Up to it RFC3339Nano writes a year with four digits; from then on
-- it takes as many as the year has, and `time.Parse` reads no such text.
abbrev pub long_seconds : ℕ
long_seconds = 315569520000

abbrev pub year_10000 : Time
year_10000 = long_seconds * second

-- A stored time, `2026-01-02T03:04:05` with what follows. What stands up to the seconds spells the
-- number of seconds; the rest is kept as it is written, `Z` or `.25Z`.
pub record TimeText : Type 0 where
  pub seconds : ℕ
  pub fraction : Text

-- The first second of a year, in the Gregorian calendar from year 0, which is a leap year.
unfoldable pub year_start : ℕ → ℕ
year_start y = (365 * y + (y + 3) / 4 - (y + 99) / 100 + (y + 399) / 400) * 86400

-- The year of a second: 400 years have 146097 days, and the guess is off by one at most.
unfoldable pub year_of : ℕ → ℕ
unfolding year_start
year_of s =
    let guess = s * 400 / (146097 * 86400) in
    if ltb s (year_start guess)
    then guess - 1
    else if ltb s (year_start (guess + 1))
    then guess
    else guess + 1

-- The number that the first four digits spell, and the digits behind them; the year of a
-- `time.Time` has twelve digits at most.
unfoldable pub four_digits : ℕ → ℕ → ℕ × Text
four_digits zero y = (y, [])
four_digits (suc k) y =
    let (first, rest) = four_digits k (y / 10) in
    if ltb y 10000 then (y, []) else (first, rest ++ (b'0' + y % 10) ∷ [])

-- The place of the text up to the seconds in the order of texts. Before year 10000 the width is
-- fixed and the order is that of the seconds. A longer text stands behind those with a year that
-- spells its first four digits or less, since a digit is more than `-`, and before all others;
-- among themselves the longer texts are compared by the further digits.
unfoldable pub place : ℕ → Text
unfolding year_start year_of four_digits
place s =
    if ltb s long_seconds
    then 2 * s ∷ []
    else let (first, rest) = four_digits 8 (year_of s) in
      (2 * year_start (first + 1) - 1) ∷ (rest ++ b'-' ∷ s ∷ [])

unfoldable pub pow10 : ℕ → ℕ
pow10 zero = 1
pow10 (suc k) = 10 * pow10 k

-- The digits of `n` below `pow10 k` behind the decimal point, up to the last that is not 0.
unfoldable pub fraction_digits : ℕ → ℕ → Text
unfolding pow10
fraction_digits zero n = []
fraction_digits (suc k) n =
    let rest = fraction_digits k (n % pow10 k) in if n == 0 then [] else (b'0' + n / pow10 k) ∷ rest

unfoldable pub fraction_text : ℕ → Text
unfolding fraction_digits
fraction_text n = if n == 0 then b'Z' ∷ [] else b'.' ∷ (fraction_digits 9 n ++ b'Z' ∷ [])

-- `databaseTime`: the layout RFC3339Nano drops trailing zeros of the fraction.
unfoldable pub database_time : Time → TimeText
unfolding fraction_text
database_time t = record { seconds = t / second; fraction = fraction_text (t % second) }

-- The comparison of two TEXT columns, as SQLite makes it: byte by byte.
unfoldable pub time_text_lt : TimeText → TimeText → Bool
unfolding text_lt place
time_text_lt a b = text_lt (place a.seconds ++ a.fraction) (place b.seconds ++ b.fraction)

-- `a <= b` on TEXT columns.
unfoldable pub time_text_le : TimeText → TimeText → Bool
unfolding time_text_lt
time_text_le a b = not (time_text_lt b a)

abbrev pub is_digit : ℕ → Bool
is_digit c = leb b'0' c && leb c b'9'

-- Nothing may follow the `Z`.
abbrev pub end_of_time : Text → Option ℕ
end_of_time [] = some 0
end_of_time (c ∷ s) = none

-- The digits up to the `Z`, each with its weight; past nine digits they are skipped.
unfoldable pub parse_digits : ℕ → Text → Option ℕ
unfolding pow10
parse_digits k [] = none
parse_digits zero (c ∷ s) =
    if c == b'Z' then end_of_time s else if is_digit c then parse_digits zero s else none
parse_digits (suc k) (c ∷ s) =
    let tail = parse_digits k s in
    if c == b'Z'
    then end_of_time s
    else if is_digit c
    then Option.map (λ r. (c - b'0') * pow10 k + r) tail
    else none

abbrev pub starts_with_digit : Text → Bool
starts_with_digit [] = false
starts_with_digit (c ∷ s) = is_digit c

unfoldable pub parse_fraction : Text → Option ℕ
unfolding parse_digits
parse_fraction [] = none
parse_fraction (c ∷ s) =
    if c == b'Z'
    then end_of_time s
    else if c == b'.' && starts_with_digit s
    then parse_digits 9 s
    else none

-- `parseDatabaseTime`: a year has four digits.
unfoldable pub parse_database_time : TimeText → Option Time
unfolding parse_fraction
parse_database_time t =
    if ltb t.seconds long_seconds
    then Option.map (λ n. t.seconds * second + n) (parse_fraction t.fraction)
    else none
