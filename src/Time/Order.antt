-- ===== src/Time/Order.antt =====
-- How the order of stored times, which the SQL conditions use, relates to the order of instants.
use family_dashboard.Common.{
  ℕ, ◌+◌, ◌*◌, ◌/◌, ◌%◌, ◌<◌, ◌≡◌, ◌≢◌, sym, refl, inl, inr, true, false, [], ◌∷◌, ◌++◌, arith, ltb,
  ◌==◌, Text, text_lt, text_lt_irrefl, text_lt_asymm, text_lt_trans, text_lt_total, Bool-cases,
}
use family_dashboard.Time.{
  Time, TimeText, second, long_seconds, year_10000, place, fraction_text, database_time,
  time_text_lt,
}

place-short : (s : ℕ) → s < long_seconds → place s ≡ 2 * s ∷ []
unfolding place
place-short s h = ground arith

text_lt-append : (head s t : Text) → text_lt (head ++ s) (head ++ t) ≡ text_lt s t
unfolding text_lt
text_lt-append [] s t = refl
text_lt-append (c ∷ head) s t = ground (arith, text_lt-append head s t)

-- Within a second the rest of the texts decides.
pub time_text_lt-same_second :
    (a b : TimeText) → a.seconds ≡ b.seconds → time_text_lt a b ≡ text_lt a.fraction b.fraction
unfolding time_text_lt
time_text_lt-same_second a b e = rw e (text_lt-append (place b.seconds) a.fraction b.fraction)

-- Before year 10000 the texts of different seconds are in the order of these.
pub time_text_lt-apart :
    (a b : TimeText)
    → a.seconds < long_seconds
    → b.seconds < long_seconds
    → a.seconds ≢ b.seconds
    → time_text_lt a b ≡ ltb a.seconds b.seconds
unfolding time_text_lt text_lt
time_text_lt-apart a b h k n = rw (place-short a.seconds h, place-short b.seconds k) (ground arith)

-- A time before year 10000 that compares as earlier than another is less than a second later.
pub time_text_lt_bound :
    (a b : Time)
    → a < year_10000
    → b < year_10000
    → time_text_lt (database_time a) (database_time b) ≡ true
    → a < b + second
unfolding database_time
time_text_lt_bound a b h k e = elim (Bool-cases (a / second == b / second)) [
  | inl s ↦ ground arith
  | inr s ↦
      let apart =
        time_text_lt-apart (database_time a) (database_time b) (omega arith) (omega arith)
          (λ q. absurd (ground arith)) in
      ground arith
]

-- A whole second compares as after every later instant within that second.
pub whole_second_reversed :
    (a b : Time)
    → a % second ≡ 0
    → a < b
    → b < a + second
    → (time_text_lt (database_time a) (database_time b) ≡ false)
      × (time_text_lt (database_time b) (database_time a) ≡ true)
unfolding database_time fraction_text text_lt
whole_second_reversed a b w h k =
    let same : a / second ≡ b / second = omega arith in
    let forth = time_text_lt-same_second (database_time a) (database_time b) same in
    let back = time_text_lt-same_second (database_time b) (database_time a) (sym same) in
    ground (arith, forth, back)

pub time_text_lt_irrefl : (a : TimeText) → time_text_lt a a ≡ false
unfolding time_text_lt
time_text_lt_irrefl a = text_lt_irrefl (place a.seconds ++ a.fraction)

pub time_text_lt_asymm : (a b : TimeText) → time_text_lt a b ≡ true → time_text_lt b a ≡ false
unfolding time_text_lt
time_text_lt_asymm a b h =
    text_lt_asymm (place a.seconds ++ a.fraction) (place b.seconds ++ b.fraction) h

pub time_text_lt_trans :
    (a b c : TimeText) → time_text_lt a b ≡ true → time_text_lt b c ≡ true → time_text_lt a c ≡ true
unfolding time_text_lt
time_text_lt_trans a b c h k =
    text_lt_trans (place a.seconds ++ a.fraction) (place b.seconds ++ b.fraction)
      (place c.seconds ++ c.fraction) h k

text_lt-of_not_lt : (s t u : Text) → text_lt t s ≡ false → text_lt t u ≡ true → text_lt s u ≡ true
text_lt-of_not_lt s t u h k = elim (Bool-cases (text_lt s t)) [
  | inl l ↦ text_lt_trans s t u l k
  | inr l ↦ rw (text_lt_total s t l h) k
]

-- What is later than an instant is later than all that is not after it.
pub time_text_lt-of_not_lt :
    (a b c : TimeText)
    → time_text_lt b a ≡ false
    → time_text_lt b c ≡ true
    → time_text_lt a c ≡ true
unfolding time_text_lt
time_text_lt-of_not_lt a b c h k =
    text_lt-of_not_lt (place a.seconds ++ a.fraction) (place b.seconds ++ b.fraction)
      (place c.seconds ++ c.fraction) h k
