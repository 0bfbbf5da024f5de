-- ===== src/Database/Schedules/Queries.antt =====
-- The range conditions of internal/database/schedule.go, which compare stored times as texts.
use family_dashboard.Common.{
  ◌+◌, ◌%◌, ◌≡◌, ◌&&◌, false, arith, ltb, ◌<◌, ◌/◌, ◌==◌, Bool-cases, inl, inr, text_lt_irrefl,
}
use family_dashboard.Time.{Time, second, fraction_text, database_time, time_text_lt, year_10000}
use family_dashboard.Time.Order.{
  whole_second_reversed, time_text_lt-same_second, time_text_lt-apart,
}
use family_dashboard.Database.State.{ScheduleRow, is_null}
use family_dashboard.Database.Items.{is_between}

whole_seconds :
    (a b : Time)
    → a % second ≡ 0
    → b % second ≡ 0
    → a < year_10000
    → b < year_10000
    → time_text_lt (database_time a) (database_time b) ≡ ltb a b
unfolding database_time fraction_text
whole_seconds a b h k i j = elim (Bool-cases (a / second == b / second)) [
  | inl s ↦
      let same = time_text_lt-same_second (database_time a) (database_time b) (ground arith) in
      ground (arith, same, text_lt_irrefl (fraction_text 0))
  | inr s ↦
      let apart =
        time_text_lt-apart (database_time a) (database_time b) (omega arith) (omega arith)
          (λ e. absurd (ground arith)) in
      ground (arith, apart)
]

-- Where the range and the row start and end at whole seconds, before year 10000, the condition of the query is
-- that the row is not deleted and that the two half-open ranges meet.
pub is_between-whole_seconds :
    (from to starts ends : Time) (s : ScheduleRow)
    → from % second ≡ 0
    → to % second ≡ 0
    → starts % second ≡ 0
    → ends % second ≡ 0
    → from < year_10000
    → to < year_10000
    → starts < year_10000
    → ends < year_10000
    → s.starts_at ≡ database_time starts
    → s.ends_at ≡ database_time ends
    → is_between (database_time from) (database_time to) s
      ≡ (is_null s.deleted_at && ltb from ends && ltb starts to)
unfolding is_between
is_between-whole_seconds from to starts ends s f t b e g u c d p q =
    ground (arith, whole_seconds from ends f e g d, whole_seconds starts to b t c u)

-- The range of a nanosecond that starts at a whole second does not take in a row that starts at
-- this very second.
pub is_between-start_missed :
    (at : Time) (s : ScheduleRow)
    → at % second ≡ 0
    → s.starts_at ≡ database_time at
    → is_between (database_time at) (database_time (at + 1)) s ≡ false
unfolding is_between
is_between-start_missed at s w h =
    ground (arith, whole_second_reversed at (at + 1) w (omega arith) (omega arith))
