-- ===== src/Time/Examples.antt =====
-- The theorems on stored times at concrete instants.
use family_dashboard.Common.{◌+◌, ◌≡◌, refl, true, false, arith}
use family_dashboard.Time.{Time, minute, zero_time, database_time, time_text_lt}
use family_dashboard.Time.Order.{whole_second_reversed}

-- Half a second after the second minute of year 1.
abbrev half_past : Time
half_past = zero_time + minute + 500000000

earlier_text : time_text_lt (database_time half_past) (database_time (zero_time + minute)) ≡ true
unfolding time_text_lt database_time
earlier_text = refl

whole_second_reversed_example :
    (time_text_lt (database_time (zero_time + minute)) (database_time half_past) ≡ false)
    × (time_text_lt (database_time half_past) (database_time (zero_time + minute)) ≡ true)
whole_second_reversed_example =
    whole_second_reversed (zero_time + minute) half_past (omega arith) (omega arith) (omega arith)
