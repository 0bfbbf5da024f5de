-- ===== src/Database/Examples/Schedules.antt =====
-- The schedules of the sample history: a dinner is planned, listed and moved.
use family_dashboard.Common.{
  AllRows, ℕ, ◌+◌, ◌*◌, ◌≡◌, ◌≢◌, ◌&&◌, refl, Bool, true, Option, none, some, [], ◌∷◌, arith, ltb,
  Text, codes, text_eq, any_row, sql_length, find_row, update_rows, select_rows, sort_rows, ◌≤◌,
  ◌⊎◌, inl, inr, subst, sym, count_rows, ◌==◌, if◌then◌else◌, List, Among, ◌↔◌, false, ◌<◌,
}
use family_dashboard.Time.{parse_database_time, database_time, time_text_lt}
use family_dashboard.Schedule.{Item, family, overlap}
use family_dashboard.Database.State.{
  Database, ScheduleRow, ParticipantRow, ok, err, schedule_conflict, is_null, invalid_participant,
}
use family_dashboard.Database.Schedules.{participants_valid, create_schedule, update_schedule}
use family_dashboard.Database.Items.{
  overlapping_schedules, is_between, schedule_by_id, unique, schedules_between, item_of,
}
use family_dashboard.Database.Setup.{complete_initial_setup}
use family_dashboard.Database.Schedules.Versions.{update_schedule-conflict}
use family_dashboard.Database.Schedules.Queries.{is_between-start_missed}
use family_dashboard.Database.Examples.{set_up, at_minute}
use family_dashboard.Database.Schedules.Saved.{saved_item, create_schedule-saved, IsReadable}
use family_dashboard.Database.Schedules.Members.{IsNamed}
use family_dashboard.Database.Schedules.Overlapping.{IsWhole, overlapping_schedules-overlap}
use family_dashboard.Database.Schedules.Between.{TakesPart, schedules_between-exact}

abbrev dinner : Item
dinner = record {
  id = codes "s1";
  title = codes "Dinner";
  location_name = codes "Home";
  notes = [];
  visibility = family;
  starts_at = at_minute 600;
  ends_at = at_minute 660;
  participants = codes "dad" ∷ [];
  version = 1;
  created_at = at_minute 6;
  updated_at = at_minute 6;
}

abbrev planned : Database
planned = (create_schedule dinner (codes "pc") (at_minute 6) set_up).1

planned_ok : create_schedule dinner (codes "pc") (at_minute 6) set_up ≡ (ok dinner, planned)
unfolding create_schedule update_schedule parse_database_time database_time text_eq any_row
    sql_length find_row count_rows update_rows select_rows sort_rows time_text_lt
    complete_initial_setup family_dashboard.Common.trim_space
    family_dashboard.Database.Items.nullable family_dashboard.Common.delete_rows
planned_ok = refl

nobody_invited :
    any_row
      (λ (p : ParticipantRow). text_eq p.schedule_id (codes "s1"))
      set_up.schedule_participants
    ≡ false
unfolding any_row complete_initial_setup parse_database_time database_time sql_length text_eq
nobody_invited = refl

readable : IsReadable dinner (at_minute 6)
readable = record { starts = omega arith; ends = omega arith; clock = omega arith }

create_schedule-saved_example :
    (dinner ≡ saved_item dinner (at_minute 6) planned)
    × (schedule_by_id (codes "s1") planned ≡ ok dinner)
    × ((m : Text)
        → Among m dinner.participants
        → m ≢ []
        → count_rows (λ v. text_eq v m) dinner.participants ≡ 1)
    × ((m : Text) → Among m dinner.participants → Among m dinner.participants × (m ≢ []))
create_schedule-saved_example =
    create_schedule-saved dinner dinner (codes "pc") (at_minute 6) set_up planned nobody_invited
      readable planned_ok

listed_dinner : schedules_between (at_minute 590) (at_minute 610) [] planned ≡ ok (dinner ∷ [])
unfolding schedules_between create_schedule update_schedule parse_database_time database_time
    text_eq any_row sql_length find_row count_rows update_rows select_rows sort_rows time_text_lt
    complete_initial_setup family_dashboard.Common.trim_space
    family_dashboard.Database.Items.nullable family_dashboard.Common.delete_rows
listed_dinner = refl

-- A visit that overlaps the dinner.
abbrev visit : Item
visit = record dinner {
  id = codes "s2";
  title = codes "Visit";
  starts_at = at_minute 630;
  ends_at = at_minute 690;
}

found_dinner : overlapping_schedules visit planned ≡ ok (dinner ∷ [])
unfolding overlapping_schedules create_schedule parse_database_time database_time text_eq any_row
    sql_length find_row count_rows update_rows select_rows sort_rows time_text_lt
    complete_initial_setup family_dashboard.Common.trim_space
    family_dashboard.Database.Items.nullable
found_dinner = refl

planned-IsWhole : AllRows IsWhole planned.schedules
unfolding create_schedule parse_database_time database_time text_eq any_row sql_length find_row
    count_rows update_rows select_rows sort_rows time_text_lt complete_initial_setup
    family_dashboard.Common.trim_space family_dashboard.Database.Items.nullable
planned-IsWhole = (
  record {
    starts = at_minute 600;
    ends = at_minute 660;
    starts_stored = refl;
    ends_stored = refl;
    starts_whole = omega arith;
    ends_whole = omega arith;
    starts_readable = omega arith;
    ends_readable = omega arith;
  },
  tt,
)

dad-IsNamed : AllRows IsNamed visit.participants
unfolding text_eq
dad-IsNamed = (refl, tt)

overlapping_schedules-overlap_example : Among dinner (dinner ∷ []) ↔ (
    (s : ScheduleRow) × Among s planned.schedules
    × (item_of planned s ≡ ok dinner)
    × (is_null s.deleted_at ≡ true)
    × (text_eq dinner.id visit.id ≡ false)
    × (overlap visit dinner ≡ true))
overlapping_schedules-overlap_example =
    overlapping_schedules-overlap visit planned (dinner ∷ []) dinner planned-IsWhole (omega arith)
      (omega arith) (omega arith) (omega arith) dad-IsNamed found_dinner

schedules_between-exact_example : Among dinner (dinner ∷ []) ↔ (
    (s : ScheduleRow) × Among s planned.schedules
    × (item_of planned s ≡ ok dinner)
    × (s.deleted_at ≡ none)
    × (at_minute 590 < dinner.ends_at)
    × (dinner.starts_at < at_minute 610)
    × TakesPart [] dinner)
schedules_between-exact_example =
    schedules_between-exact (at_minute 590) (at_minute 610) [] planned (dinner ∷ []) dinner
      planned-IsWhole (omega arith) (omega arith) (omega arith) (omega arith) listed_dinner

abbrev later_dinner : Item
later_dinner = record dinner { starts_at = at_minute 630 }

abbrev moved : Database
moved = (update_schedule later_dinner (codes "pc") (at_minute 7) planned).1

abbrev moved_item : Item
moved_item = record later_dinner { version = 2; updated_at = at_minute 7 }

moved_ok : update_schedule later_dinner (codes "pc") (at_minute 7) planned ≡ (ok moved_item, moved)
unfolding create_schedule update_schedule parse_database_time database_time text_eq any_row
    sql_length find_row count_rows update_rows select_rows sort_rows time_text_lt
    complete_initial_setup family_dashboard.Common.trim_space
    family_dashboard.Database.Items.nullable family_dashboard.Common.delete_rows
moved_ok = refl

update_schedule-conflict_example : update_schedule dinner (codes "pc") (at_minute 8) moved ≡ (
  err (
      if participants_valid dinner.participants moved
      then schedule_conflict
      else invalid_participant),
  moved,
)
update_schedule-conflict_example =
    update_schedule-conflict later_dinner dinner moved_item (codes "pc") (codes "pc") (at_minute 7)
      (at_minute 8) planned moved moved_ok refl refl

abbrev dinner_row : ScheduleRow
dinner_row = record {
  id = codes "s1";
  title = codes "Dinner";
  location_name = some (codes "Home");
  notes = none;
  visibility = family;
  starts_at = database_time (at_minute 600);
  ends_at = database_time (at_minute 660);
  created_by_device_id = codes "pc";
  updated_by_device_id = codes "pc";
  version = 1;
  created_at = database_time (at_minute 6);
  updated_at = database_time (at_minute 6);
  deleted_at = none;
}

is_between-start_missed_example :
    is_between (database_time (at_minute 600)) (database_time (at_minute 600 + 1)) dinner_row
    ≡ false
is_between-start_missed_example =
    is_between-start_missed (at_minute 600) dinner_row (omega arith) refl
