-- ===== src/App/Examples.antt =====
-- The theorems on the guards and the schedule handlers at requests of the PC of the sample history.
use family_dashboard.Common.{
  ℕ, ◌+◌, ◌-◌, ◌*◌, ◌≤◌, ◌<◌, ◌≡◌, ◌≢◌, ◌⊎◌, ◌↔◌, refl, Bool, true, false, not, Option, none, some,
  List, [], ◌∷◌, arith, Text, codes, select_rows, text_eq, find_row, find_pair, any_row, count_rows,
  update_rows, sql_length, sort_rows, trim_space, if◌then◌else◌,
}
use family_dashboard.Time.{hour, zero_time, database_time, parse_database_time, time_text_lt}
use family_dashboard.Schedule.{Item, View, family, parents_only, tv, parent}
use family_dashboard.Database.State.{Database, ok, trusted_pc}
use family_dashboard.Database.Setup.{Device}
use family_dashboard.Database.Schedules
use family_dashboard.Database.Items
use family_dashboard.Database.Admin.{create_admin_session}
use family_dashboard.Database.Examples.{set_up, at_minute}
use family_dashboard.App.{granted}
use family_dashboard.App.Samples.{instant, lib, config, request}
use family_dashboard.App.Access.{
  require_admin, require_content_admin, authenticated_device, is_trusted_pc,
}
use family_dashboard.App.Access.Guards.{IsAdmitted, HoldsSession, asked, require_admin-granted}
use family_dashboard.App.Handlers.{
  ScheduleRequest, written, parse_schedule_range, max_schedule_range, create_schedule,
  update_schedule, view_of,
}
use family_dashboard.App.Handlers.Ranges.{parse_schedule_range-granted_iff}
use family_dashboard.App.Handlers.Writes.{
  IsAccepted, create_schedule-written, update_schedule-written,
}

abbrev unlocked : Database
unlocked =
    (create_admin_session (codes "pc") (codes "s1") 61 62 (at_minute 30) (at_minute 50)
      (at_minute 20) set_up).1

abbrev pc : Device
pc = record {
  id = codes "pc";
  name = codes "Study PC";
  device_type = trusted_pc;
  owner = none;
  local_only = false;
}

abbrev guarded : Database
guarded = (require_admin lib config request true (at_minute 21) (at_minute 22) unlocked).1

guard_ran :
    require_admin lib config request true (at_minute 21) (at_minute 22) unlocked
    ≡ (granted pc, guarded)
unfolding require_admin create_admin_session parse_database_time database_time text_eq any_row
    sql_length find_row find_pair count_rows update_rows select_rows sort_rows time_text_lt
    authenticated_device family_dashboard.Database.Setup.device_by_access_token
    family_dashboard.Database.Setup.complete_initial_setup
    family_dashboard.Database.Setup.authenticates
    family_dashboard.Database.Admin.validate_admin_session
guard_ran = refl

require_admin-granted_example :
    IsAdmitted lib config request (at_minute 21) unlocked pc
    × (is_trusted_pc trusted_pc ≡ true)
    × HoldsSession lib config request
        (asked lib request true)
        (at_minute 22)
        (authenticated_device lib config request (at_minute 21) unlocked).1
        pc
require_admin-granted_example =
    require_admin-granted lib config request true (at_minute 21) (at_minute 22) unlocked guarded pc
      guard_ran

parse_schedule_range-granted_iff_example :
    (parse_schedule_range lib (codes "A") (codes "B")
      ≡ granted (zero_time + 65 * hour, zero_time + 66 * hour))
    ↔ ((instant (codes "A") ≡ some (zero_time + 65 * hour))
        × (instant (codes "B") ≡ some (zero_time + 66 * hour))
        × (zero_time + 65 * hour < zero_time + 66 * hour)
        × (zero_time + 66 * hour ≤ zero_time + 65 * hour + max_schedule_range))
parse_schedule_range-granted_iff_example =
    parse_schedule_range-granted_iff lib (codes "A") (codes "B") (zero_time + 65 * hour)
      (zero_time + 66 * hour)

abbrev dinner_request : ScheduleRequest
dinner_request = record {
  title = codes "Dinner";
  location_name = codes "Home";
  notes = [];
  visibility = family;
  starts_at = codes "A";
  ends_at = codes "B";
  participants = codes "dad" ∷ [];
  version = 1;
  confirm_overlap = false;
}

abbrev pub dinner_view : View
dinner_view = record {
  id = codes "d1";
  title = codes "Dinner";
  location_name = codes "Home";
  notes = [];
  visibility = family;
  starts_at = some (zero_time + 65 * hour);
  ends_at = some (zero_time + 66 * hour);
  participants = codes "dad" ∷ [];
  version = 1;
  summary = false;
  overlap = false;
}

abbrev planned : Database
planned =
    (create_schedule lib config request (some dinner_request) (codes "d1") (at_minute 21)
      (at_minute 22) (at_minute 23) unlocked).1

dinner_created :
    create_schedule lib config request
      (some dinner_request)
      (codes "d1")
      (at_minute 21)
      (at_minute 22)
      (at_minute 23)
      unlocked
    ≡ (granted (written dinner_view), planned)
unfolding create_schedule create_admin_session parse_database_time database_time text_eq any_row
    sql_length find_row find_pair count_rows update_rows select_rows sort_rows time_text_lt
    require_content_admin authenticated_device
    family_dashboard.Database.Setup.device_by_access_token
    family_dashboard.Database.Setup.complete_initial_setup
    family_dashboard.Database.Setup.authenticates
    family_dashboard.Database.Admin.validate_admin_session trim_space
    family_dashboard.Schedule.unique_strings Items.overlapping_schedules Schedules.create_schedule
    Items.nullable
dinner_created = refl

create_schedule-written_example :
    (device : Device) × (left : Database) × (item result : Item) × (require_content_admin lib config
        request
        (at_minute 21)
        (at_minute 22)
        unlocked
      ≡ (granted device, left))
    × IsAccepted lib (some dinner_request) (codes "d1") left item
    × (Schedules.create_schedule item device.id (at_minute 23) left ≡ (ok result, planned))
    × (dinner_view ≡ view_of result)
create_schedule-written_example =
    create_schedule-written lib config request (some dinner_request) (codes "d1") (at_minute 21)
      (at_minute 22) (at_minute 23) unlocked planned dinner_view dinner_created

abbrev later_request : ScheduleRequest
later_request = record dinner_request { ends_at = codes "C" }

abbrev later_view : View
later_view = record dinner_view { ends_at = some (zero_time + 67 * hour); version = 2 }

abbrev moved : Database
moved =
    (update_schedule lib config request (some later_request) (codes "d1") (at_minute 24)
      (at_minute 25) (at_minute 26) planned).1

dinner_moved :
    update_schedule lib config request
      (some later_request)
      (codes "d1")
      (at_minute 24)
      (at_minute 25)
      (at_minute 26)
      planned
    ≡ (granted (written later_view), moved)
unfolding update_schedule create_schedule create_admin_session parse_database_time database_time
    text_eq any_row sql_length find_row find_pair count_rows update_rows select_rows sort_rows
    time_text_lt require_content_admin authenticated_device
    family_dashboard.Database.Setup.device_by_access_token
    family_dashboard.Database.Setup.complete_initial_setup
    family_dashboard.Database.Setup.authenticates
    family_dashboard.Database.Admin.validate_admin_session trim_space
    family_dashboard.Schedule.unique_strings Items.overlapping_schedules Schedules.create_schedule
    Items.nullable Schedules.update_schedule family_dashboard.Common.delete_rows
dinner_moved = refl

update_schedule-written_example :
    (device : Device) × (left : Database) × (item result : Item) × (require_content_admin lib config
        request
        (at_minute 24)
        (at_minute 25)
        planned
      ≡ (granted device, left))
    × IsAccepted lib (some later_request) (codes "d1") left item
    × (1 ≤ item.version)
    × (Schedules.update_schedule item device.id (at_minute 26) left ≡ (ok result, moved))
    × (later_view ≡ view_of result)
update_schedule-written_example =
    update_schedule-written lib config request (some later_request) (codes "d1") (at_minute 24)
      (at_minute 25) (at_minute 26) planned moved later_view dinner_moved
