-- ===== src/App/StatusExamples.antt =====
-- The family's status while the sample dinner runs.
use family_dashboard.App.Handlers.{audience_for, for_device}
use family_dashboard.App.PushExamples.{tablet, device}
use family_dashboard.App.Samples.{lib, config}
use family_dashboard.App.Access.{authenticated_device, request_in_networks}
use family_dashboard.Database.Enrollment.{approve_enrollment, complete_enrollment}
use family_dashboard.Database.Requests.{create_enrollment, submit_enrollment}
use family_dashboard.Common.{
  ◌+◌, ◌*◌, ◌≡◌, refl, some, List, [], ◌∷◌, codes, map, text_eq, find_row, find_pair, any_row,
  count_rows, update_rows, select_rows, sort_rows, sql_length,
}
use family_dashboard.Time.{
  Time, hour, minute, zero_time, database_time, parse_database_time, time_text_lt,
}
use family_dashboard.Schedule.{Item, shared}
use family_dashboard.Database.State.{Database, parent}
use family_dashboard.Database.Setup.{complete_initial_setup, device_by_access_token, authenticates}
use family_dashboard.Database.Items.{FamilyMember, family_members, schedules_between}
use family_dashboard.Database.Schedules
use family_dashboard.Database.Items
use family_dashboard.Database.Examples.{at_minute, enrolled_too}
use family_dashboard.App.{granted}
use family_dashboard.App.Examples.{dinner_view}
use family_dashboard.App.Status.{MemberStatus, family_status, status_at}
use family_dashboard.App.Status.Members.{IsFamilyStatus, family_status-IsFamilyStatus}

abbrev dinner : Item
dinner = record {
  id = codes "d1";
  title = codes "Dinner";
  location_name = codes "Home";
  notes = [];
  visibility = dinner_view.visibility;
  starts_at = zero_time + 65 * hour;
  ends_at = zero_time + 66 * hour;
  participants = codes "dad" ∷ [];
  version = 1;
  created_at = zero_time;
  updated_at = zero_time;
}

abbrev planned : Database
planned = (Schedules.create_schedule dinner (codes "pc") (at_minute 6) enrolled_too).1

abbrev answers : List MemberStatus
answers =
    record {
      member = record {
        id = codes "dad";
        slug = codes "dad";
        display_name = codes "아빠";
        role = parent;
      };
      status = some dinner_view;
    }
    ∷ []

abbrev during : Time
during = zero_time + 65 * hour + 30 * minute

-- The request of the sample tablet.
abbrev known : Database
known = (authenticated_device lib config tablet (at_minute 9) planned).1

tablet_known :
    authenticated_device lib config tablet (at_minute 9) planned ≡ (granted device, known)
unfolding family_status authenticated_device request_in_networks device_by_access_token
    authenticates create_enrollment submit_enrollment approve_enrollment complete_enrollment
    Schedules.create_schedule complete_initial_setup parse_database_time database_time text_eq
    any_row sql_length find_row find_pair count_rows update_rows select_rows sort_rows time_text_lt
    schedules_between family_dashboard.Common.trim_space Items.nullable family_members
    family_dashboard.Schedule.sort_items family_dashboard.Schedule.is_candidate
tablet_known = refl

shared_status : status_at shared (some during) known ≡ granted answers
unfolding status_at authenticated_device request_in_networks device_by_access_token authenticates
    create_enrollment submit_enrollment approve_enrollment complete_enrollment
    Schedules.create_schedule complete_initial_setup parse_database_time database_time text_eq
    any_row sql_length find_row find_pair count_rows update_rows select_rows sort_rows time_text_lt
    schedules_between family_dashboard.Common.trim_space Items.nullable family_members
    family_dashboard.Schedule.sort_items family_dashboard.Schedule.is_candidate
shared_status = refl

status_shown :
    family_status lib config tablet [] (at_minute 9) during planned ≡ (granted answers, known)
unfolding family_status for_device audience_for text_eq
status_shown = rw (tablet_known, shared_status) refl

family_status-IsFamilyStatus_example :
    IsFamilyStatus lib config tablet [] (at_minute 9) during planned answers
family_status-IsFamilyStatus_example =
    family_status-IsFamilyStatus lib config tablet [] (at_minute 9) during planned known answers
      status_shown
