-- ===== src/Database/Examples.antt =====
-- A small history of the database: the first start, the setup of a PC and the enrollment of a
-- tablet. The children apply the theorems to it.
pub mod Access
pub mod Records
pub mod Schedules
pub mod Histories
use family_dashboard.Common.{
  text_eq, any_row, sql_length, find_row, count_rows, update_rows, find_pair, ℕ, ◌+◌, ◌*◌, ◌≡◌,
  refl, true, false, none, some, [], ◌∷◌, codes,
}
use family_dashboard.Time.{parse_database_time, Time, database_time, minute, hour, zero_time}
use family_dashboard.Database.State.{Database, ok, parent, shared_tablet}
use family_dashboard.Database.Setup.{InitialSetup, complete_initial_setup}
use family_dashboard.Database.Enrollment.{approve_enrollment, complete_enrollment}
use family_dashboard.Database.Requests.{create_enrollment, submit_enrollment}

-- The first start: the migrated tables with their seeds, and a code that is valid for ten minutes.
abbrev pub seed : Database
seed = record {
  start_count = 1;
  security_state = record {
    setup_complete = false;
    pin_hash = none;
    initial_code_hash = some 11;
    initial_code_expires_at = some (database_time (zero_time + 10 * minute));
    initial_code_consumed_at = none;
    updated_at = some (database_time zero_time);
  };
  devices = [];
  device_credentials = [];
  enrollment_requests = [];
  admin_sessions = [];
  pin_attempts = [];
  recovery_codes = [];
  security_events = [];
  push_subscriptions = [];
  family_members =
      record {
        id = codes "dad";
        slug = codes "dad";
        display_name = codes "아빠";
        role = parent;
        active = true;
      }
      ∷ [];
  schedules = [];
  schedule_participants = [];
}

abbrev pub first_setup : InitialSetup
first_setup = record {
  code_hash = 11;
  pin_hash = codes "argon2id";
  device_id = codes "pc";
  device_name = codes "Study PC";
  access_id = codes "a1";
  access_hash = 21;
  access_expires_at = zero_time + hour;
  refresh_id = codes "r1";
  refresh_hash = 22;
  refresh_family_id = codes "f1";
  refresh_expires_at = zero_time + 720 * hour;
  recovery_id = codes "rec";
  recovery_hash = 23;
  now = zero_time + minute;
}

abbrev pub set_up : Database
set_up = (complete_initial_setup first_setup seed).1

pub set_up_ok : complete_initial_setup first_setup seed ≡ (ok tt, set_up)
unfolding complete_initial_setup parse_database_time database_time text_eq any_row sql_length
    find_row count_rows update_rows find_pair
set_up_ok = refl

-- The minutes after the first start.
abbrev pub at_minute : ℕ → Time
at_minute k = zero_time + k * minute

abbrev pub ticketed : Database
ticketed = (create_enrollment (codes "e1") 31 shared_tablet (at_minute 60) (at_minute 2) set_up).1

abbrev pub requested : Database
requested = (submit_enrollment 31 32 (codes "Tablet") none none (at_minute 3) ticketed).1

abbrev pub accepted : Database
accepted = (approve_enrollment (codes "e1") (codes "pc") (at_minute 4) requested).1

abbrev pub tablet_setup : InitialSetup
tablet_setup = record first_setup {
  device_id = codes "tablet";
  access_id = codes "a2";
  access_hash = 41;
  refresh_id = codes "r2";
  refresh_hash = 42;
  refresh_family_id = codes "f2";
  now = at_minute 5;
}

abbrev pub enrolled_too : Database
enrolled_too = (complete_enrollment 32 33 tablet_setup none accepted).1

pub enrolled_too_ok : complete_enrollment 32 33 tablet_setup none accepted ≡ (ok tt, enrolled_too)
unfolding create_enrollment submit_enrollment approve_enrollment complete_enrollment
    complete_initial_setup parse_database_time database_time text_eq any_row sql_length find_row
    count_rows update_rows find_pair
enrolled_too_ok = refl
