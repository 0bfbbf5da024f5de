-- ===== src/Database/Examples/Records.antt =====
-- Administration, enrollment, push subscriptions and schedules on the sample history.
use family_dashboard.Common.{
  ◌+◌, ◌*◌, ◌≡◌, ◌&&◌, refl, Bool, true, false, Option, none, some, arith, ltb, codes, text_eq,
  any_row, sql_length, find_row, update_rows, select_rows, sort_rows, subst, sym, count_rows, ◌==◌,
  if◌then◌else◌,
}
use family_dashboard.Time.{parse_database_time, Time, database_time, time_text_lt, minute}
use family_dashboard.Database.State.{
  Database, Hash, ok, err, pin_blocked, invalid_enrollment, shared_tablet, submitted,
}
use family_dashboard.Database.Admin.{
  pin_row, pin_challenge, record_pin_failure, create_admin_session, validate_admin_session,
  csrf_matches,
}
use family_dashboard.Database.Admin.Pin.{
  CountIs, Failures, no_failure, one_more, fifth_failure_blocks,
}
use family_dashboard.Database.Admin.Sessions.{is_open, create_admin_session-exact}
use family_dashboard.Database.Push.{PushSubscription, replace_push_subscription}
use family_dashboard.Database.Enrollment.{complete_enrollment}
use family_dashboard.Database.Requests.{create_enrollment, Enrollment, submit_enrollment}
use family_dashboard.Database.Enrollment.Claims.{complete_enrollment_once}
use family_dashboard.Database.Setup.{complete_initial_setup}
use family_dashboard.Database.Enrollment.Lifecycle.{submits, step, EvolvesTo, step-EvolvesTo}
use family_dashboard.Database.Examples.{
  set_up, at_minute, ticketed, accepted, tablet_setup, enrolled_too, enrolled_too_ok,
}

abbrev fail_at : Time → Database → Database
fail_at now db = (record_pin_failure (codes "pc") now db).1

abbrev failed1 : Database
failed1 = fail_at (at_minute 11) set_up

abbrev failed2 : Database
failed2 = fail_at (at_minute 12) failed1

abbrev failed3 : Database
failed3 = fail_at (at_minute 13) failed2

abbrev failed4 : Database
failed4 = fail_at (at_minute 14) failed3

abbrev failed5 : Database
failed5 = fail_at (at_minute 15) failed4

ran1 : record_pin_failure (codes "pc") (at_minute 11) set_up ≡ (ok false, failed1)
unfolding record_pin_failure parse_database_time database_time text_eq any_row sql_length find_row
    count_rows update_rows select_rows sort_rows time_text_lt complete_initial_setup
ran1 = refl

ran2 : record_pin_failure (codes "pc") (at_minute 12) failed1 ≡ (ok false, failed2)
unfolding record_pin_failure parse_database_time database_time text_eq any_row sql_length find_row
    count_rows update_rows select_rows sort_rows time_text_lt complete_initial_setup
ran2 = refl

ran3 : record_pin_failure (codes "pc") (at_minute 13) failed2 ≡ (ok false, failed3)
unfolding record_pin_failure parse_database_time database_time text_eq any_row sql_length find_row
    count_rows update_rows select_rows sort_rows time_text_lt complete_initial_setup
ran3 = refl

ran4 : record_pin_failure (codes "pc") (at_minute 14) failed3 ≡ (ok false, failed4)
unfolding record_pin_failure parse_database_time database_time text_eq any_row sql_length find_row
    count_rows update_rows select_rows sort_rows time_text_lt complete_initial_setup
ran4 = refl

ran5 : record_pin_failure (codes "pc") (at_minute 15) failed4 ≡ (ok true, failed5)
unfolding record_pin_failure parse_database_time database_time text_eq any_row sql_length find_row
    count_rows update_rows select_rows sort_rows time_text_lt complete_initial_setup
ran5 = refl

no_pin_row : pin_row (codes "pc") set_up ≡ none
unfolding pin_row parse_database_time database_time text_eq any_row sql_length find_row count_rows
    update_rows select_rows sort_rows time_text_lt complete_initial_setup
no_pin_row = refl

pin_stored : set_up.security_state.pin_hash ≡ some (codes "argon2id")
unfolding parse_database_time database_time text_eq any_row sql_length find_row count_rows
    update_rows select_rows sort_rows time_text_lt complete_initial_setup
pin_stored = refl

setup_done : set_up.security_state.setup_complete ≡ true
unfolding parse_database_time database_time text_eq any_row sql_length find_row count_rows
    update_rows select_rows sort_rows time_text_lt complete_initial_setup
setup_done = refl

pc-Failures : Failures (codes "pc") set_up 4 failed4
pc-Failures =
    one_more (at_minute 14) false
      (one_more (at_minute 13) false
        (one_more (at_minute 12) false (one_more (at_minute 11) false no_failure ran1) ran2) ran3)
      ran4

fifth_failure_blocks_example :
    (true ≡ (4 == 4))
    × ((later : Time)
        → pin_challenge (codes "pc") later failed5 ≡ (
            if 4 == 4 && ltb later (at_minute 15 + 5 * minute)
            then err pin_blocked
            else ok (codes "argon2id")))
fifth_failure_blocks_example =
    fifth_failure_blocks (codes "pc") (codes "argon2id") set_up failed4 failed5 4 (at_minute 15)
      true setup_done pin_stored (subst (CountIs 0) (sym no_pin_row) refl) pc-Failures (omega arith)
      ran5 (omega arith)

abbrev unlocked : Database
unlocked =
    (create_admin_session (codes "pc") (codes "s1") 61 62 (at_minute 30) (at_minute 50)
      (at_minute 20) set_up).1

unlocked_ok :
    create_admin_session
      (codes "pc")
      (codes "s1")
      61
      62
      (at_minute 30)
      (at_minute 50)
      (at_minute 20)
      set_up
    ≡ (ok tt, unlocked)
unfolding create_admin_session parse_database_time database_time text_eq any_row sql_length find_row
    count_rows update_rows select_rows sort_rows time_text_lt complete_initial_setup
unlocked_ok = refl

create_admin_session-exact_example :
    (count_rows (is_open (codes "pc")) unlocked.admin_sessions ≡ 1)
    × ((hash : Hash) (csrf : Option Hash) (later : Time) (again : Bool)
        → (validate_admin_session (codes "pc") hash csrf later again unlocked).0
          ≡ ok (
              61 == hash
              && time_text_lt (database_time later) (database_time (at_minute 30))
              && time_text_lt (database_time later) (database_time (at_minute 50))
              && csrf_matches csrf 62))
create_admin_session-exact_example =
    create_admin_session-exact (codes "pc") (codes "s1") 61 62 (at_minute 30) (at_minute 50)
      (at_minute 20) set_up unlocked unlocked_ok (omega arith)

accepted_session :
    (validate_admin_session (codes "pc") 61 (some 62) (at_minute 25) true unlocked).0 ≡ ok true
unfolding create_admin_session validate_admin_session parse_database_time database_time text_eq
    any_row sql_length find_row count_rows update_rows select_rows sort_rows time_text_lt
    complete_initial_setup
accepted_session = refl

same_instant : time_text_lt (database_time (at_minute 5)) (database_time (at_minute 5)) ≡ false
unfolding parse_database_time database_time text_eq any_row sql_length find_row count_rows
    update_rows select_rows sort_rows time_text_lt complete_initial_setup
same_instant = refl

complete_enrollment_once_example :
    complete_enrollment 32 34 tablet_setup none enrolled_too
    ≡ (err invalid_enrollment, enrolled_too)
complete_enrollment_once_example =
    complete_enrollment_once 32 33 34 tablet_setup tablet_setup none none accepted enrolled_too
      enrolled_too_ok (omega arith) same_instant

abbrev tablet_request : Enrollment
tablet_request = record {
  id = codes "e1";
  device_name = some (codes "Tablet");
  requested_type = shared_tablet;
  owner = none;
  status = submitted;
  expires_at = at_minute 60;
}

submission_ran :
    (submit_enrollment 31 32 (codes "Tablet") none none (at_minute 3) ticketed).0
    ≡ ok tablet_request
unfolding create_enrollment submit_enrollment parse_database_time database_time text_eq any_row
    sql_length find_row count_rows update_rows select_rows sort_rows time_text_lt
    complete_initial_setup
submission_ran = refl

step-EvolvesTo_example :
    EvolvesTo ticketed (step (submits 31 32 (codes "Tablet") none none (at_minute 3)) ticketed)
step-EvolvesTo_example =
    step-EvolvesTo (submits 31 32 (codes "Tablet") none none (at_minute 3)) ticketed

abbrev phone : PushSubscription
phone = record {
  id = codes "p1";
  device_id = codes "pc";
  endpoint = codes "https://push.example/1";
  endpoint_hash = 71;
  p256dh = codes "key";
  auth = codes "auth";
  now = at_minute 8;
}

abbrev subscribed : Database
subscribed = (replace_push_subscription phone set_up).1

subscribed_ok : replace_push_subscription phone set_up ≡ (ok tt, subscribed)
unfolding replace_push_subscription parse_database_time database_time text_eq any_row sql_length
    find_row count_rows update_rows select_rows sort_rows time_text_lt complete_initial_setup
subscribed_ok = refl
