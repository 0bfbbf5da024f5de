-- ===== src/App/UnlockExamples.antt =====
-- Unlocking and locking the PC of the sample history.
use family_dashboard.Common.{
  ◌≡◌, refl, false, Option, some, Bool, codes, find_row, find_pair, count_rows, update_rows,
  any_row, text_eq, sql_length, byte_length, arith,
}
use family_dashboard.Time.{Time, time_text_lt, database_time, parse_database_time}
use family_dashboard.Security.{verify_pin}
use family_dashboard.Security.Examples.{plain, stored}
use family_dashboard.Database.State.{Database, Hash, ok}
use family_dashboard.Database.Setup.{Device, InitialSetup, complete_initial_setup}
use family_dashboard.Database.Admin.{validate_admin_session, create_admin_session}
use family_dashboard.Database.Examples.{seed, first_setup, at_minute}
use family_dashboard.App.{granted}
use family_dashboard.App.Access.{admin_session_cookie}
use family_dashboard.App.Access.Guards.{IsAdmitted}
use family_dashboard.App.Samples.{lib, config, request}
use family_dashboard.App.Unlock.{Drawn, unlock_admin, lock_admin}
use family_dashboard.App.Unlock.Sessions.{IsUnlock, unlock_admin-IsUnlock, lock_admin-locks}

-- The sample setup with a stored hash that parses.
abbrev set_up : Database
set_up = (complete_initial_setup (record first_setup { pin_hash = stored }) seed).1

abbrev drawn : Drawn
drawn = record { session_token = codes "o"; csrf_token = codes "p"; session_id = codes "s1" }

abbrev unlocked : Database
unlocked =
    (unlock_admin lib plain config request drawn (some (codes "1234")) (at_minute 20) (at_minute 21)
      set_up).1

unlock_ran :
    unlock_admin lib plain config request drawn
      (some (codes "1234"))
      (at_minute 20)
      (at_minute 21)
      set_up
    ≡ (granted tt, unlocked)
unfolding unlock_admin complete_initial_setup parse_database_time database_time text_eq any_row
    sql_length find_row find_pair count_rows update_rows time_text_lt byte_length
    family_dashboard.App.Access.valid_same_origin family_dashboard.App.Access.authenticated_device
    family_dashboard.Database.Setup.device_by_access_token
    family_dashboard.Database.Setup.authenticates family_dashboard.Database.Admin.pin_challenge
    verify_pin create_admin_session
unlock_ran = refl

unlock_admin-IsUnlock_example :
    IsUnlock lib plain config request drawn
      (some (codes "1234"))
      (at_minute 20)
      (at_minute 21)
      set_up
      unlocked
unlock_admin-IsUnlock_example =
    unlock_admin-IsUnlock lib plain config request drawn (some (codes "1234")) (at_minute 20)
      (at_minute 21) set_up unlocked unlock_ran (omega arith)

abbrev closed : Database
closed = (lock_admin lib config request (at_minute 22) (at_minute 23) (at_minute 24) unlocked).1

lock_ran :
    lock_admin lib config request (at_minute 22) (at_minute 23) (at_minute 24) unlocked
    ≡ (granted tt, closed)
unfolding lock_admin unlock_admin complete_initial_setup parse_database_time database_time text_eq
    any_row sql_length find_row find_pair count_rows update_rows time_text_lt byte_length
    family_dashboard.App.Access.authenticated_device
    family_dashboard.Database.Setup.device_by_access_token
    family_dashboard.App.Access.valid_same_origin family_dashboard.Database.Setup.authenticates
    family_dashboard.Database.Admin.pin_challenge verify_pin create_admin_session
    validate_admin_session family_dashboard.Database.Admin.revoke_admin_session
lock_ran = refl

cookie_read : admin_session_cookie lib request ≡ some 61
unfolding admin_session_cookie text_eq
cookie_read = refl

lock_admin-locks_example :
    (device : Device) × IsAdmitted lib config request (at_minute 22) unlocked device
    × ((csrf : Option Hash) (then_at : Time) (refresh : Bool)
        → validate_admin_session device.id 61 csrf then_at refresh closed ≡ (ok false, closed))
lock_admin-locks_example =
    lock_admin-locks lib config request (at_minute 22) (at_minute 23) (at_minute 24) 61 unlocked
      closed cookie_read lock_ran
