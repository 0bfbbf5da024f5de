-- ===== src/Database/Examples/Access.antt =====
-- Setup, credentials and revocation on the sample history.
use family_dashboard.Common.{
  text_eq, any_row, sql_length, find_row, count_rows, update_rows, ◌+◌, ◌*◌, ◌≡◌, ◌≢◌, refl, Bool,
  true, false, Option, none, some, codes, Among, find_pair,
}
use family_dashboard.Time.{
  parse_database_time, Time, database_time, minute, hour, zero_time, time_text_lt,
}
use family_dashboard.Database.State.{
  Database, Hash, CredentialRow, DeviceRow, trusted_pc, refresh, active, ok, err,
  invalid_initial_setup,
}
use family_dashboard.Database.Setup.{
  InitialSetup, Device, complete_initial_setup, ensure_initial_setup_code,
  validate_initial_setup_code, setup_required, device_by_access_token,
}
use family_dashboard.Database.Setup.Once.{complete_initial_setup_once}
use family_dashboard.Database.Admin.{validate_admin_session}
use family_dashboard.Database.Push.{push_subscription_active}
use family_dashboard.Database.Credentials.{CredentialRotation, rotate_refresh_credential, refreshes}
use family_dashboard.Database.Credentials.Rotation.{rotate_refresh_credential-access}
use family_dashboard.Database.Devices.{revoke_device}
use family_dashboard.Database.Devices.Revocation.{revoke_device-revokes}
use family_dashboard.Database.Enrollment.{approve_enrollment, complete_enrollment}
use family_dashboard.Database.Requests.{create_enrollment, submit_enrollment}
use family_dashboard.Database.Examples.{
  seed, first_setup, set_up, set_up_ok, at_minute, enrolled_too,
}

complete_initial_setup_once_example :
    (validate_initial_setup_code 11 (zero_time + minute) seed ≡ ok true)
    × (setup_required set_up ≡ false)
    × ((hash : Hash) (now : Time) → validate_initial_setup_code hash now set_up ≡ ok false)
    × ((next : InitialSetup)
        → complete_initial_setup next set_up ≡ (err invalid_initial_setup, set_up))
    × ((hash : Hash) (expires now : Time)
        → ensure_initial_setup_code hash expires now set_up ≡ (false, set_up))
complete_initial_setup_once_example = complete_initial_setup_once first_setup seed set_up set_up_ok

abbrev pc : Device
pc = record {
  id = codes "pc";
  name = codes "Study PC";
  device_type = trusted_pc;
  owner = none;
  local_only = false;
}

abbrev renewal : CredentialRotation
renewal = record {
  access_id = codes "a3";
  access_hash = 51;
  access_expires_at = at_minute 90;
  refresh_id = codes "r3";
  refresh_hash = 52;
  refresh_expires_at = zero_time + 721 * hour;
}

abbrev renewed : Database
renewed = (rotate_refresh_credential 22 renewal true (at_minute 30) set_up).1

renewed_ok : rotate_refresh_credential 22 renewal true (at_minute 30) set_up ≡ (ok tt, renewed)
unfolding rotate_refresh_credential complete_initial_setup parse_database_time database_time text_eq
    any_row sql_length find_row count_rows update_rows find_pair refreshes
renewed_ok = refl

rotate_refresh_credential-access_example :
    (c : CredentialRow) × Among c set_up.device_credentials
    × (c.token_hash ≡ 22)
    × ((later : Time)
        → time_text_lt (database_time later) (database_time renewal.access_expires_at) ≡ true
        → (device : Device) × ((device_by_access_token 51 later renewed).0 ≡ ok device)
          × (device.id ≡ c.device_id))
    × ((hash : Hash) (later : Time) (device : Device)
        → (device_by_access_token hash later renewed).0 ≡ ok device
        → device.id ≡ c.device_id
        → hash ≡ 51)
rotate_refresh_credential-access_example =
    rotate_refresh_credential-access 22 renewal true (at_minute 30) set_up renewed renewed_ok

abbrev spent : CredentialRow
spent = record {
  id = codes "r1";
  device_id = codes "pc";
  credential_type = refresh;
  token_hash = 22;
  family_id = codes "f1";
  expires_at = database_time (zero_time + 720 * hour);
  created_at = database_time (zero_time + minute);
  consumed_at = some (database_time (at_minute 30));
  revoked_at = none;
}

abbrev pc_row : DeviceRow
pc_row = record {
  id = codes "pc";
  name = codes "Study PC";
  device_type = trusted_pc;
  owner = none;
  local_only = false;
  status = active;
  created_at = database_time (zero_time + minute);
  last_used_at = some (database_time (zero_time + minute));
  revoked_at = none;
}

abbrev without_tablet : Database
without_tablet = (revoke_device (codes "tablet") (codes "pc") (at_minute 9) enrolled_too).1

revoke_device-revokes_example :
    ((hash : Hash) (later : Time) (device : Device)
      → (device_by_access_token hash later without_tablet).0 ≡ ok device
      → device.id ≢ codes "tablet")
    × ((old : Hash) (rotation : CredentialRotation) (local_network : Bool) (later : Time)
          (db : Database) (c : CredentialRow) (d : DeviceRow)
        → find_pair (refreshes old) without_tablet.device_credentials without_tablet.devices
          ≡ some (c, d)
        → c.device_id ≡ codes "tablet"
        → rotate_refresh_credential old rotation local_network later without_tablet ≢ (ok tt, db))
    × ((hash : Hash) (csrf : Option Hash) (later : Time) (refresh_idle : Bool)
        → validate_admin_session (codes "tablet") hash csrf later refresh_idle without_tablet
          ≡ (ok false, without_tablet))
    × (push_subscription_active (codes "tablet") without_tablet ≡ false)
unfolding revoke_device create_enrollment submit_enrollment approve_enrollment complete_enrollment
    complete_initial_setup parse_database_time database_time text_eq any_row sql_length find_row
    count_rows update_rows find_pair
revoke_device-revokes_example =
    revoke_device-revokes (codes "tablet") (codes "pc") (at_minute 9) enrolled_too without_tablet
      refl
