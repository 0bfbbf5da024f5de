-- ===== src/Database/Devices.antt =====
-- internal/database/enrollment.go, the list of devices and the revocation of a device.
pub mod Revocation
use family_dashboard.Common.{
  ℕ, Bool, true, false, not, ◌&&◌, Option, none, some, List, [], ◌∷◌, ◌==◌, if◌then◌else◌, Text,
  text_eq, count_rows, update_rows, select_rows, sort_rows,
}
use family_dashboard.Time.{Time, TimeText, database_time, time_text_lt, parse_database_time}
use family_dashboard.Database.State.{
  Database, DeviceRow, CredentialRow, DeviceType, DeviceStatus, Owner, revoked, Result, ok, err,
  ◌>>=◌, Outcome, commit, is_active, bad_time, unauthenticated, revoke_current, device_revocation,
  success, administrator_action,
}
use family_dashboard.Database.Statements.{insert_event}
use family_dashboard.Database.Credentials.{revoke_credentials, revoke_sessions}
use family_dashboard.Database.Push.{revoke_push_subscription}

pub record DeviceSummary : Type 0 where
  pub id : Text
  pub name : Text
  pub device_type : DeviceType
  pub owner : Option Owner
  pub status : DeviceStatus
  pub created_at : Time
  pub last_used_at : Option Time

unfoldable pub parse_time : TimeText → Result Time
parse_time text = elim (parse_database_time text) [ none ↦ err bad_time | some t ↦ ok t ]

unfoldable pub parse_optional : Option TimeText → Result (Option Time)
unfolding parse_time
parse_optional none = ok none
parse_optional (some text) = parse_time text >>= λ t. ok (some t)

unfoldable pub summary_of : DeviceRow → Result DeviceSummary
unfolding parse_time parse_optional
summary_of d = do
  created ← parse_time d.created_at
  used ← parse_optional d.last_used_at
  ok (record {
    id = d.id;
    name = d.name;
    device_type = d.device_type;
    owner = d.owner;
    status = d.status;
    created_at = created;
    last_used_at = used;
  })

unfoldable pub summaries_of : List DeviceRow → Result (List DeviceSummary)
unfolding summary_of
summaries_of [] = ok []
summaries_of (d ∷ ds) =
    let rest = summaries_of ds in summary_of d >>= λ s. rest >>= λ ss. ok (s ∷ ss)

-- `ListDevices`, oldest first.
unfoldable pub list_devices : Database → Result (List DeviceSummary)
unfolding summaries_of
list_devices db = summaries_of (
    sort_rows (λ (a b : DeviceRow). time_text_lt a.created_at b.created_at)
      (select_rows (λ (d : DeviceRow). is_active d.status) db.devices))

unfoldable pub is_revocable : Text → DeviceRow → Bool
unfolding is_active
is_revocable id d = text_eq d.id id && is_active d.status

unfoldable pub revoke_row : Text → TimeText → Database → Database
unfolding is_revocable
revoke_row id now db = record db {
  devices =
      update_rows (is_revocable id)
        (λ (d : DeviceRow). record d { status = revoked; revoked_at = some now }) db.devices;
}

-- The updates of `RevokeDevice`, in their order.
unfoldable pub revoke_everything : Text → Time → Database → Database
unfolding revoke_row revoke_credentials revoke_sessions revoke_push_subscription
revoke_everything id now db =
    let stamp = database_time now in
    revoke_push_subscription id now (
      revoke_sessions id stamp (
        revoke_credentials (λ (c : CredentialRow). text_eq c.device_id id) stamp
          (revoke_row id stamp db)))

-- `RevokeDevice`.
unfoldable pub revoke_device : Text → Text → Time → Database → Outcome (Unit {0})
unfolding revoke_everything is_revocable insert_event commit
revoke_device target actor now db =
    if text_eq target actor
    then (err revoke_current, db)
    else if count_rows (is_revocable target) db.devices == 1
    then commit db (
        insert_event device_revocation target success administrator_action (database_time now)
          (revoke_everything target now db))
    else (err unauthenticated, db)
