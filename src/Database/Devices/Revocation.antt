-- ===== src/Database/Devices/Revocation.antt =====
-- RevokeDevice of internal/database/enrollment.go, and the use of a device's secrets after it.
use family_dashboard.Common.{
  ◌≡◌, ◌≢◌, subst, sym, Bool, true, false, Option, some, arith, AllRows, AllRows-Among,
  AllRows-mono, AllRows-update_rows, find_row-eq_none, find_pair, find_pair-Among, text_eq,
  text_eq_iff, Text, count_rows-eq_zero,
}
use family_dashboard.Time.{Time, database_time}
use family_dashboard.Database.State.{
  Database, DeviceRow, CredentialRow, PushRow, Hash, ok, is_null, commit,
}
use family_dashboard.Database.Statements.{insert_event}
use family_dashboard.Database.Setup.{Device, device_by_access_token}
use family_dashboard.Database.Setup.Authentication.{revoked-not_authenticated}
use family_dashboard.Database.Credentials.{
  CredentialRotation, refreshes, rotate_refresh_credential, is_unspent, revoke_credentials,
  revoke_sessions,
}
use family_dashboard.Database.Credentials.Reuse.{
  SessionsRevoked, revoke_credentials-AllRows, revoke_sessions-AllRows,
}
use family_dashboard.Database.Credentials.Rotation.{rotate_refresh_credential-Rotated}
use family_dashboard.Database.Admin.{validate_admin_session, is_live_session}
use family_dashboard.Database.Push.{
  is_active_push, push_subscription_active, revoke_push_subscription,
}
use family_dashboard.Database.Devices.{revoke_device, revoke_everything, revoke_row}

abbrev CredentialsRevoked : Text → Database → Type 0
CredentialsRevoked id db =
    AllRows (λ (c : CredentialRow). text_eq c.device_id id ≡ true → is_null c.revoked_at ≡ false)
      db.device_credentials

abbrev PushesRevoked : Text → Database → Type 0
PushesRevoked id db = AllRows (λ (p : PushRow). is_active_push id p ≡ false) db.push_subscriptions

pub revoke_push-AllRows :
    (id : Text) (now : Time) (db : Database) → PushesRevoked id (revoke_push_subscription id now db)
unfolding revoke_push_subscription is_active_push
revoke_push-AllRows id now db = AllRows-update_rows _ _ _ db.push_subscriptions (λ p. ground arith)

-- A device's sessions are refused once they are revoked.
pub SessionsRevoked-refused :
    (id : Text) (db : Database) (hash : Hash) (csrf : Option Hash) (now : Time) (refresh : Bool)
    → SessionsRevoked id db
    → validate_admin_session id hash csrf now refresh db ≡ (ok false, db)
unfolding validate_admin_session is_live_session
SessionsRevoked-refused id db hash csrf now refresh gone = ground (
  arith,
  find_row-eq_none (is_live_session id hash (database_time now)) db.admin_sessions
      (AllRows-mono _ _ db.admin_sessions (λ s h. ground (arith, h)) gone),
)

module _ (id : Text) (now : Time) (db : Database) where
  abbrev credentials_gone : Database
  credentials_gone =
      revoke_credentials (λ (c : CredentialRow). text_eq c.device_id id) (database_time now)
        (revoke_row id (database_time now) db)

  everything-credentials : CredentialsRevoked id (revoke_everything id now db)
  unfolding revoke_everything revoke_push_subscription revoke_sessions
  everything-credentials =
      revoke_credentials-AllRows _ (database_time now) (revoke_row id (database_time now) db)

  everything-sessions : SessionsRevoked id (revoke_everything id now db)
  unfolding revoke_everything revoke_push_subscription
  everything-sessions = revoke_sessions-AllRows id (database_time now) credentials_gone

  everything-pushes : PushesRevoked id (revoke_everything id now db)
  unfolding revoke_everything
  everything-pushes =
      revoke_push-AllRows id now (revoke_sessions id (database_time now) credentials_gone)

-- The three tables that a revocation leaves.
record Revoked (target : Text) (now : Time) (db db' : Database) : Type 0 where
  credentials : db'.device_credentials ≡ (revoke_everything target now db).device_credentials
  sessions : db'.admin_sessions ≡ (revoke_everything target now db).admin_sessions
  pushes : db'.push_subscriptions ≡ (revoke_everything target now db).push_subscriptions

revoke_device-Revoked :
    (target actor : Text) (now : Time) (db db' : Database)
    → revoke_device target actor now db ≡ (ok tt, db')
    → Revoked target now db db'
unfolding revoke_device commit insert_event
revoke_device-Revoked target actor now db db' h = record {
  credentials = ground arith;
  sessions = ground arith;
  pushes = ground arith;
}

module _ (target actor : Text) (now : Time) (db db' : Database)
    (done : revoke_device target actor now db ≡ (ok tt, db')) where
  gone-credentials : CredentialsRevoked target db'
  gone-credentials =
      subst (AllRows _) (sym (revoke_device-Revoked target actor now db db' done).credentials)
        (everything-credentials target now db)

  gone-sessions : SessionsRevoked target db'
  gone-sessions =
      subst (AllRows _) (sym (revoke_device-Revoked target actor now db db' done).sessions)
        (everything-sessions target now db)

  gone-pushes : PushesRevoked target db'
  gone-pushes =
      subst (AllRows _) (sym (revoke_device-Revoked target actor now db db' done).pushes)
        (everything-pushes target now db)

  no_rotation :
      (old : Hash) (rotation : CredentialRotation) (local_network : Bool) (later : Time)
      (db'' : Database) (c : CredentialRow) (d : DeviceRow)
      → find_pair (refreshes old) db'.device_credentials db'.devices ≡ some (c, d)
      → c.device_id ≡ target
      → rotate_refresh_credential old rotation local_network later db' ≢ (ok tt, db'')
  unfolding is_unspent
  no_rotation old rotation local_network later db'' c d found same e =
      let r = rotate_refresh_credential-Rotated old rotation local_network later db' db'' e in
      let (mc, _) = find_pair-Among _ db'.device_credentials db'.devices c d found in
      let revoked = AllRows-Among _ db'.device_credentials c gone-credentials mc in
      ground (arith, r.found, r.unspent, revoked, text_eq_iff c.device_id target)

  -- Once a device is revoked, no access token lets it in, no refresh token of it is rotated, no
  -- administrator session of it is accepted and it has no push subscription.
  pub revoke_device-revokes :
      ((hash : Hash) (later : Time) (device : Device)
        → (device_by_access_token hash later db').0 ≡ ok device
        → device.id ≢ target)
      × ((old : Hash) (rotation : CredentialRotation) (local_network : Bool) (later : Time)
            (db'' : Database) (c : CredentialRow) (d : DeviceRow)
          → find_pair (refreshes old) db'.device_credentials db'.devices ≡ some (c, d)
          → c.device_id ≡ target
          → rotate_refresh_credential old rotation local_network later db' ≢ (ok tt, db''))
      × ((hash : Hash) (csrf : Option Hash) (later : Time) (refresh : Bool)
          → validate_admin_session target hash csrf later refresh db' ≡ (ok false, db'))
      × (push_subscription_active target db' ≡ false)
  unfolding push_subscription_active
  revoke_device-revokes = (
    λ hash later device h.
        revoked-not_authenticated hash later db' target device gone-credentials h,
    no_rotation,
    λ hash csrf later refresh.
        SessionsRevoked-refused target db' hash csrf later refresh gone-sessions,
    ground (arith, count_rows-eq_zero (is_active_push target) db'.push_subscriptions gone-pushes),
  )
