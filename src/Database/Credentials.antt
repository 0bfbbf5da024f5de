-- ===== src/Database/Credentials.antt =====
-- internal/database/credentials.go: the rotation of a refresh token and the detection of its reuse.
pub mod Reuse
pub mod Rotation
use family_dashboard.Common.{
  Bool, true, false, not, ◌&&◌, ◌||◌, Option, none, some, ltb, ◌==◌, if◌then◌else◌, Text, text_eq,
  find_pair, update_rows, count_rows,
}
use family_dashboard.Time.{Time, TimeText, database_time, parse_database_time}
use family_dashboard.Database.State.{
  Database, DeviceRow, CredentialRow, SessionRow, Hash, Result, ok, err, ◌>>=◌, Outcome, commit,
  commit_with, is_null, is_active, is_access, is_refresh, access, refresh, unauthenticated,
  refresh_reuse, local_network_required, bad_time, network_policy, token_refresh, blocked, failure,
  success, local_device_external_refresh, refresh_reuse_detected, credentials_rotated,
}
use family_dashboard.Database.Statements.{insert_credential, insert_event}
use family_dashboard.Database.Setup.{new_credential}

pub record CredentialRotation : Type 0 where
  pub access_id : Text
  pub access_hash : Hash
  pub access_expires_at : Time
  pub refresh_id : Text
  pub refresh_hash : Hash
  pub refresh_expires_at : Time

-- `UPDATE device_credentials SET revoked_at = ? WHERE … AND revoked_at IS NULL`.
unfoldable pub revoke_credentials : (CredentialRow → Bool) → TimeText → Database → Database
unfolding is_null
revoke_credentials which now db = record db {
  device_credentials =
      update_rows (λ (c : CredentialRow). which c && is_null c.revoked_at)
        (λ (c : CredentialRow). record c { revoked_at = some now }) db.device_credentials;
}

-- `UPDATE admin_sessions SET revoked_at = ? WHERE device_id = ? AND revoked_at IS NULL`.
unfoldable pub revoke_sessions : Text → TimeText → Database → Database
unfolding is_null
revoke_sessions device_id now db = record db {
  admin_sessions =
      update_rows (λ (s : SessionRow). text_eq s.device_id device_id && is_null s.revoked_at)
        (λ (s : SessionRow). record s { revoked_at = some now }) db.admin_sessions;
}

-- The join and condition of the first SELECT.
unfoldable pub refreshes : Hash → CredentialRow → DeviceRow → Bool
unfolding is_refresh
refreshes hash c d =
    text_eq d.id c.device_id && is_refresh c.credential_type && c.token_hash == hash

-- The condition of the UPDATE that consumes the token.
unfoldable pub is_unspent : Hash → CredentialRow → Bool
unfolding is_null
is_unspent hash c = c.token_hash == hash && is_null c.consumed_at && is_null c.revoked_at

unfoldable pub consume : Hash → TimeText → Database → Database
unfolding is_unspent
consume hash now db = record db {
  device_credentials =
      update_rows (is_unspent hash) (λ (c : CredentialRow). record c { consumed_at = some now })
        db.device_credentials;
}

unfoldable pub is_access_of : Text → CredentialRow → Bool
unfolding is_access
is_access_of device_id c = text_eq c.device_id device_id && is_access c.credential_type

-- The statements after the checks, with the token consumed.
unfoldable pub rotation_statements :
    CredentialRow → CredentialRotation → TimeText → Database → Result Database
unfolding revoke_credentials is_access_of insert_credential insert_event
rotation_statements c rotation now db = do
  db1 ←
      insert_credential
        (new_credential rotation.access_id access rotation.access_hash c.family_id
          rotation.access_expires_at c.device_id now)
        (revoke_credentials (is_access_of c.device_id) now db)
  db2 ←
      insert_credential
        (new_credential rotation.refresh_id refresh rotation.refresh_hash c.family_id
          rotation.refresh_expires_at c.device_id now)
        db1
  insert_event token_refresh c.device_id success credentials_rotated now db2

-- A token that was consumed before: the whole family is revoked, and the device's sessions.
unfoldable pub reuse_statements : CredentialRow → TimeText → Database → Result Database
unfolding revoke_credentials revoke_sessions insert_event
reuse_statements c now db =
    insert_event token_refresh c.device_id failure refresh_reuse_detected now (
      revoke_sessions c.device_id now
        (revoke_credentials (λ (e : CredentialRow). text_eq e.family_id c.family_id) now db))

-- The part of `RotateRefreshCredential` behind the expiry's parse.
unfoldable pub rotate_unexpired :
    CredentialRow
    → DeviceRow
    → Hash
    → CredentialRotation
    → Time
    → Time
    → Database
    → Outcome (Unit {0})
unfolding rotation_statements consume commit is_null is_active
rotate_unexpired c d old rotation expires now db =
    if not (is_null c.revoked_at) || not (is_active d.status) || not (ltb now expires)
    then (err unauthenticated, db)
    else if count_rows (is_unspent old) db.device_credentials == 1
    then commit db
        (rotation_statements c rotation (database_time now) (consume old (database_time now) db))
    else (err unauthenticated, db)

unfoldable pub rotate_found :
    CredentialRow
    → DeviceRow
    → Hash
    → CredentialRotation
    → Bool
    → Time
    → Database
    → Outcome (Unit {0})
unfolding rotate_unexpired reuse_statements commit_with is_null insert_event
rotate_found c d old rotation local_network now db =
    if d.local_only && not local_network
    then commit_with local_network_required db (
        insert_event network_policy c.device_id blocked local_device_external_refresh
          (database_time now) db)
    else if not (is_null c.consumed_at)
    then commit_with refresh_reuse db (reuse_statements c (database_time now) db)
    else elim (parse_database_time c.expires_at) [
      | none ↦ (err bad_time, db)
      | some expires ↦ rotate_unexpired c d old rotation expires now db
    ]

-- `RotateRefreshCredential`.
unfoldable pub rotate_refresh_credential :
    Hash → CredentialRotation → Bool → Time → Database → Outcome (Unit {0})
unfolding rotate_found
rotate_refresh_credential old rotation local_network now db =
    elim (find_pair (refreshes old) db.device_credentials db.devices) [
      | none ↦ (err unauthenticated, db)
      | some (c, d) ↦ rotate_found c d old rotation local_network now db
    ]
