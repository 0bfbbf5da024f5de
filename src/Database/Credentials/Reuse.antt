-- ===== src/Database/Credentials/Reuse.antt =====
-- The reuse of a refresh token (internal/database/credentials.go).
use family_dashboard.Common.{
  ◌≡◌, ◌≢◌, refl, Bool, true, false, not, ◌&&◌, none, some, List, [], ◌∷◌, ◌++◌, arith, Among,
  AllRows, AllRows-update_rows, find_pair, find_pair-holds, find_pair-Among, text_eq, Text, any_row,
}
use family_dashboard.Time.{Time, TimeText, database_time}
use family_dashboard.Database.State.{
  Database, DeviceRow, CredentialRow, SessionRow, Hash, ok, err, is_null, commit_with,
  refresh_reuse, token_refresh, failure, refresh_reuse_detected,
}
use family_dashboard.Database.Statements.{insert_event, has_device}
use family_dashboard.Database.Credentials.{
  CredentialRotation, refreshes, rotate_refresh_credential, rotate_found, reuse_statements,
  revoke_credentials, revoke_sessions,
}

-- The device of a joined row is in the table.
pub has_device-Among :
    (id : Text) (d : DeviceRow) (ds : List DeviceRow)
    → Among d ds
    → text_eq d.id id ≡ true
    → any_row (λ (e : DeviceRow). text_eq e.id id) ds ≡ true
unfolding any_row
has_device-Among id d [] m e = absurd m
has_device-Among id d (x ∷ xs) m e = ground (arith, has_device-Among id d xs)

-- What the two revoking updates make of every row.
pub revoke_credentials-AllRows :
    (which : CredentialRow → Bool) (now : TimeText) (db : Database)
    → AllRows
        (λ (c : CredentialRow). which c ≡ true → is_null c.revoked_at ≡ false)
        (revoke_credentials which now db).device_credentials
unfolding revoke_credentials
revoke_credentials-AllRows which now db =
    AllRows-update_rows _ _ _ db.device_credentials (λ c. ground arith)

pub revoke_sessions-AllRows :
    (id : Text) (now : TimeText) (db : Database)
    → AllRows
        (λ (s : SessionRow). text_eq s.device_id id ≡ true → is_null s.revoked_at ≡ false)
        (revoke_sessions id now db).admin_sessions
unfolding revoke_sessions
revoke_sessions-AllRows id now db = AllRows-update_rows _ _ _ db.admin_sessions (λ s. ground arith)

-- A family, or a device's sessions, with nothing left that is not revoked.
abbrev pub FamilyRevoked : Text → Database → Type 0
FamilyRevoked family db =
    AllRows
      (λ (c : CredentialRow). text_eq c.family_id family ≡ true → is_null c.revoked_at ≡ false)
      db.device_credentials

abbrev pub SessionsRevoked : Text → Database → Type 0
SessionsRevoked id db =
    AllRows (λ (s : SessionRow). text_eq s.device_id id ≡ true → is_null s.revoked_at ≡ false)
      db.admin_sessions

reuse_statements-ok :
    (c : CredentialRow) (now : TimeText) (db : Database)
    → has_device c.device_id db ≡ true
    → (db' : Database) × (reuse_statements c now db ≡ ok db')
      × FamilyRevoked c.family_id db'
      × SessionsRevoked c.device_id db'
      × (db'.devices ≡ db.devices)
unfolding reuse_statements insert_event revoke_credentials revoke_sessions has_device
reuse_statements-ok c now db h =
    let family = λ (e : CredentialRow). text_eq e.family_id c.family_id in
    let revoked = revoke_sessions c.device_id now (revoke_credentials family now db) in
    (
      record revoked {
        security_events =
            db.security_events
            ++ record {
              event_type = token_refresh;
              device_id = c.device_id;
              result = failure;
              reason = refresh_reuse_detected;
              created_at = now;
            }
              ∷ [];
      },
      ground arith,
      revoke_credentials-AllRows family now db,
      revoke_sessions-AllRows c.device_id now (revoke_credentials family now db),
      refl,
    )

-- A refresh token that was consumed before, of a device that may refresh from this network, is
-- refused as reused, and its presentation revokes every credential of its family and every
-- administrator session of its device, whatever the dates.
pub rotate_refresh_credential-reuse :
    (old : Hash) (rotation : CredentialRotation) (local_network : Bool) (now : Time) (db : Database)
    (c : CredentialRow) (d : DeviceRow)
    → find_pair (refreshes old) db.device_credentials db.devices ≡ some (c, d)
    → (d.local_only && not local_network) ≡ false
    → c.consumed_at ≢ none
    → let outcome = rotate_refresh_credential old rotation local_network now db in
      (outcome.0 ≡ err refresh_reuse)
      × FamilyRevoked c.family_id outcome.1
      × SessionsRevoked c.device_id outcome.1
unfolding rotate_refresh_credential rotate_found commit_with refreshes has_device is_null
rotate_refresh_credential-reuse old rotation local_network now db c d found local used =
    let (mc, md) = find_pair-Among _ db.device_credentials db.devices c d found in
    let matches = find_pair-holds _ db.device_credentials db.devices c d found in
    let present = has_device-Among c.device_id d db.devices md (ground arith) in
    let (db', ran, family, sessions, _) = reuse_statements-ok c (database_time now) db present in
    let taken : rotate_found c d old rotation local_network now db ≡ (err refresh_reuse, db') =
      ground arith in
    rw (found, rotate_refresh_credential) (rw taken (refl, family, sessions))
