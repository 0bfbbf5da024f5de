-- ===== src/Database/Invariant/Rotation.antt =====
-- The rotation of refresh credentials keeps a database well formed.
use family_dashboard.Common.{
  ◌≡◌, inl, inr, refl, Bool, not, ◌&&◌, ◌||◌, arith, Text, ltb, ◌==◌, count_rows, find_pair,
  Bool-cases, Option-cases,
}
use family_dashboard.Time.{Time, TimeText, database_time, parse_database_time}
use family_dashboard.Database.State.{
  Database, CredentialRow, DeviceRow, Hash, Result, ok, err, Error, commit_with, is_null, is_active,
  refresh_reuse, local_network_required, network_policy, blocked, local_device_external_refresh,
}
use family_dashboard.Database.Statements.{insert_credential, insert_event}
use family_dashboard.Database.Credentials.{
  CredentialRotation, rotate_refresh_credential, rotate_found, rotate_unexpired,
  rotation_statements, reuse_statements, consume, is_unspent, revoke_credentials, revoke_sessions,
  refreshes,
}
use family_dashboard.Database.Enrollment.Unique.{commit-kept}
use family_dashboard.Database.Invariant.{WellFormed}
use family_dashboard.Database.Invariant.Tables.{OneSession-revoke, Same-WellFormed}

commit_with-kept :
    (report : Error) (db : Database) (result : Result Database)
    → WellFormed db
    → ((db' : Database) → result ≡ ok db' → WellFormed db')
    → WellFormed (commit_with report db result).1
unfolding commit_with
commit_with-kept report db (ok db') w h = h db' refl
commit_with-kept report db (err e) w h = w

rotation_statements-WellFormed :
    (c : CredentialRow) (rotation : CredentialRotation) (now : TimeText) (db db' : Database)
    → WellFormed db
    → rotation_statements c rotation now db ≡ ok db'
    → WellFormed db'
unfolding rotation_statements insert_credential insert_event revoke_credentials
rotation_statements-WellFormed c rotation now db db' w h =
    Same-WellFormed db db' (ground arith) (ground arith) (ground arith) (ground arith)
      (ground arith) w

revoked-WellFormed :
    (device_id : Text) (now : TimeText) (db : Database)
    → WellFormed db
    → WellFormed (revoke_sessions device_id now db)
unfolding revoke_sessions
revoked-WellFormed device_id now db w = record {
  requests = w.requests;
  devices = w.devices;
  sessions = OneSession-revoke device_id now db w.sessions;
  pushes = w.pushes;
  security = w.security;
}

reuse_statements-WellFormed :
    (c : CredentialRow) (now : TimeText) (db db' : Database)
    → WellFormed db
    → reuse_statements c now db ≡ ok db'
    → WellFormed db'
unfolding reuse_statements insert_event revoke_credentials revoke_sessions
reuse_statements-WellFormed c now db db' w h =
    Same-WellFormed (revoke_sessions c.device_id now db) db' (ground arith) (ground arith)
      (ground arith) (ground arith) (ground arith) (revoked-WellFormed c.device_id now db w)

consume-WellFormed :
    (old : Hash) (now : TimeText) (db : Database) → WellFormed db → WellFormed (consume old now db)
unfolding consume
consume-WellFormed old now db w = Same-WellFormed db (consume old now db) refl refl refl refl refl w

event-WellFormed :
    (device_id : Text) (now : TimeText) (db db' : Database)
    → WellFormed db
    → insert_event network_policy device_id blocked local_device_external_refresh now db ≡ ok db'
    → WellFormed db'
unfolding insert_event
event-WellFormed device_id now db db' w h =
    Same-WellFormed db db' (ground arith) (ground arith) (ground arith) (ground arith)
      (ground arith) w

rotate_unexpired-WellFormed :
    (c : CredentialRow) (d : DeviceRow) (old : Hash) (rotation : CredentialRotation)
    (now expires : Time) (db : Database)
    → WellFormed db
    → WellFormed (rotate_unexpired c d old rotation expires now db).1
unfolding rotate_unexpired
rotate_unexpired-WellFormed c d old rotation now expires db w =
    elim (Bool-cases
      (not (is_null c.revoked_at) || not (is_active d.status) || not (ltb now expires))) [
        | inl e ↦ rw (rotate_unexpired, e) w
        | inr e ↦ elim (Bool-cases (count_rows (is_unspent old) db.device_credentials == 1)) [
          | inr f ↦ rw (rotate_unexpired, e, f) w
          | inl t ↦
              rw (rotate_unexpired, e, t)
                (commit-kept WellFormed db _ w λ db' h.
                  rotation_statements-WellFormed c rotation (database_time now)
                    (consume old (database_time now) db) db'
                    (consume-WellFormed old (database_time now) db w) h)
        ]
      ]

rotate_found-WellFormed :
    (c : CredentialRow) (d : DeviceRow) (old : Hash) (rotation : CredentialRotation) (local : Bool)
    (now : Time) (db : Database)
    → WellFormed db
    → WellFormed (rotate_found c d old rotation local now db).1
unfolding rotate_found
rotate_found-WellFormed c d old rotation local now db w =
    elim (Bool-cases (d.local_only && not local)) [
      | inl far ↦
          rw (rotate_found, far)
            (commit_with-kept local_network_required db _ w
              λ db' h. event-WellFormed c.device_id (database_time now) db db' w h)
      | inr home ↦ elim (Bool-cases (not (is_null c.consumed_at))) [
        | inl used ↦
            rw (rotate_found, home, used)
              (commit_with-kept refresh_reuse db _ w
                λ db' h. reuse_statements-WellFormed c (database_time now) db db' w h)
        | inr unused ↦ elim (Option-cases (parse_database_time c.expires_at)) [
          | inl n ↦ rw (rotate_found, home, unused, n) w
          | inr (expires, n) ↦
              rw (rotate_found, home, unused, n)
                (rotate_unexpired-WellFormed c d old rotation now expires db w)
        ]
      ]
    ]

pub rotate_refresh_credential-WellFormed :
    (old : Hash) (rotation : CredentialRotation) (local : Bool) (now : Time) (db : Database)
    → WellFormed db
    → WellFormed (rotate_refresh_credential old rotation local now db).1
unfolding rotate_refresh_credential
rotate_refresh_credential-WellFormed old rotation local now db w =
    elim (Option-cases (find_pair (refreshes old) db.device_credentials db.devices)) [
      | inl e ↦ rw (rotate_refresh_credential, e) w
      | inr ((c, d), e) ↦
          rw (rotate_refresh_credential, e)
            (rotate_found-WellFormed c d old rotation local now db w)
    ]
