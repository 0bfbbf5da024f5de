-- ===== src/Database/Statements.antt =====
-- The INSERT statements of internal/database under the constraints of its schema: PRIMARY KEY,
-- UNIQUE, CHECK and REFERENCES. What a constraint refuses leaves an error.
use family_dashboard.Common.{
  Bool, not, ◌&&◌, ◌||◌, [], ◌∷◌, ◌++◌, leb, ◌==◌, if◌then◌else◌, Text, text_eq, sql_length,
  any_row,
}
use family_dashboard.Database.State.{
  Database, DeviceRow, CredentialRow, EnrollmentRow, SessionRow, RecoveryRow, EventRow, PushRow,
  EventType, EventResult, Reason, Result, ok, err, constraint, is_null,
}
use family_dashboard.Time.{TimeText}

-- The target of REFERENCES devices(id).
unfoldable pub has_device : Text → Database → Bool
has_device id db = any_row (λ (d : DeviceRow). text_eq d.id id) db.devices

-- A statement that runs if its constraints hold.
unfoldable pub checked : Bool → Database → Result Database
checked holds db = if holds then ok db else err constraint

unfoldable pub insert_device : DeviceRow → Database → Result Database
unfolding checked
insert_device d db =
    checked
      (not (any_row (λ (e : DeviceRow). text_eq e.id d.id) db.devices)
        && leb 1 (sql_length d.name)
        && leb (sql_length d.name) 80)
      (record db { devices = db.devices ++ d ∷ [] })

unfoldable pub insert_credential : CredentialRow → Database → Result Database
unfolding checked has_device
insert_credential c db =
    checked
      (not (
          any_row (λ (e : CredentialRow). text_eq e.id c.id || e.token_hash == c.token_hash)
            db.device_credentials)
        && has_device c.device_id db)
      (record db { device_credentials = db.device_credentials ++ c ∷ [] })

unfoldable pub insert_enrollment : EnrollmentRow → Database → Result Database
unfolding checked
insert_enrollment r db =
    checked
      (not (
        any_row (λ (e : EnrollmentRow). text_eq e.id r.id || e.code_hash == r.code_hash)
          db.enrollment_requests))
      (record db { enrollment_requests = db.enrollment_requests ++ r ∷ [] })

unfoldable pub insert_session : SessionRow → Database → Result Database
unfolding checked has_device
insert_session s db =
    checked
      (not (
          any_row (λ (e : SessionRow). text_eq e.id s.id || e.session_hash == s.session_hash)
            db.admin_sessions)
        && has_device s.device_id db)
      (record db { admin_sessions = db.admin_sessions ++ s ∷ [] })

unfoldable pub insert_recovery : RecoveryRow → Database → Result Database
unfolding checked
insert_recovery r db =
    checked
      (not (
        any_row (λ (e : RecoveryRow). text_eq e.id r.id || e.code_hash == r.code_hash)
          db.recovery_codes))
      (record db { recovery_codes = db.recovery_codes ++ r ∷ [] })

-- The events of a device; their own id is assigned by SQLite.
unfoldable pub insert_event :
    EventType → Text → EventResult → Reason → TimeText → Database → Result Database
unfolding checked has_device
insert_event event_type device_id result reason now db =
    checked (has_device device_id db)
      (record db { security_events = db.security_events ++ event ∷ [] })
  where
    event : EventRow
    event = record {
      event_type = event_type;
      device_id = device_id;
      result = result;
      reason = reason;
      created_at = now;
    }

-- The partial index push_subscriptions_active_device allows a device one row that is not revoked.
unfoldable pub insert_push : PushRow → Database → Result Database
unfolding checked has_device is_null
insert_push p db =
    checked
      (not (
          any_row
            (λ (e : PushRow).
              text_eq e.id p.id
              || e.endpoint_hash == p.endpoint_hash
              || (text_eq e.device_id p.device_id && is_null e.revoked_at && is_null p.revoked_at))
            db.push_subscriptions)
        && has_device p.device_id db)
      (record db { push_subscriptions = db.push_subscriptions ++ p ∷ [] })
