-- ===== src/Database/Invariant/Sessions.antt =====
-- PIN attempts and administrator sessions keep a database well formed.
use family_dashboard.Common.{
  ◌≡◌, inl, inr, Bool, true, false, Option, some, [], ◌∷◌, ◌++◌, arith, Text, update_rows, find_row,
  Bool-cases, Option-cases,
}
use family_dashboard.Time.{Time, TimeText, database_time, parse_database_time}
use family_dashboard.Database.State.{Database, SessionRow, Hash, ok}
use family_dashboard.Database.Statements.{insert_session, insert_event}
use family_dashboard.Database.Credentials.{revoke_sessions}
use family_dashboard.Database.Admin.{
  upsert_pin, failure_event, commit_result, record_pin_failure, session_statements, new_session,
  create_admin_session, is_open_session, is_live_session, extend_session, csrf_matches, next_idle,
  accept_session, validate_admin_session, revoke_admin_session, record_lock,
}
use family_dashboard.Database.Enrollment.Unique.{commit-kept}
use family_dashboard.Database.Invariant.{WellFormed, is_open}
use family_dashboard.Database.Invariant.Tables.{
  OneSession-update, OneSession-insert, Same-WellFormed,
}

pub record_pin_failure-WellFormed :
    (device_id : Text) (now : Time) (db : Database)
    → WellFormed db
    → WellFormed (record_pin_failure device_id now db).1
unfolding record_pin_failure upsert_pin failure_event commit_result insert_event
record_pin_failure-WellFormed device_id now db w =
    Same-WellFormed db (record_pin_failure device_id now db).1 (ground arith) (ground arith)
      (ground arith) (ground arith) (ground arith) w

session_statements-WellFormed :
    (session : SessionRow) (now : TimeText) (db db' : Database)
    → WellFormed db
    → session_statements session now db ≡ ok db'
    → WellFormed db'
unfolding session_statements upsert_pin insert_session insert_event revoke_sessions
session_statements-WellFormed session now db db' w h =
    Same-WellFormed
      (record db {
        admin_sessions = (revoke_sessions session.device_id now db).admin_sessions ++ session ∷ [];
      })
      db' (ground arith) (ground arith) (ground arith) (ground arith) (ground arith)
      (record {
        requests = w.requests;
        devices = w.devices;
        sessions = OneSession-insert session now db w.sessions;
        pushes = w.pushes;
        security = w.security;
      })

pub create_admin_session-WellFormed :
    (device_id session_id : Text) (hash csrf : Hash) (idle absolute now : Time) (db : Database)
    → WellFormed db
    → WellFormed (create_admin_session device_id session_id hash csrf idle absolute now db).1
unfolding create_admin_session
create_admin_session-WellFormed device_id session_id hash csrf idle absolute now db w =
    commit-kept WellFormed db _ w λ db' h.
      session_statements-WellFormed (new_session device_id session_id hash csrf idle absolute now)
        (database_time now) db db' w h

extend_session-WellFormed :
    (device_id : Text) (hash : Hash) (idle now : Time) (db : Database)
    → WellFormed db
    → WellFormed (extend_session device_id hash idle now db)
unfolding extend_session
extend_session-WellFormed device_id hash idle now db w = record {
  requests = w.requests;
  devices = w.devices;
  sessions =
      OneSession-update (is_open_session device_id hash)
        (λ (s : SessionRow). record s {
          idle_expires_at = database_time idle;
          last_used_at = database_time now;
        })
        db.admin_sessions (λ id s h. unfold is_open in ground arith) w.sessions;
  pushes = w.pushes;
  security = w.security;
}

accept_session-WellFormed :
    (s : SessionRow) (device_id : Text) (hash : Hash) (csrf : Option Hash) (now : Time)
    (refresh : Bool) (db : Database)
    → WellFormed db
    → WellFormed (accept_session s device_id hash csrf now refresh db).1
unfolding accept_session
accept_session-WellFormed s device_id hash csrf now false db w =
    elim (Bool-cases (csrf_matches csrf s.csrf_hash)) [
      | inl e ↦ rw (accept_session, e) w
      | inr e ↦ rw (accept_session, e) w
    ]
accept_session-WellFormed s device_id hash csrf now true db w =
    elim (Bool-cases (csrf_matches csrf s.csrf_hash)) [
      | inr e ↦ rw (accept_session, e) w
      | inl e ↦ elim (Option-cases (parse_database_time s.absolute_expires_at)) [
        | inl n ↦ rw (accept_session, e, n) w
        | inr (absolute, n) ↦
            rw (accept_session, e, n)
              (extend_session-WellFormed device_id hash (next_idle now absolute) now db w)
      ]
    ]

pub validate_admin_session-WellFormed :
    (device_id : Text) (hash : Hash) (csrf : Option Hash) (now : Time) (refresh : Bool)
    (db : Database)
    → WellFormed db
    → WellFormed (validate_admin_session device_id hash csrf now refresh db).1
unfolding validate_admin_session
validate_admin_session-WellFormed device_id hash csrf now refresh db w =
    elim (Option-cases
      (find_row (is_live_session device_id hash (database_time now)) db.admin_sessions)) [
        | inl e ↦ rw (validate_admin_session, e) w
        | inr (s, e) ↦
            rw (validate_admin_session, e)
              (accept_session-WellFormed s device_id hash csrf now refresh db w)
      ]

locked-WellFormed :
    (device_id : Text) (hash : Hash) (now : Time) (db : Database)
    → WellFormed db
    → WellFormed (record db {
      admin_sessions =
          update_rows
            (is_open_session device_id hash)
            (λ (s : SessionRow). record s { revoked_at = some (database_time now) })
            db.admin_sessions;
    })
locked-WellFormed device_id hash now db w = record {
  requests = w.requests;
  devices = w.devices;
  sessions =
      OneSession-update (is_open_session device_id hash)
        (λ (s : SessionRow). record s { revoked_at = some (database_time now) }) db.admin_sessions
        (λ id s h. absurd (unfold is_open in ground arith)) w.sessions;
  pushes = w.pushes;
  security = w.security;
}

pub revoke_admin_session-WellFormed :
    (device_id : Text) (hash : Hash) (now : Time) (db : Database)
    → WellFormed db
    → WellFormed (revoke_admin_session device_id hash now db).1
unfolding revoke_admin_session record_lock insert_event
revoke_admin_session-WellFormed device_id hash now db w =
    Same-WellFormed _ (revoke_admin_session device_id hash now db).1 (ground arith) (ground arith)
      (ground arith) (ground arith) (ground arith) (locked-WellFormed device_id hash now db w)
