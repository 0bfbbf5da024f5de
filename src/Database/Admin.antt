-- ===== src/Database/Admin.antt =====
-- internal/database/admin.go: the count of wrong PINs with its block, and administrator sessions.
pub mod Pin
pub mod Sessions
use family_dashboard.Common.{
  ℕ, ◌+◌, ◌*◌, Bool, true, false, not, ◌&&◌, ◌||◌, Option, none, some, List, [], ◌∷◌, ◌++◌, ltb,
  leb, ◌==◌, if◌then◌else◌, Text, text_eq, find_row, update_rows, count_rows,
}
use family_dashboard.Time.{
  Time, TimeText, minute, database_time, time_text_lt, time_text_le, parse_database_time,
}
use family_dashboard.Database.State.{
  Database, SessionRow, PinRow, Hash, Result, ok, err, ◌>>=◌, Outcome, commit, is_null, pin_blocked,
  no_rows, null_column, bad_time, constraint, pin_unlock, admin_unlock, admin_lock, failure,
  blocked, success, invalid_pin, pin_verified, explicit_lock, EventResult,
}
use family_dashboard.Database.Statements.{has_device, checked, insert_session, insert_event}
use family_dashboard.Database.Credentials.{revoke_sessions}

unfoldable pub pin_row : Text → Database → Option PinRow
pin_row device_id db = find_row (λ (p : PinRow). text_eq p.device_id device_id) db.pin_attempts

-- `p.blocked_until` under the LEFT JOIN: NULL without a row.
unfoldable pub blocked_until : Text → Database → Option TimeText
unfolding pin_row
blocked_until device_id db = elim (pin_row device_id db) [ none ↦ none | some p ↦ p.blocked_until ]

unfoldable pub unblocked : Option TimeText → Time → Text → Result Text
unblocked none now hash = ok hash
unblocked (some text) now hash = elim (parse_database_time text) [
  | none ↦ err bad_time
  | some until ↦ if ltb now until then err pin_blocked else ok hash
]

-- `PINChallenge`.
unfoldable pub pin_challenge : Text → Time → Database → Result Text
unfolding blocked_until unblocked
pin_challenge device_id now db =
    if db.security_state.setup_complete
    then elim db.security_state.pin_hash [
      | none ↦ err null_column
      | some hash ↦ unblocked (blocked_until device_id db) now hash
    ]
    else err no_rows

-- The count that a further failure makes: it starts again when a block has run out.
unfoldable pub next_count : PinRow → TimeText → ℕ
unfolding time_text_le
next_count p now = elim p.blocked_until [
  | none ↦ p.failed_count + 1
  | some until ↦ if time_text_le until now then 1 else p.failed_count + 1
]

unfoldable pub failed_row : Time → PinRow → PinRow
unfolding next_count
failed_row now p =
    let count = next_count p (database_time now) in
    record p {
      failed_count = count;
      blocked_until = if leb 5 count then some (database_time (now + 5 * minute)) else none;
      updated_at = database_time now;
    }

-- `INSERT INTO pin_attempts … ON CONFLICT(device_id) DO UPDATE`.
unfoldable pub upsert_pin : PinRow → (PinRow → PinRow) → Database → Result Database
unfolding has_device checked pin_row is_null
upsert_pin fresh again db =
    if is_null (pin_row fresh.device_id db)
    then checked (has_device fresh.device_id db)
        (record db { pin_attempts = db.pin_attempts ++ fresh ∷ [] })
    else ok (record db {
      pin_attempts =
          update_rows (λ (p : PinRow). text_eq p.device_id fresh.device_id) again db.pin_attempts;
    })

unfoldable pub failure_result : Bool → EventResult
failure_result true = blocked
failure_result false = failure

-- The result says whether the device is blocked now.
unfoldable pub failure_event : Text → TimeText → Database → Result (Bool × Database)
unfolding blocked_until failure_result is_null insert_event
failure_event device_id now db =
    let is_blocked = not (is_null (blocked_until device_id db)) in
    insert_event pin_unlock device_id (failure_result is_blocked) invalid_pin now db >>= λ db1.
    ok (is_blocked, db1)

unfoldable pub commit_result {ℓ} :
    {A : Type ℓ} → Database → Result (A × Database) → Result A × Database
commit_result db (ok (a, db')) = (ok a, db')
commit_result db (err e) = (err e, db)

-- `RecordPINFailure`.
unfoldable pub record_pin_failure : Text → Time → Database → Outcome Bool
unfolding upsert_pin failed_row failure_event commit_result
record_pin_failure device_id now db = commit_result db (
    upsert_pin
      (record {
        device_id = device_id;
        failed_count = 1;
        blocked_until = none;
        updated_at = database_time now;
      })
      (failed_row now) db
    >>= failure_event device_id (database_time now))

unfoldable pub reset_row : TimeText → PinRow → PinRow
reset_row now p = record p { failed_count = 0; blocked_until = none; updated_at = now }

unfoldable pub session_statements : SessionRow → TimeText → Database → Result Database
unfolding upsert_pin reset_row revoke_sessions insert_session insert_event
session_statements session now db = do
  db1 ←
      upsert_pin
        (record {
          device_id = session.device_id;
          failed_count = 0;
          blocked_until = none;
          updated_at = now;
        })
        (reset_row now) db
  db2 ← insert_session session (revoke_sessions session.device_id now db1)
  insert_event admin_unlock session.device_id success pin_verified now db2

abbrev pub new_session : Text → Text → Hash → Hash → Time → Time → Time → SessionRow
new_session device_id session_id session_hash csrf_hash idle absolute now = record {
  id = session_id;
  device_id = device_id;
  session_hash = session_hash;
  csrf_hash = csrf_hash;
  idle_expires_at = database_time idle;
  absolute_expires_at = database_time absolute;
  created_at = database_time now;
  last_used_at = database_time now;
  revoked_at = none;
}

-- `CreateAdminSession`.
unfoldable pub create_admin_session :
    Text → Text → Hash → Hash → Time → Time → Time → Database → Outcome (Unit {0})
unfolding session_statements commit
create_admin_session device_id session_id session_hash csrf_hash idle absolute now db = commit db (
    session_statements (new_session device_id session_id session_hash csrf_hash idle absolute now)
      (database_time now) db)

unfoldable pub is_open_session : Text → Hash → SessionRow → Bool
unfolding is_null
is_open_session device_id hash s =
    text_eq s.device_id device_id && s.session_hash == hash && is_null s.revoked_at

-- The condition of the SELECT of `ValidateAdminSession`.
unfoldable pub is_live_session : Text → Hash → TimeText → SessionRow → Bool
unfolding is_open_session
is_live_session device_id hash now s =
    is_open_session device_id hash s
    && time_text_lt now s.idle_expires_at
    && time_text_lt now s.absolute_expires_at

unfoldable pub csrf_matches : Option Hash → Hash → Bool
csrf_matches none stored = true
csrf_matches (some hash) stored = stored == hash

-- Ten minutes more, but never past the absolute end.
unfoldable pub next_idle : Time → Time → Time
next_idle now absolute = if ltb absolute (now + 10 * minute) then absolute else now + 10 * minute

unfoldable pub extend_session : Text → Hash → Time → Time → Database → Database
unfolding is_open_session
extend_session device_id hash idle now db = record db {
  admin_sessions =
      update_rows (is_open_session device_id hash)
        (λ (s : SessionRow). record s {
          idle_expires_at = database_time idle;
          last_used_at = database_time now;
        })
        db.admin_sessions;
}

unfoldable pub accept_session :
    SessionRow → Text → Hash → Option Hash → Time → Bool → Database → Outcome Bool
unfolding csrf_matches extend_session next_idle
accept_session s device_id hash csrf now refresh_idle db =
    if not (csrf_matches csrf s.csrf_hash)
    then (ok false, db)
    else if refresh_idle
    then elim (parse_database_time s.absolute_expires_at) [
      | none ↦ (err bad_time, db)
      | some absolute ↦ (ok true, extend_session device_id hash (next_idle now absolute) now db)
    ]
    else (ok true, db)

-- `ValidateAdminSession`; without a CSRF hash the comparison is left out.
unfoldable pub validate_admin_session :
    Text → Hash → Option Hash → Time → Bool → Database → Outcome Bool
unfolding is_live_session accept_session
validate_admin_session device_id hash csrf now refresh_idle db =
    elim (find_row (is_live_session device_id hash (database_time now)) db.admin_sessions) [
      | none ↦ (ok false, db)
      | some s ↦ accept_session s device_id hash csrf now refresh_idle db
    ]

-- The two statements are no transaction: the first stays when the second fails.
unfoldable pub record_lock : Database → Result Database → Outcome (Unit {0})
record_lock db (ok db') = (ok tt, db')
record_lock db (err e) = (err e, db)

-- `RevokeAdminSession`.
unfoldable pub revoke_admin_session : Text → Hash → Time → Database → Outcome (Unit {0})
unfolding is_open_session record_lock insert_event
revoke_admin_session device_id hash now db =
    let changed = count_rows (is_open_session device_id hash) db.admin_sessions in
    let revoked = record db {
      admin_sessions =
          update_rows (is_open_session device_id hash)
            (λ (s : SessionRow). record s { revoked_at = some (database_time now) })
            db.admin_sessions;
    } in
    if changed == 1
    then record_lock revoked
        (insert_event admin_lock device_id success explicit_lock (database_time now) revoked)
    else (ok tt, revoked)
