-- ===== src/Database/Admin/Sessions.antt =====
-- Administrator sessions of internal/database/admin.go: creation, validation and revocation.
use family_dashboard.Common.{
  ◌+◌, ◌*◌, ◌≤◌, ◌≡◌, ◌∙◌, sym, ap, subst, ◌⊎◌, inl, inr, refl, Bool, true, false, ◌&&◌, Option,
  none, some, [], ◌∷◌, ◌++◌, arith, ◌==◌, Among, AllRows, AllRows-mono, AllRows-update_rows,
  find_row, find_row-append, find_row-eq_none, find_row-holds, find_row-Among, count_rows,
  count_rows-append, count_rows-eq_zero, text_eq, text_eq_refl, text_eq_iff, Text, if◌then◌else◌,
  Option-cases, update_rows, ◌<◌,
}
use family_dashboard.Time.{Time, TimeText, database_time, time_text_lt, minute, year_10000}
use family_dashboard.Time.RoundTrip.{parse-database_time_early}
use family_dashboard.Database.State.{Database, SessionRow, Hash, ok, is_null, commit}
use family_dashboard.Database.Statements.{insert_session, insert_event}
use family_dashboard.Database.Credentials.{revoke_sessions}
use family_dashboard.Database.Credentials.Reuse.{revoke_sessions-AllRows, SessionsRevoked}
use family_dashboard.Database.Admin.{
  create_admin_session, validate_admin_session, revoke_admin_session, session_statements,
  new_session, upsert_pin, reset_row, is_open_session, is_live_session, accept_session,
  csrf_matches, next_idle, record_lock,
}

-- A session that lets an administrator in: the device's own, not revoked, within both limits, with
-- the CSRF token that belongs to it where one is asked for.
pub record IsAccepted (device_id : Text) (hash : Hash) (csrf : Option Hash) (now : Time)
    (db : Database) : Type 0 where
  pub session : SessionRow
  pub opened : Among session db.admin_sessions
  pub owned : session.device_id ≡ device_id
  pub secret : session.session_hash ≡ hash
  pub unrevoked : session.revoked_at ≡ none
  pub awake : time_text_lt (database_time now) session.idle_expires_at ≡ true
  pub unexpired : time_text_lt (database_time now) session.absolute_expires_at ≡ true
  pub guarded : (csrf ≡ none) ⊎ (csrf ≡ some session.csrf_hash)

accept_session-csrf :
    (s : SessionRow) (device_id : Text) (hash : Hash) (csrf : Option Hash) (now : Time)
    (refresh : Bool) (db : Database)
    → (accept_session s device_id hash csrf now refresh db).0 ≡ ok true
    → (csrf ≡ none) ⊎ (csrf ≡ some s.csrf_hash)
unfolding accept_session
accept_session-csrf s device_id hash none now refresh db h = inl refl
accept_session-csrf s device_id hash (some c) now refresh db h = inr (ground arith)

-- A session is accepted only if it is stored with this device and this token, not revoked, before
-- both limits, and, where a CSRF token is asked for, with that token.
pub validate_admin_session-IsAccepted :
    (device_id : Text) (hash : Hash) (csrf : Option Hash) (now : Time) (refresh : Bool)
    (db : Database)
    → (validate_admin_session device_id hash csrf now refresh db).0 ≡ ok true
    → IsAccepted device_id hash csrf now db
unfolding validate_admin_session is_live_session is_null
validate_admin_session-IsAccepted device_id hash csrf now refresh db h =
    elim (Option-cases
      (find_row (is_live_session device_id hash (database_time now)) db.admin_sessions)) [
        | inl e ↦ absurd (ground arith)
        | inr (s, e) ↦
            let live = find_row-holds _ db.admin_sessions s e in
            record {
              session = s;
              opened = find_row-Among _ db.admin_sessions s e;
              owned = ground (arith, text_eq_iff s.device_id device_id);
              secret = ground arith;
              unrevoked = ground arith;
              awake = ground arith;
              unexpired = ground arith;
              guarded = accept_session-csrf s device_id hash csrf now refresh db (ground arith);
            }
      ]

-- The renewed idle limit: ten minutes from now, and never past the absolute limit.
pub next_idle_bounds :
    (now absolute : Time)
    → (next_idle now absolute ≤ absolute)
      × (next_idle now absolute ≤ now + 10 * minute)
      × ((next_idle now absolute ≡ absolute) ⊎ (next_idle now absolute ≡ now + 10 * minute))
unfolding next_idle
next_idle_bounds now absolute = ground arith

upsert_pin-sessions :
    (device_id : Text) (now : TimeText) (db db' : Database)
    → upsert_pin
        (record { device_id = device_id; failed_count = 0; blocked_until = none; updated_at = now })
        (reset_row now)
        db
      ≡ ok db'
    → db'.admin_sessions ≡ db.admin_sessions
unfolding upsert_pin
upsert_pin-sessions device_id now db db' h = ground arith

session_statements-sessions :
    (session : SessionRow) (now : TimeText) (db db' : Database)
    → session_statements session now db ≡ ok db'
    → db'.admin_sessions ≡ (revoke_sessions session.device_id now db).admin_sessions ++ session ∷ []
unfolding session_statements insert_session insert_event upsert_pin revoke_sessions
session_statements-sessions session now db db' h = ground arith

pub is_open : Text → SessionRow → Bool
is_open device_id s = text_eq s.device_id device_id && is_null s.revoked_at

module _ (device_id session_id : Text) (session_hash csrf_hash : Hash) (idle absolute now : Time)
    (db db' : Database)
    (created : create_admin_session device_id session_id session_hash csrf_hash idle absolute now db
      ≡ (ok tt, db'))
    (near : absolute < year_10000) where
  abbrev session : SessionRow
  session = new_session device_id session_id session_hash csrf_hash idle absolute now

  created-sessions :
      db'.admin_sessions
      ≡ (revoke_sessions device_id (database_time now) db).admin_sessions ++ session ∷ []
  unfolding create_admin_session commit
  created-sessions = session_statements-sessions session (database_time now) db db' (ground arith)

  earlier-revoked : SessionsRevoked device_id (revoke_sessions device_id (database_time now) db)
  earlier-revoked = revoke_sessions-AllRows device_id (database_time now) db

  -- The sessions that the device had are not live, whatever the token.
  earlier-not_live :
      (hash : Hash) (later : TimeText)
      → AllRows
          (λ (s : SessionRow). is_live_session device_id hash later s ≡ false)
          (revoke_sessions device_id (database_time now) db).admin_sessions
  unfolding is_live_session
  earlier-not_live hash later = AllRows-mono _ _ _ (λ s h. ground (arith, h)) earlier-revoked

  find-created :
      (hash : Hash) (later : TimeText)
      → find_row (is_live_session device_id hash later) db'.admin_sessions
        ≡ (if is_live_session device_id hash later session then some session else none)
  unfolding find_row
  find-created hash later =
      ap (find_row (is_live_session device_id hash later)) created-sessions
      ∙ find_row-append _ (revoke_sessions device_id (database_time now) db).admin_sessions
          (session ∷ []) (find_row-eq_none _ _ (earlier-not_live hash later))

  accept-created :
      (hash : Hash) (csrf : Option Hash) (later : Time) (refresh : Bool)
      → (accept_session session device_id hash csrf later refresh db').0
        ≡ ok (csrf_matches csrf csrf_hash)
  unfolding accept_session
  accept-created hash csrf later refresh = ground (arith, parse-database_time_early absolute near)

  -- Where its limit lies before year 10000, unlocking leaves the device one session that is not revoked, the new one. It is accepted
  -- exactly with its own token and, where one is asked for, its own CSRF token, before both limits;
  -- every other session of the device is refused.
  pub create_admin_session-exact :
      (count_rows (is_open device_id) db'.admin_sessions ≡ 1)
      × ((hash : Hash) (csrf : Option Hash) (later : Time) (refresh : Bool)
          → (validate_admin_session device_id hash csrf later refresh db').0
            ≡ ok (
                session_hash == hash
                && time_text_lt (database_time later) (database_time idle)
                && time_text_lt (database_time later) (database_time absolute)
                && csrf_matches csrf csrf_hash))
  unfolding is_open validate_admin_session is_live_session count_rows is_null
  create_admin_session-exact = (
    ap (count_rows (is_open device_id)) created-sessions
        ∙ count_rows-append _ (revoke_sessions device_id (database_time now) db).admin_sessions _
        ∙ ground (
          arith,
          text_eq_refl device_id,
          count_rows-eq_zero (is_open device_id)
              (revoke_sessions device_id (database_time now) db).admin_sessions
              (AllRows-mono _ _ _ (λ s h. ground (arith, h)) earlier-revoked),
        ),
    λ hash csrf later refresh. ground (
      arith,
      find-created hash (database_time later),
      accept-created hash csrf later refresh,
      text_eq_refl device_id,
    ),
  )

locked-sessions :
    (device_id : Text) (hash : Hash) (now : Time) (db : Database)
    → (revoke_admin_session device_id hash now db).1.admin_sessions
      ≡ update_rows
          (is_open_session device_id hash)
          (λ (s : SessionRow). record s { revoked_at = some (database_time now) })
          db.admin_sessions
unfolding revoke_admin_session record_lock insert_event
locked-sessions device_id hash now db = ground arith

locked :
    (device_id : Text) (hash : Hash) (now : Time) (db : Database)
    → AllRows
        (λ (s : SessionRow). is_open_session device_id hash s ≡ false)
        (revoke_admin_session device_id hash now db).1.admin_sessions
unfolding is_open_session
locked device_id hash now db =
    subst (AllRows _) (sym (locked-sessions device_id hash now db))
      (AllRows-update_rows _ _ _ db.admin_sessions (λ s. ground arith))

-- A session that was locked is refused from then on and validation changes nothing, also when the
-- lock could not be recorded.
pub revoke_admin_session-locks :
    (device_id : Text) (hash : Hash) (now later : Time) (csrf : Option Hash) (refresh : Bool)
    (db : Database)
    → let left = (revoke_admin_session device_id hash now db).1 in
      validate_admin_session device_id hash csrf later refresh left ≡ (ok false, left)
unfolding validate_admin_session is_live_session
revoke_admin_session-locks device_id hash now later csrf refresh db = ground (
  arith,
  find_row-eq_none (is_live_session device_id hash (database_time later))
      (revoke_admin_session device_id hash now db).1.admin_sessions
      (AllRows-mono _ _ _ (λ s h. ground (arith, h)) (locked device_id hash now db)),
)
