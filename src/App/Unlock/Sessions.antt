-- ===== src/App/Unlock/Sessions.antt =====
-- What unlocking and locking of internal/app/admin.go do to the sessions of the device.
use family_dashboard.Common.{
  ap, subst, ◌+◌, ◌*◌, ◌≡◌, ◌≢◌, inl, inr, refl, Bool, true, false, ◌&&◌, Option, none, some, [],
  arith, Text, text_eq, ◌==◌, Bool-cases, ◌<◌,
}
use family_dashboard.Time.{Time, minute, hour, database_time, time_text_lt, year_10000}
use family_dashboard.Security.{Crypto, verify_pin}
use family_dashboard.Database.State.{Database, Hash, Result, ok, err, Outcome, pin_blocked}
use family_dashboard.Database.Setup.{Device}
use family_dashboard.Database.Admin.{
  pin_challenge, create_admin_session, validate_admin_session, revoke_admin_session, csrf_matches,
}
use family_dashboard.Database.Admin.Sessions.{
  create_admin_session-exact, revoke_admin_session-locks,
}
use family_dashboard.App.{Platform, Config, Request, granted}
use family_dashboard.App.Access.{
  authenticated_device, valid_same_origin, is_tv, admin_session_cookie,
}
use family_dashboard.App.Access.Guards.{IsAdmitted, authenticated_device-IsAdmitted}
use family_dashboard.App.Handlers.Writes.{for_device-granted}
use family_dashboard.App.Unlock.{
  Drawn, finished, open_session, failed, verified, challenged, unlock_device, unlock_admin,
  lock_valid, lock_admin,
}

finished-granted :
    (o : Outcome (Unit {0})) (db' : Database) → finished o ≡ (granted tt, db') → o ≡ (ok tt, db')
unfolding finished
finished-granted (ok tt, db) db' h = ground arith
finished-granted (err e, db) db' h = absurd (ground arith)

failed-refused : (o : Outcome Bool) (db' : Database) → failed o ≢ (granted tt, db')
unfolding failed
failed-refused (ok true, db) db' h = ground arith
failed-refused (ok false, db) db' h = ground arith
failed-refused (err e, db) db' h = ground arith

verified-granted :
    (lib : Platform) (drawn : Drawn) (now : Time) (device : Device) (db db' : Database)
    (o : Option Bool)
    → verified lib drawn now device db o ≡ (granted tt, db')
    → (o ≡ some true)
      × (create_admin_session device.id drawn.session_id
            (lib.sha256 drawn.session_token)
            (lib.sha256 drawn.csrf_token)
            (now + 10 * minute)
            (now + hour)
            now
            db
          ≡ (ok tt, db'))
unfolding verified open_session
verified-granted lib drawn now device db db' none h = absurd (ground arith)
verified-granted lib drawn now device db db' (some false) h = absurd (failed-refused _ db' h)
verified-granted lib drawn now device db db' (some true) h = (refl, finished-granted _ db' h)

challenged-granted :
    (lib : Platform) (crypto : Crypto) (drawn : Drawn) (pin : Text) (now : Time) (device : Device)
    (db db' : Database) (o : Result Text)
    → challenged lib crypto drawn pin now device db o ≡ (granted tt, db')
    → (hash : Text) × (o ≡ ok hash)
      × (verified lib drawn now device db (verify_pin crypto hash pin) ≡ (granted tt, db'))
unfolding challenged
challenged-granted lib crypto drawn pin now device db db' (ok hash) h = (hash, refl, h)
challenged-granted lib crypto drawn pin now device db db' (err pin_blocked) h =
    absurd (ground arith)
challenged-granted lib crypto drawn pin now device db db' (err e) h = absurd (ground arith)

unlock_device-granted :
    (lib : Platform) (crypto : Crypto) (drawn : Drawn) (body : Option Text) (now : Time)
    (device : Device) (db db' : Database)
    → unlock_device lib crypto drawn body now device db ≡ (granted tt, db')
    → (is_tv device.device_type ≡ false)
      × ((pin : Text) × (body ≡ some pin)
          × (challenged lib crypto drawn pin now device db (pin_challenge device.id now db)
              ≡ (granted tt, db')))
unfolding unlock_device
unlock_device-granted lib crypto drawn none now device db db' h =
    elim (Bool-cases (is_tv device.device_type)) [
      | inl b ↦ absurd (ground arith)
      | inr b ↦ absurd (ground arith)
    ]
unlock_device-granted lib crypto drawn (some pin) now device db db' h =
    elim (Bool-cases (is_tv device.device_type)) [
      | inl b ↦ absurd (ground arith)
      | inr b ↦ (b, (pin, refl, ground arith))
    ]

-- An unlock: by whom, with which PIN, and what it leaves.
pub record IsUnlock (lib : Platform) (crypto : Crypto) (config : Config) (r : Request)
    (drawn : Drawn) (body : Option Text) (now later : Time) (db db' : Database) : Type 0 where
  pub device : Device
  pub admitted : IsAdmitted lib config r now db device
  pub same_origin : valid_same_origin lib r config.secure_cookies ≡ true
  pub no_tv : is_tv device.device_type ≡ false
  pub pin : Text
  pub given : body ≡ some pin
  pub hash : Text
  pub unblocked :
      pin_challenge device.id later (authenticated_device lib config r now db).1 ≡ ok hash
  pub right : verify_pin crypto hash pin ≡ some true
  pub opened :
      (session : Hash) (csrf : Option Hash) (then_at : Time) (refresh : Bool)
      → (validate_admin_session device.id session csrf then_at refresh db').0
        ≡ ok (
            lib.sha256 drawn.session_token == session
            && time_text_lt (database_time then_at) (database_time (later + 10 * minute))
            && time_text_lt (database_time then_at) (database_time (later + hour))
            && csrf_matches csrf (lib.sha256 drawn.csrf_token))

-- `unlockAdmin` succeeds only on a request of the same origin, for a device that its cookie
-- identifies, that is no television and not blocked, and with the PIN whose hash is stored; then
-- the session that it drew, and no other of the device, is accepted, within its limits, which lie
-- before year 10000.
pub unlock_admin-IsUnlock :
    (lib : Platform) (crypto : Crypto) (config : Config) (r : Request) (drawn : Drawn)
    (body : Option Text) (now later : Time) (db db' : Database)
    → unlock_admin lib crypto config r drawn body now later db ≡ (granted tt, db')
    → later + hour < year_10000
    → IsUnlock lib crypto config r drawn body now later db db'
unfolding unlock_admin
unlock_admin-IsUnlock lib crypto config r drawn body now later db db' h near =
    elim (Bool-cases (valid_same_origin lib r config.secure_cookies)) [
      | inr b ↦ absurd (ground arith)
      | inl b ↦
          let (device, first, next) =
            for_device-granted (authenticated_device lib config r now db)
              (unlock_device lib crypto drawn body later) tt db' (ground arith) in
          let left : Database = (authenticated_device lib config r now db).1 in
          let (kind, (pin, given, asked)) =
            unlock_device-granted lib crypto drawn body later device left db' next in
          let (hash, free, ran) =
            challenged-granted lib crypto drawn pin later device left db'
              (pin_challenge device.id later left) asked in
          let (right, created) =
            verified-granted lib drawn later device left db' (verify_pin crypto hash pin) ran in
          record {
            device = device;
            admitted = authenticated_device-IsAdmitted lib config r now db _ device first;
            same_origin = b;
            no_tv = kind;
            pin = pin;
            given = given;
            hash = hash;
            unblocked = free;
            right = right;
            opened =
                (create_admin_session-exact device.id drawn.session_id
                  (lib.sha256 drawn.session_token) (lib.sha256 drawn.csrf_token)
                  (later + 10 * minute) (later + hour) later left db' created near).1;
          }
    ]

locked :
    (r : Request) (hash : Hash) (now : Time) (device : Device) (o : Outcome Bool) (db' : Database)
    → lock_valid r hash now device o ≡ (granted tt, db')
    → revoke_admin_session device.id hash now o.1 ≡ (ok tt, db')
unfolding lock_valid
locked r hash now device (err e, db) db' h = absurd (ground arith)
locked r hash now device (ok false, db) db' h = absurd (ground arith)
locked r hash now device (ok true, db) db' h = elim (Bool-cases (text_eq r.csrf_token [])) [
  | inl b ↦ absurd (ground arith)
  | inr b ↦ finished-granted _ db' (ground arith)
]

-- When `lockAdmin` succeeds on a request with the cookie of a session, the device was identified by
-- its own cookie, and the session of the request is not accepted from it any more.
pub lock_admin-locks :
    (lib : Platform) (config : Config) (r : Request) (now later last : Time) (hash : Hash)
    (db db' : Database)
    → admin_session_cookie lib r ≡ some hash
    → lock_admin lib config r now later last db ≡ (granted tt, db')
    → (device : Device) × IsAdmitted lib config r now db device
      × ((csrf : Option Hash) (then_at : Time) (refresh : Bool)
          → validate_admin_session device.id hash csrf then_at refresh db' ≡ (ok false, db'))
unfolding lock_admin
lock_admin-locks lib config r now later last hash db db' cookie h =
    let (device, first, next) =
      for_device-granted (authenticated_device lib config r now db) _ tt db' h in
    let left : Database = (authenticated_device lib config r now db).1 in
    let o : Outcome Bool =
      validate_admin_session device.id hash (some (lib.sha256 r.csrf_token)) later true left in
    let ran : revoke_admin_session device.id hash last o.1 ≡ (ok tt, db') =
      locked r hash last device o db' (ground arith) in
    (
      device,
      authenticated_device-IsAdmitted lib config r now db _ device first,
      λ csrf then_at refresh.
          subst
            (λ (d : Database).
              validate_admin_session device.id hash csrf then_at refresh d ≡ (ok false, d))
            (ap (λ (p : Outcome (Unit {0})). p.1) ran)
            (revoke_admin_session-locks device.id hash last then_at csrf refresh o.1),
    )
