-- ===== src/App/Unlock.antt =====
-- `unlockAdmin` and `lockAdmin` of internal/app/admin.go.
pub mod Sessions
use family_dashboard.Common.{
  ◌+◌, ◌*◌, Bool, true, false, not, ◌||◌, Option, none, some, [], if◌then◌else◌, Text, text_eq,
}
use family_dashboard.Time.{Time, minute, hour}
use family_dashboard.Security.{Crypto, verify_pin}
use family_dashboard.Database.State.{Database, Hash, Result, ok, err, Outcome, pin_blocked}
use family_dashboard.Database.Setup.{Device}
use family_dashboard.Database.Admin.{
  pin_challenge, record_pin_failure, create_admin_session, validate_admin_session,
  revoke_admin_session,
}
use family_dashboard.App.{
  Platform, Config, Request, Answer, granted, denied, forbidden, server_error, invalid_request,
  temporarily_blocked, pin_refused,
}
use family_dashboard.App.Access.{
  authenticated_device, valid_same_origin, is_tv, admin_session_cookie,
}
use family_dashboard.App.Handlers.{for_device}

-- The tokens that `unlockAdmin` draws.
pub record Drawn : Type 0 where
  pub session_token : Text
  pub csrf_token : Text
  pub session_id : Text

unfoldable pub finished : Outcome (Unit {0}) → Answer (Unit {0}) × Database
finished (ok u, db) = (granted tt, db)
finished (err e, db) = (denied server_error, db)

unfoldable pub open_session :
    Platform → Drawn → Time → Device → Database → Answer (Unit {0}) × Database
unfolding finished
open_session lib drawn now device db = finished (
    create_admin_session device.id drawn.session_id (lib.sha256 drawn.session_token)
      (lib.sha256 drawn.csrf_token) (now + 10 * minute) (now + hour) now db)

unfoldable pub failed : Outcome Bool → Answer (Unit {0}) × Database
failed (ok true, db) = (denied temporarily_blocked, db)
failed (ok false, db) = (denied pin_refused, db)
failed (err e, db) = (denied server_error, db)

unfoldable pub verified :
    Platform → Drawn → Time → Device → Database → Option Bool → Answer (Unit {0}) × Database
unfolding open_session failed
verified lib drawn now device db none = (denied server_error, db)
verified lib drawn now device db (some true) = open_session lib drawn now device db
verified lib drawn now device db (some false) = failed (record_pin_failure device.id now db)

unfoldable pub challenged :
    Platform
    → Crypto
    → Drawn
    → Text
    → Time
    → Device
    → Database
    → Result Text
    → Answer (Unit {0}) × Database
unfolding verified
challenged lib crypto drawn pin now device db (ok hash) =
    verified lib drawn now device db (verify_pin crypto hash pin)
challenged lib crypto drawn pin now device db (err pin_blocked) = (denied temporarily_blocked, db)
challenged lib crypto drawn pin now device db (err e) = (denied server_error, db)

-- What follows the identification; the body is the PIN, or `none` where it does not decode.
unfoldable pub unlock_device :
    Platform
    → Crypto
    → Drawn
    → Option Text
    → Time
    → Device
    → Database
    → Answer (Unit {0}) × Database
unfolding challenged is_tv
unlock_device lib crypto drawn none now device db =
    if is_tv device.device_type then (denied forbidden, db) else (denied invalid_request, db)
unlock_device lib crypto drawn (some pin) now device db =
    if is_tv device.device_type
    then (denied forbidden, db)
    else challenged lib crypto drawn pin now device db (pin_challenge device.id now db)

-- `unlockAdmin`; `now` and `later` are the readings of the clock.
unfoldable pub unlock_admin :
    Platform
    → Crypto
    → Config
    → Request
    → Drawn
    → Option Text
    → Time
    → Time
    → Database
    → Answer (Unit {0}) × Database
unfolding for_device unlock_device
unlock_admin lib crypto config r drawn body now later db =
    if valid_same_origin lib r config.secure_cookies
    then for_device (authenticated_device lib config r now db)
        (unlock_device lib crypto drawn body later)
    else (denied forbidden, db)

unfoldable pub lock_valid :
    Request → Hash → Time → Device → Outcome Bool → Answer (Unit {0}) × Database
unfolding finished
lock_valid r hash now device (err e, db) = (denied server_error, db)
lock_valid r hash now device (ok false, db) = (denied forbidden, db)
lock_valid r hash now device (ok true, db) =
    if text_eq r.csrf_token []
    then (denied forbidden, db)
    else finished (revoke_admin_session device.id hash now db)

-- `lockAdmin`; without the cookie there is nothing to lock.
unfoldable pub lock_admin :
    Platform → Config → Request → Time → Time → Time → Database → Answer (Unit {0}) × Database
unfolding for_device lock_valid admin_session_cookie
lock_admin lib config r now later last db =
    for_device (authenticated_device lib config r now db) λ device left.
      elim (admin_session_cookie lib r) [
        | none ↦ (granted tt, left)
        | some hash ↦
            lock_valid r hash last device (
              validate_admin_session device.id hash (some (lib.sha256 r.csrf_token)) later true
                left)
      ]
