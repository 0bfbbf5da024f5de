-- ===== src/App/TestPush.antt =====
-- `sendTestPush` and `requirePushAdmin` of internal/app/push.go.
use family_dashboard.Common.{
  ℕ, Bool, true, false, ◌||◌, Option, none, some, [], ltb, leb, ◌==◌, if◌then◌else◌, text_eq,
}
use family_dashboard.Time.{Time}
use family_dashboard.Database.State.{Database, Result, ok, err, Outcome, unauthenticated}
use family_dashboard.Database.Setup.{Device}
use family_dashboard.Database.Admin.{validate_admin_session}
use family_dashboard.Database.Push.{
  PushSubscription, active_push_subscription, revoke_push_subscription,
}
use family_dashboard.App.{
  Platform, Config, Request, Answer, granted, denied, forbidden, server_error, push_unavailable,
  push_admin_required, not_subscribed, delivery_failed, delivery_rejected, subscription_expired,
}
use family_dashboard.App.Access.{authenticated_device, admin_session_cookie, valid_same_origin}
use family_dashboard.App.Handlers.{for_device}
use family_dashboard.App.Push.{push_eligible}

unfoldable pub push_session : Device → Outcome Bool → Answer Device × Database
push_session device (ok true, db) = (granted device, db)
push_session device (ok false, db) = (denied push_admin_required, db)
push_session device (err e, db) = (denied server_error, db)

-- `requirePushAdmin` once the device is known.
unfoldable pub push_admin_of :
    Platform → Request → Time → Device → Database → Answer Device × Database
unfolding push_session push_eligible admin_session_cookie
push_admin_of lib r now device db =
    if push_eligible device.device_type
    then elim (admin_session_cookie lib r) [
      | none ↦ (denied push_admin_required, db)
      | some hash ↦
          if text_eq r.csrf_token []
          then (denied push_admin_required, db)
          else push_session device
              (validate_admin_session device.id hash (some (lib.sha256 r.csrf_token)) now true db)
    ]
    else (denied push_unavailable, db)

-- `requirePushAdmin`.
unfoldable pub require_push_admin :
    Platform → Config → Request → Time → Time → Database → Answer Device × Database
unfolding for_device push_admin_of valid_same_origin
require_push_admin lib config r now later db =
    if valid_same_origin lib r config.secure_cookies
    then for_device (authenticated_device lib config r now db) (push_admin_of lib r later)
    else (denied forbidden, db)

-- The answer to the status code of the push service, or to `none` where the delivery fails.
unfoldable pub delivered : Option ℕ → Time → Device → Database → Answer (Unit {0}) × Database
delivered none now device db = (denied delivery_failed, db)
delivered (some status) now device db =
    if status == 404 || status == 410
    then (denied subscription_expired, revoke_push_subscription device.id now db)
    else if ltb status 200 || leb 300 status
    then (denied delivery_rejected, db)
    else (granted tt, db)

unfoldable pub deliver :
    (PushSubscription → Option ℕ)
    → Time
    → Device
    → Database
    → Result PushSubscription
    → Answer (Unit {0}) × Database
unfolding delivered
deliver send now device db (err unauthenticated) = (denied not_subscribed, db)
deliver send now device db (err e) = (denied server_error, db)
deliver send now device db (ok subscription) = delivered (send subscription) now device db

-- `sendTestPush`; `send` stands for `webpush.SendNotificationWithContext` of the test message,
-- with the status code of its response.
unfoldable pub send_test_push :
    Platform
    → (PushSubscription → Option ℕ)
    → Config
    → Request
    → Time
    → Time
    → Time
    → Database
    → Answer (Unit {0}) × Database
unfolding for_device deliver
send_test_push lib send config r now later last db =
    for_device (require_push_admin lib config r now later db)
      λ device left. deliver send last device left (active_push_subscription device.id left)
