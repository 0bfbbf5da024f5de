-- ===== src/App/Push.antt =====
-- pushConfig, and the subscriptions of internal/app/push.go.
pub mod Delivery
use family_dashboard.Common.{
  ℕ, Bool, true, false, not, ◌&&◌, ◌||◌, Option, none, some, List, [], ◌∷◌, ltb, leb, ◌==◌,
  if◌then◌else◌, Text, codes, trim_space, text_eq, byte_length, length,
}
use family_dashboard.Time.{Time}
use family_dashboard.Security.Vapid.{is_uncompressed_point}
use family_dashboard.Database.State.{
  Database, DeviceType, parent_mobile, shared_tablet, Hash, Result, ok, err, Outcome,
  unauthenticated,
}
use family_dashboard.Database.Setup.{Device}
use family_dashboard.Database.Admin.{validate_admin_session}
use family_dashboard.Database.Push.{
  PushSubscription, push_subscription_active, active_push_subscription, replace_push_subscription,
  revoke_push_subscription,
}
use family_dashboard.App.{
  Url, Platform, Config, Request, Answer, granted, denied, forbidden, server_error, invalid_request,
  push_unavailable, push_admin_required, invalid_subscription, not_subscribed, delivery_failed,
  delivery_rejected, subscription_expired,
}
use family_dashboard.App.Access.{authenticated_device, admin_session_cookie, valid_same_origin}
use family_dashboard.App.Handlers.{for_device}

-- `pushEligibleDevice`.
unfoldable pub push_eligible : DeviceType → Bool
push_eligible parent_mobile = true
push_eligible shared_tablet = true
push_eligible kind = false

-- `validVAPIDPublicKey`.
unfoldable pub valid_vapid_public_key : Platform → Text → Bool
unfolding is_uncompressed_point
valid_vapid_public_key lib value = elim (lib.decode_base64_url value) [
  | none ↦ false
  | some bytes ↦ is_uncompressed_point bytes
]

-- `validPushKey`.
unfoldable pub valid_push_key : Platform → Text → ℕ → Bool
valid_push_key lib value expected =
    if byte_length value == 0 || ltb 256 (byte_length value)
    then false
    else elim (lib.decode_base64_url value) [ none ↦ false | some bytes ↦ length bytes == expected ]

-- The conditions on the parts of an endpoint.
unfoldable pub is_push_url : Url → Bool
is_push_url url =
    text_eq url.scheme (codes "https")
    && not (text_eq url.host [])
    && not url.has_user
    && text_eq url.fragment []

-- `validPushEndpoint`.
unfoldable pub valid_push_endpoint : Platform → Text → Bool
unfolding is_push_url
valid_push_endpoint lib value =
    if byte_length value == 0 || ltb 2048 (byte_length value)
    then false
    else elim (lib.parse_url value) [ none ↦ false | some url ↦ is_push_url url ]

-- What `pushConfig` answers.
pub record PushConfig : Type 0 where
  pub enabled : Bool
  pub eligible : Bool
  pub subscribed : Bool
  pub public_key : Text

-- `pushConfig`.
unfoldable pub push_config :
    Platform → Config → Request → Time → Database → Answer PushConfig × Database
unfolding for_device push_eligible valid_vapid_public_key
push_config lib config r now db =
    for_device (authenticated_device lib config r now db) λ device left.
      let eligible = push_eligible device.device_type in
      let enabled = eligible && valid_vapid_public_key lib config.vapid_public_key in
      (
        granted (record {
          enabled = enabled;
          eligible = eligible;
          subscribed = eligible && push_subscription_active device.id left;
          public_key = if enabled then config.vapid_public_key else [];
        }),
        left,
      )

-- The body of `replacePushSubscription`; the expiry is not used.
pub record PushRequest : Type 0 where
  pub endpoint : Text
  pub p256dh : Text
  pub auth : Text

unfoldable pub valid_subscription : Platform → PushRequest → Bool
unfolding valid_push_endpoint valid_push_key
valid_subscription lib q =
    valid_push_endpoint lib (trim_space q.endpoint)
    && valid_push_key lib q.p256dh 65
    && valid_push_key lib q.auth 16

unfoldable pub subscription_of : Platform → PushRequest → Text → Text → Time → PushSubscription
subscription_of lib q id device_id now = record {
  id = id;
  device_id = device_id;
  endpoint = trim_space q.endpoint;
  endpoint_hash = lib.sha256 (trim_space q.endpoint);
  p256dh = q.p256dh;
  auth = q.auth;
  now = now;
}

unfoldable pub stored_answer : Outcome (Unit {0}) → Answer (Unit {0}) × Database
stored_answer (ok u, db) = (granted tt, db)
stored_answer (err e, db) = (denied server_error, db)

unfoldable pub replace_decoded :
    Platform → Text → Time → Device → Option PushRequest → Database → Answer (Unit {0}) × Database
unfolding stored_answer subscription_of valid_subscription
replace_decoded lib id now device none db = (denied invalid_request, db)
replace_decoded lib id now device (some q) db =
    if valid_subscription lib q
    then stored_answer (replace_push_subscription (subscription_of lib q id device.id now) db)
    else (denied invalid_subscription, db)

unfoldable pub replace_for :
    Platform
    → Config
    → Option PushRequest
    → Text
    → Time
    → Device
    → Database
    → Answer (Unit {0}) × Database
unfolding replace_decoded push_eligible valid_vapid_public_key
replace_for lib config body id now device db =
    if push_eligible device.device_type && valid_vapid_public_key lib config.vapid_public_key
    then replace_decoded lib id now device body db
    else (denied push_unavailable, db)

-- `replacePushSubscription`, with the id that it draws.
unfoldable pub replace_subscription :
    Platform
    → Config
    → Request
    → Option PushRequest
    → Text
    → Time
    → Time
    → Database
    → Answer (Unit {0}) × Database
unfolding for_device replace_for valid_same_origin
replace_subscription lib config r body id now later db =
    if valid_same_origin lib r config.secure_cookies
    then for_device (authenticated_device lib config r now db)
        (replace_for lib config body id later)
    else (denied forbidden, db)

unfoldable pub revoke_for : Time → Device → Database → Answer (Unit {0}) × Database
unfolding push_eligible
revoke_for now device db =
    if push_eligible device.device_type
    then (granted tt, revoke_push_subscription device.id now db)
    else (denied push_unavailable, db)

-- `revokePushSubscription`.
unfoldable pub revoke_subscription :
    Platform → Config → Request → Time → Time → Database → Answer (Unit {0}) × Database
unfolding for_device revoke_for valid_same_origin
revoke_subscription lib config r now later db =
    if valid_same_origin lib r config.secure_cookies
    then for_device (authenticated_device lib config r now db) (revoke_for later)
    else (denied forbidden, db)
