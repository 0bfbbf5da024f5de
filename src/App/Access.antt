-- ===== src/App/Access.antt =====
-- The guards of internal/app/admin.go, and requestInNetworks of internal/app/setup.go.
pub mod Guards
use family_dashboard.Common.{
  ℕ, ◌+◌, Bool, true, false, not, ◌&&◌, ◌||◌, Option, none, some, List, [], ◌∷◌, leb, if◌then◌else◌,
  Text, codes, text_eq, map, any_row,
}
use family_dashboard.Time.{Time}
use family_dashboard.Database.State.{
  Database, DeviceType, trusted_pc, tv, Hash, Result, ok, err, Outcome,
}
use family_dashboard.Database.Setup.{Device, device_by_access_token}
use family_dashboard.Database.Admin.{validate_admin_session}
use family_dashboard.App.{
  Url, Platform, Config, Request, Denial, Answer, granted, denied, unauthorized, forbidden,
  admin_required, server_error,
}

-- `requestFromTailscale`.
unfoldable pub request_from_tailscale : Request → Bool
request_from_tailscale r =
    not (text_eq r.tailscale_user_login [])
    || not (text_eq r.tailscale_user_name [])
    || not (text_eq r.tailscale_user_profile_pic [])

unfoldable pub remote_host : Platform → Request → Text
remote_host lib r = elim (lib.split_host_port r.remote_addr) [
  | none ↦ r.remote_addr
  | some host ↦ host
]

-- `requestInNetworks`.
unfoldable pub request_in_networks : Platform → Request → List (ℕ → Bool) → Bool
unfolding request_from_tailscale remote_host
request_in_networks lib r networks =
    if request_from_tailscale r then false else elim (lib.parse_addr (remote_host lib r)) [
      | none ↦ false
      | some address ↦ any_row (λ (network : ℕ → Bool). network address) networks
    ]

abbrev pub lower : ℕ → ℕ
lower c = if leb 65 c && leb c 90 then c + 32 else c

abbrev pub expected_scheme : Bool → Text
expected_scheme secure = if secure then codes "https" else codes "http"

-- `validSameOrigin`. `strings.EqualFold` on the letters of a scheme, which are ASCII.
unfoldable pub valid_same_origin : Platform → Request → Bool → Bool
valid_same_origin lib r secure =
    if text_eq r.origin [] then false else elim (lib.parse_url r.origin) [
      | none ↦ false
      | some url ↦
          text_eq url.host r.host && text_eq (map lower url.scheme) (expected_scheme secure)
    ]

unfoldable pub is_trusted_pc : DeviceType → Bool
is_trusted_pc trusted_pc = true
is_trusted_pc kind = false

unfoldable pub is_tv : DeviceType → Bool
is_tv tv = true
is_tv kind = false

-- What follows the look-up of the device: a device of the home network stays there.
unfoldable pub admitted : Platform → Config → Request → Outcome Device → Answer Device × Database
unfolding request_in_networks
admitted lib config r (ok device, db) =
    if device.local_only && not (request_in_networks lib r config.local_networks)
    then (denied unauthorized, db)
    else (granted device, db)
admitted lib config r (err e, db) = (denied unauthorized, db)

-- `authenticatedDevice`.
unfoldable pub authenticated_device :
    Platform → Config → Request → Time → Database → Answer Device × Database
unfolding admitted
authenticated_device lib config r now db = elim r.device_cookie [
  | none ↦ (denied unauthorized, db)
  | some token ↦ admitted lib config r (device_by_access_token (lib.sha256 token) now db)
]

-- `adminSessionCookie`.
unfoldable pub admin_session_cookie : Platform → Request → Option Hash
admin_session_cookie lib r = elim r.admin_cookie [
  | none ↦ none
  | some token ↦ if text_eq token [] then none else some (lib.sha256 token)
]

-- The end of both guards: the answer of `ValidateAdminSession`.
unfoldable pub session_answer : Device → Outcome Bool → Answer Device × Database
session_answer device (ok true, db) = (granted device, db)
session_answer device (ok false, db) = (denied admin_required, db)
session_answer device (err e, db) = (denied server_error, db)

-- `requireAdmin` once the device is known; `now` is the later reading of the clock.
unfoldable pub require_admin_of :
    Platform → Config → Request → Bool → Time → Device → Database → Answer Device × Database
unfolding is_trusted_pc admin_session_cookie valid_same_origin session_answer
require_admin_of lib config r state_change now device db =
    if is_trusted_pc device.device_type
    then elim (admin_session_cookie lib r) [
      | none ↦ (denied admin_required, db)
      | some hash ↦
          if state_change
          then if valid_same_origin lib r config.secure_cookies && not (text_eq r.csrf_token [])
            then session_answer device
                (validate_admin_session device.id hash (some (lib.sha256 r.csrf_token)) now true db)
            else (denied forbidden, db)
          else session_answer device (validate_admin_session device.id hash none now false db)
    ]
    else (denied forbidden, db)

unfoldable pub with_device :
    Answer Device × Database
    → (Device → Database → Answer Device × Database)
    → Answer Device × Database
with_device (granted device, db) next = next device db
with_device (denied why, db) next = (denied why, db)

-- `requireAdmin`.
unfoldable pub require_admin :
    Platform → Config → Request → Bool → Time → Time → Database → Answer Device × Database
unfolding with_device require_admin_of
require_admin lib config r state_change now later db =
    with_device (authenticated_device lib config r now db)
      (require_admin_of lib config r state_change later)

-- `requireContentAdmin` once the device is known.
unfoldable pub require_content_admin_of :
    Platform → Config → Request → Time → Device → Database → Answer Device × Database
unfolding is_tv admin_session_cookie valid_same_origin session_answer
require_content_admin_of lib config r now device db =
    if is_tv device.device_type || not (valid_same_origin lib r config.secure_cookies)
    then (denied forbidden, db)
    else elim (admin_session_cookie lib r) [
      | none ↦ (denied admin_required, db)
      | some hash ↦
          if text_eq r.csrf_token []
          then (denied forbidden, db)
          else session_answer device
              (validate_admin_session device.id hash (some (lib.sha256 r.csrf_token)) now true db)
    ]

-- `requireContentAdmin`.
unfoldable pub require_content_admin :
    Platform → Config → Request → Time → Time → Database → Answer Device × Database
unfolding with_device require_content_admin_of
require_content_admin lib config r now later db =
    with_device (authenticated_device lib config r now db)
      (require_content_admin_of lib config r later)
