-- ===== src/App.antt =====
-- internal/app: what a request carries, what a handler answers, and the guards and handlers.
pub mod Access
pub mod Handlers
pub mod Unlock
pub mod Status
pub mod Setup
pub mod Credentials
pub mod Submission
pub mod Enrollment
pub mod Push
pub mod TestPush
pub mod Startup
pub mod Files
pub mod Samples
pub mod Examples
pub mod UnlockExamples
pub mod StatusExamples
pub mod SetupExamples
pub mod EnrollmentExamples
pub mod PushExamples
use family_dashboard.Common.{ℕ, ◌*◌, Bool, Option, List, Text}
use family_dashboard.Time.{Time, hour}
use family_dashboard.Database.State.{Hash}

-- What `url.Parse` gives of an address; `has_user` says whether `User` is not nil.
pub record Url : Type 0 where
  pub scheme : Text
  pub has_user : Bool
  pub host : Text
  pub fragment : Text

-- The functions of Go's packages that the handlers call: `sha256.Sum256`, `url.Parse`,
-- `net.SplitHostPort` (its host), `netip.ParseAddr` followed by `Unmap`, with an address as the
-- number that it spells, `time.Parse` of the layout RFC3339, with the instant that is meant, and
-- `base64.RawURLEncoding.DecodeString`, with bytes as numbers.
pub record Platform : Type 0 where
  pub sha256 : Text → Hash
  pub parse_url : Text → Option Url
  pub split_host_port : Text → Option Text
  pub parse_addr : Text → Option ℕ
  pub parse_rfc3339 : Text → Option Time
  pub decode_base64_url : Text → Option (List ℕ)

-- The part of `Config` that the handlers read; a network stands for its `Contains`.
pub record Config : Type 0 where
  pub local_networks : List (ℕ → Bool)
  pub secure_cookies : Bool
  pub initial_setup_code : Text
  pub vapid_public_key : Text
  pub vapid_private_key : Text
  pub record_start : Bool

-- The cookies, headers and addresses of a request; a header that is absent is empty.
pub record Request : Type 0 where
  pub device_cookie : Option Text
  pub refresh_cookie : Option Text
  pub admin_cookie : Option Text
  pub csrf_token : Text
  pub origin : Text
  pub host : Text
  pub remote_addr : Text
  pub tailscale_user_login : Text
  pub tailscale_user_name : Text
  pub tailscale_user_profile_pic : Text

-- The answers other than success, each with its own status and code.
pub data Denial : Type 0 where
  unauthorized forbidden admin_required server_error : Denial
  not_found version_conflict wrong_participant version_required internal_error : Denial
  invalid_range range_too_large invalid_request invalid_time : Denial
  invalid_schedule bad_time_range schedule_participants_required : Denial
  temporarily_blocked pin_refused : Denial
  invalid_or_expired_code invalid_or_expired_claim local_network_required : Denial
  refresh_reuse_detected refresh_outside_home request_rejected : Denial
  not_approvable not_rejectable not_revokable : Denial
  push_unavailable push_admin_required invalid_subscription not_subscribed : Denial
  delivery_failed delivery_rejected subscription_expired : Denial

pub data Answer {ℓ} (A : Type ℓ) : Type ℓ where
  granted : A → Answer A
  denied : Denial → Answer A

-- The status code of the answer.
unfoldable pub status_code : Denial → ℕ
status_code unauthorized = 401
status_code forbidden = 403
status_code admin_required = 403
status_code server_error = 500
status_code not_found = 404
status_code version_conflict = 409
status_code wrong_participant = 400
status_code version_required = 400
status_code internal_error = 500
status_code invalid_range = 400
status_code range_too_large = 400
status_code invalid_request = 400
status_code invalid_time = 400
status_code invalid_schedule = 400
status_code bad_time_range = 400
status_code schedule_participants_required = 400
status_code temporarily_blocked = 429
status_code pin_refused = 401
status_code invalid_or_expired_code = 401
status_code invalid_or_expired_claim = 401
status_code local_network_required = 403
status_code refresh_reuse_detected = 401
status_code refresh_outside_home = 401
status_code request_rejected = 403
status_code not_approvable = 409
status_code not_rejectable = 409
status_code not_revokable = 409
status_code push_unavailable = 403
status_code push_admin_required = 403
status_code invalid_subscription = 400
status_code not_subscribed = 409
status_code delivery_failed = 502
status_code delivery_rejected = 502
status_code subscription_expired = 410

-- The tokens and ids that a handler draws for a device.
pub record Tokens : Type 0 where
  pub device_id : Text
  pub access_id : Text
  pub access_token : Text
  pub refresh_id : Text
  pub refresh_token : Text
  pub family_id : Text

-- What `setDeviceCookies` sets.
pub record DeviceCookies : Type 0 where
  pub access : Text
  pub refresh : Text

-- `accessLifetime` and `refreshLifetime`.
abbrev pub access_lifetime : ℕ
access_lifetime = 30 * 24 * hour

abbrev pub refresh_lifetime : ℕ
refresh_lifetime = 90 * 24 * hour
