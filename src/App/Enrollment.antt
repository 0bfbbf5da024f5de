-- ===== src/App/Enrollment.antt =====
-- claimEnrollment, the decisions and the lists of internal/app/enrollment.go.
pub mod Registration
pub mod Decisions
pub mod Progress
use family_dashboard.Common.{
  ℕ, ◌+◌, ◌*◌, Bool, true, false, not, ◌&&◌, ◌||◌, Option, none, some, List, [], ◌∷◌, ◌==◌, map,
  if◌then◌else◌, Text, codes, trim_space, text_eq, byte_length,
}
use family_dashboard.Time.{Time, minute}
use family_dashboard.Database.State.{
  Database, DeviceType, parent_mobile, shared_tablet, Owner, dad, mom, submitted, approved,
  rejected, Hash, Result, ok, err, Outcome, invalid_enrollment,
}
use family_dashboard.Database.Setup.{Device, InitialSetup}
use family_dashboard.Database.Enrollment.{
  is_local_only, approve_enrollment, reject_enrollment, complete_enrollment,
}
use family_dashboard.Database.Requests.{
  Enrollment, same_status, create_enrollment, submit_enrollment, enrollment_by_claim,
  list_enrollments,
}
use family_dashboard.Database.Devices.{DeviceSummary, list_devices, revoke_device}
use family_dashboard.App.{
  Platform, Config, Request, Denial, Answer, granted, denied, Tokens, DeviceCookies,
  access_lifetime, refresh_lifetime, forbidden, server_error, invalid_request,
  invalid_or_expired_code, invalid_or_expired_claim, local_network_required, request_rejected,
  not_approvable, not_rejectable, not_revokable,
}
use family_dashboard.App.Access.{
  request_from_tailscale, request_in_networks, valid_same_origin, require_admin,
}
use family_dashboard.App.Handlers.{for_device}
use family_dashboard.App.Setup.{cookies_of, name_fits}
use family_dashboard.App.Submission.{
  Submission, SubmitRequest, SubmitValues, Ticket, create_enrollment_request, create_typed,
  decoded_values, display_code, is_parent_mobile, named_type, optional_owner, optional_type,
  submit_answer, submit_checked, submit_enrollment_request, submit_reachable, submit_values,
  ticket_answer, wanted_type,
}

-- The end of the handlers over one call: what the database calls invalid has its own answer.
unfoldable pub unless_invalid {ℓ} :
    {A : Type ℓ} → Denial → A → Outcome (Unit {0}) → Answer A × Database
unless_invalid invalid answer (ok u, db) = (granted answer, db)
unless_invalid invalid answer (err invalid_enrollment, db) = (denied invalid, db)
unless_invalid invalid answer (err e, db) = (denied server_error, db)

-- What `claimEnrollment` answers when it does not refuse.
pub data Claim : Type 0 where
  awaiting_approval : Claim
  registered : DeviceCookies → Claim

-- The fields of `InitialSetup` that `claimEnrollment` fills; the others keep their zero values.
unfoldable pub claim_setup : Platform → Tokens → Time → InitialSetup
claim_setup lib tokens now = record {
  code_hash = 0;
  pin_hash = [];
  device_id = tokens.device_id;
  device_name = [];
  access_id = tokens.access_id;
  access_hash = lib.sha256 tokens.access_token;
  access_expires_at = now + access_lifetime;
  refresh_id = tokens.refresh_id;
  refresh_hash = lib.sha256 tokens.refresh_token;
  refresh_family_id = tokens.family_id;
  refresh_expires_at = now + refresh_lifetime;
  recovery_id = [];
  recovery_hash = 0;
  now = now;
}

-- The part behind the look-up of the request; `tombstone` is the token that replaces the claim.
unfoldable pub claim_found :
    Platform
    → Config
    → Request
    → Tokens
    → Text
    → Hash
    → Time
    → Database
    → Result Enrollment
    → Answer Claim × Database
unfolding unless_invalid claim_setup is_local_only same_status request_in_networks
claim_found lib config r tokens tombstone claim now db (err invalid_enrollment) =
    (denied invalid_or_expired_claim, db)
claim_found lib config r tokens tombstone claim now db (err e) = (denied server_error, db)
claim_found lib config r tokens tombstone claim now db (ok e) =
    if same_status e.status submitted
    then (granted awaiting_approval, db)
    else if same_status e.status rejected
    then (denied request_rejected, db)
    else if is_local_only e.requested_type && not (request_in_networks lib r config.local_networks)
    then (denied local_network_required, db)
    else unless_invalid invalid_or_expired_claim (registered (cookies_of tokens))
        (complete_enrollment claim (lib.sha256 tombstone) (claim_setup lib tokens now) e.owner db)

unfoldable pub claim_decoded :
    Platform
    → Config
    → Request
    → Tokens
    → Text
    → Option Text
    → Time
    → Database
    → Answer Claim × Database
unfolding claim_found
claim_decoded lib config r tokens tombstone none now db = (denied invalid_request, db)
claim_decoded lib config r tokens tombstone (some claim) now db =
    claim_found lib config r tokens tombstone (lib.sha256 claim) now db
      (enrollment_by_claim (lib.sha256 claim) now db)

-- `claimEnrollment`; the body is the claim token, or `none` where it does not decode.
unfoldable pub claim_enrollment :
    Platform
    → Config
    → Request
    → Tokens
    → Text
    → Option Text
    → Time
    → Database
    → Answer Claim × Database
unfolding claim_decoded valid_same_origin
claim_enrollment lib config r tokens tombstone body now db =
    if valid_same_origin lib r config.secure_cookies
    then claim_decoded lib config r tokens tombstone body now db
    else (denied forbidden, db)

unfoldable pub listing {ℓ} : {A : Type ℓ} → Result A → Answer A
listing (ok items) = granted items
listing (err e) = denied server_error

-- `listEnrollments`; an item stands for the JSON object of its fields.
unfoldable pub list_requests :
    Platform
    → Config
    → Request
    → Time
    → Time
    → Time
    → Database
    → Answer (List Enrollment) × Database
unfolding for_device listing
list_requests lib config r now later last db =
    for_device (require_admin lib config r false now later db)
      λ device left. (listing (list_enrollments last left), left)

-- `approveEnrollment` of the request that the path names.
unfoldable pub approve_request :
    Platform
    → Config
    → Request
    → Text
    → Time
    → Time
    → Time
    → Database
    → Answer (Unit {0}) × Database
unfolding for_device unless_invalid
approve_request lib config r id now later last db =
    for_device (require_admin lib config r true now later db)
      λ device left. unless_invalid not_approvable tt (approve_enrollment id device.id last left)

-- `rejectEnrollment` of the request that the path names.
unfoldable pub reject_request :
    Platform
    → Config
    → Request
    → Text
    → Time
    → Time
    → Time
    → Database
    → Answer (Unit {0}) × Database
unfolding for_device unless_invalid
reject_request lib config r id now later last db =
    for_device (require_admin lib config r true now later db)
      λ device left. unless_invalid not_rejectable tt (reject_enrollment id device.id last left)

-- `listDevices`; an item stands for the JSON object of its fields.
unfoldable pub list_all_devices :
    Platform → Config → Request → Time → Time → Database → Answer (List DeviceSummary) × Database
unfolding for_device listing
list_all_devices lib config r now later db =
    for_device (require_admin lib config r false now later db)
      λ device left. (listing (list_devices left), left)

unfoldable pub revoke_answer : Outcome (Unit {0}) → Answer (Unit {0}) × Database
revoke_answer (ok u, db) = (granted tt, db)
revoke_answer (err e, db) = (denied not_revokable, db)

-- `revokeDevice` of the device that the path names.
unfoldable pub revoke_named_device :
    Platform
    → Config
    → Request
    → Text
    → Time
    → Time
    → Time
    → Database
    → Answer (Unit {0}) × Database
unfolding for_device revoke_answer
revoke_named_device lib config r id now later last db =
    for_device (require_admin lib config r true now later db)
      λ device left. revoke_answer (revoke_device id device.id last left)
