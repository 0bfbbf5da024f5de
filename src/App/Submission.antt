-- ===== src/App/Submission.antt =====
-- createEnrollment and submitEnrollment of internal/app/enrollment.go, and `NewDisplayCode` of internal/security/secret.go.
use family_dashboard.Common.{
  ℕ, ◌+◌, ◌*◌, Bool, true, false, ◌&&◌, ◌||◌, Option, none, some, List, [], ◌==◌, map,
  if◌then◌else◌, Text, codes, trim_space, text_eq, byte_length,
}
use family_dashboard.Time.{Time, minute}
use family_dashboard.Database.State.{
  Database, DeviceType, parent_mobile, shared_tablet, Owner, dad, mom, ok, err, Outcome,
  invalid_enrollment,
}
use family_dashboard.Database.Requests.{Enrollment, create_enrollment, submit_enrollment}
use family_dashboard.App.{
  Platform, Config, Request, Answer, granted, denied, forbidden, server_error, invalid_request,
  invalid_or_expired_code, local_network_required,
}
use family_dashboard.App.Access.{
  request_from_tailscale, request_in_networks, valid_same_origin, require_admin,
}
use family_dashboard.App.Handlers.{for_device}
use family_dashboard.App.Setup.{name_fits}

-- `NewDisplayCode` of the digits that it draws.
unfoldable pub display_code : List ℕ → Text
display_code digits = map (λ digit. b'0' + digit) digits

-- The types that a request can name.
unfoldable pub named_type : Text → Option DeviceType
named_type t =
    if text_eq t (codes "parent_mobile")
    then some parent_mobile
    else if text_eq t (codes "shared_tablet")
    then some shared_tablet
    else none

-- What `createEnrollment` answers.
pub record Ticket : Type 0 where
  pub id : Text
  pub requested_type : DeviceType
  pub code : Text
  pub expires_at : Time

unfoldable pub ticket_answer : Ticket → Outcome (Unit {0}) → Answer Ticket × Database
ticket_answer ticket (ok u, db) = (granted ticket, db)
ticket_answer ticket (err e, db) = (denied server_error, db)

unfoldable pub create_typed :
    Platform
    → Text
    → Option (List ℕ)
    → Time
    → Option DeviceType
    → Database
    → Answer Ticket × Database
unfolding ticket_answer display_code
create_typed lib id digits now none db = (denied invalid_request, db)
create_typed lib id none now (some kind) db = (denied server_error, db)
create_typed lib id (some drawn) now (some kind) db =
    let code = display_code drawn in
    let expires = now + 10 * minute in
    ticket_answer (record { id = id; requested_type = kind; code = code; expires_at = expires })
      (create_enrollment id (lib.sha256 code) kind expires now db)

-- The type of the body; `none` is a body that does not decode, and no body has the empty type.
unfoldable pub wanted_type : Option Text → Option DeviceType
unfolding named_type
wanted_type none = none
wanted_type (some t) = if text_eq t [] then some parent_mobile else named_type t

-- `createEnrollment`, with the digits of the code, or `none` where drawing them fails.
unfoldable pub create_enrollment_request :
    Platform
    → Config
    → Request
    → Option Text
    → Text
    → Option (List ℕ)
    → Time
    → Time
    → Time
    → Database
    → Answer Ticket × Database
unfolding for_device create_typed wanted_type
create_enrollment_request lib config r body id digits now later last db =
    for_device (require_admin lib config r true now later db)
      λ device left. create_typed lib id digits last (wanted_type body) left

-- The body of `submitEnrollment`.
pub record SubmitRequest : Type 0 where
  pub code : Text
  pub device_name : Text
  pub owner : Text
  pub device_type : Text

-- The same body with its texts read: `none` for an owner or a type is the empty text.
pub record SubmitValues : Type 0 where
  pub code : Text
  pub device_name : Text
  pub owner : Option Owner
  pub device_type : Option DeviceType

unfoldable pub optional_type : Text → Option (Option DeviceType)
unfolding named_type
optional_type t =
    if text_eq t []
    then some none
    else elim (named_type t) [ none ↦ none | some kind ↦ some (some kind) ]

unfoldable pub optional_owner : Text → Option (Option Owner)
optional_owner t =
    if text_eq t []
    then some none
    else if text_eq t (codes "dad")
    then some (some dad)
    else if text_eq t (codes "mom")
    then some (some mom)
    else none

-- The checks on the body.
unfoldable pub submit_values : SubmitRequest → Option SubmitValues
unfolding optional_type optional_owner name_fits
submit_values q =
    if byte_length (trim_space q.code) == 8 && name_fits (trim_space q.device_name)
    then elim (optional_type q.device_type) [
      | none ↦ none
      | some kind ↦ elim (optional_owner q.owner) [
        | none ↦ none
        | some owner ↦ some (record {
          code = trim_space q.code;
          device_name = trim_space q.device_name;
          owner = owner;
          device_type = kind;
        })
      ]
    ]
    else none

unfoldable pub is_parent_mobile : Option DeviceType → Bool
is_parent_mobile (some parent_mobile) = true
is_parent_mobile _ = false

-- Where a submission may come from: the home network, or over Tailscale for a parent's mobile.
unfoldable pub submit_reachable : Platform → Config → Request → Option DeviceType → Bool
unfolding is_parent_mobile request_from_tailscale request_in_networks
submit_reachable lib config r kind =
    request_in_networks lib r config.local_networks
    || (request_from_tailscale r && is_parent_mobile kind)

-- What `submitEnrollment` answers.
pub record Submission : Type 0 where
  pub id : Text
  pub claim_token : Text
  pub expires_at : Time

unfoldable pub submit_answer : Text → Outcome Enrollment → Answer Submission × Database
submit_answer claim (ok e, db) =
    (granted (record { id = e.id; claim_token = claim; expires_at = e.expires_at }), db)
submit_answer claim (err invalid_enrollment, db) = (denied invalid_or_expired_code, db)
submit_answer claim (err e, db) = (denied server_error, db)

unfoldable pub submit_checked :
    Platform
    → Config
    → Request
    → Text
    → Time
    → Database
    → Option SubmitValues
    → Answer Submission × Database
unfolding submit_answer submit_reachable
submit_checked lib config r claim now db none = (denied invalid_request, db)
submit_checked lib config r claim now db (some v) =
    if submit_reachable lib config r v.device_type
    then submit_answer claim (
        submit_enrollment (lib.sha256 v.code) (lib.sha256 claim) v.device_name v.owner v.device_type
          now db)
    else (denied local_network_required, db)

unfoldable pub decoded_values : Option SubmitRequest → Option SubmitValues
unfolding submit_values
decoded_values none = none
decoded_values (some q) = submit_values q

-- `submitEnrollment`, with the claim token that it draws.
unfoldable pub submit_enrollment_request :
    Platform
    → Config
    → Request
    → Option SubmitRequest
    → Text
    → Time
    → Database
    → Answer Submission × Database
unfolding submit_checked decoded_values valid_same_origin
submit_enrollment_request lib config r body claim now db =
    if valid_same_origin lib r config.secure_cookies
    then submit_checked lib config r claim now db (decoded_values body)
    else (denied forbidden, db)
