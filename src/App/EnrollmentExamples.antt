-- ===== src/App/EnrollmentExamples.antt =====
-- The sample tablet over the handlers, from its submission to its cookies; and the PC's refresh.
use family_dashboard.Common.{
  ◌≡◌, refl, inl, none, some, List, [], ◌∷◌, Text, codes, text_eq, any_row, find_row, find_pair,
  count_rows, update_rows, sql_length, byte_length, trim_space, Among, arith,
}
use family_dashboard.Time.{database_time, parse_database_time, time_text_lt}
use family_dashboard.Database.State.{Database, EnrollmentRow, CredentialRow, approved}
use family_dashboard.Database.Admin.{create_admin_session}
use family_dashboard.Database.Enrollment.{approve_enrollment, complete_enrollment}
use family_dashboard.Database.Requests.{create_enrollment, submit_enrollment}
use family_dashboard.Database.Credentials.Reuse.{FamilyRevoked}
use family_dashboard.Database.Credentials.Rotation.{Rotated}
use family_dashboard.Database.Examples.{set_up, at_minute, ticketed, requested, accepted}
use family_dashboard.Database.Examples.Histories.{accepted-Reachable}
use family_dashboard.App.{Tokens, Answer, granted, denied, refresh_reuse_detected}
use family_dashboard.App.Access.{request_in_networks}
use family_dashboard.App.Samples.{lib, config, request}
use family_dashboard.App.Setup.{cookies_of}
use family_dashboard.App.Credentials.{cleared, replaced, rotation_of, refresh_device}
use family_dashboard.App.Credentials.Refreshing.{refresh_device_once}
use family_dashboard.App.Enrollment.{approve_request, claim_enrollment, claim_setup, registered}
use family_dashboard.App.Submission.{SubmitRequest, Submission, submit_enrollment_request}
use family_dashboard.App.Enrollment.Decisions.{
  IsSubmission, submit_enrollment_request-IsSubmission, IsApproval, approve_request-IsApproval,
}
use family_dashboard.App.Enrollment.Registration.{IsRegistration, claim_enrollment-IsRegistration}
use family_dashboard.App.Enrollment.Progress.{IsApproved, IsFresh, approved-registers}

abbrev tablet_request : SubmitRequest
tablet_request = record {
  code = codes "Q1234567";
  device_name = codes "Tablet";
  owner = [];
  device_type = [];
}

abbrev submission : Submission
submission = record { id = codes "e1"; claim_token = codes "R"; expires_at = at_minute 60 }

abbrev submitted_too : Database
submitted_too =
    (submit_enrollment_request lib config request (some tablet_request) (codes "R") (at_minute 3)
      ticketed).1

submission_ran :
    submit_enrollment_request lib config request
      (some tablet_request)
      (codes "R")
      (at_minute 3)
      ticketed
    ≡ (granted submission, submitted_too)
unfolding submit_enrollment_request parse_database_time database_time text_eq any_row sql_length
    find_row find_pair count_rows update_rows time_text_lt byte_length trim_space
    family_dashboard.App.Access.authenticated_device family_dashboard.App.Access.valid_same_origin
    request_in_networks family_dashboard.Database.Setup.complete_initial_setup
    family_dashboard.Database.Setup.device_by_access_token
    family_dashboard.Database.Setup.authenticates create_enrollment submit_enrollment
    approve_enrollment
submission_ran = refl

submit_enrollment_request-IsSubmission_example :
    IsSubmission lib config request
      (some tablet_request)
      (codes "R")
      (at_minute 3)
      ticketed
      submission
submit_enrollment_request-IsSubmission_example =
    submit_enrollment_request-IsSubmission lib config request (some tablet_request) (codes "R")
      (at_minute 3) ticketed submitted_too submission submission_ran

abbrev unlocked : Database
unlocked =
    (create_admin_session (codes "pc") (codes "s1") 61 62 (at_minute 30) (at_minute 50)
      (at_minute 20) requested).1

abbrev approved_too : Database
approved_too =
    (approve_request lib config request (codes "e1") (at_minute 21) (at_minute 22) (at_minute 23)
      unlocked).1

approval_ran :
    approve_request lib config request
      (codes "e1")
      (at_minute 21)
      (at_minute 22)
      (at_minute 23)
      unlocked
    ≡ (granted tt, approved_too)
unfolding approve_request family_dashboard.App.Access.require_admin create_admin_session
    family_dashboard.Database.Admin.validate_admin_session parse_database_time database_time text_eq
    any_row sql_length find_row find_pair count_rows update_rows time_text_lt byte_length trim_space
    family_dashboard.App.Access.authenticated_device family_dashboard.App.Access.valid_same_origin
    request_in_networks family_dashboard.Database.Setup.complete_initial_setup
    family_dashboard.Database.Setup.device_by_access_token
    family_dashboard.Database.Setup.authenticates create_enrollment submit_enrollment
    approve_enrollment
approval_ran = refl

approve_request-IsApproval_example :
    IsApproval lib config request
      (codes "e1")
      (at_minute 21)
      (at_minute 22)
      (at_minute 23)
      unlocked
      approved_too
approve_request-IsApproval_example =
    approve_request-IsApproval lib config request (codes "e1") (at_minute 21) (at_minute 22)
      (at_minute 23) unlocked approved_too approval_ran

abbrev tokens : Tokens
tokens = record {
  device_id = codes "tablet";
  access_id = codes "a2";
  access_token = codes "[";
  refresh_id = codes "r2";
  refresh_token = codes "]";
  family_id = codes "f2";
}

abbrev claimed : Database
claimed =
    (claim_enrollment lib config request tokens (codes "T") (some (codes "R")) (at_minute 5)
      accepted).1

claim_ran :
    claim_enrollment lib config request tokens (codes "T") (some (codes "R")) (at_minute 5) accepted
    ≡ (granted (registered (cookies_of tokens)), claimed)
unfolding claim_enrollment complete_enrollment parse_database_time database_time text_eq any_row
    sql_length find_row find_pair count_rows update_rows time_text_lt byte_length trim_space
    family_dashboard.App.Access.authenticated_device family_dashboard.App.Access.valid_same_origin
    request_in_networks family_dashboard.Database.Setup.complete_initial_setup
    family_dashboard.Database.Setup.device_by_access_token
    family_dashboard.Database.Setup.authenticates create_enrollment submit_enrollment
    approve_enrollment family_dashboard.Database.Requests.enrollment_by_claim
claim_ran = refl

claim_enrollment-IsRegistration_example :
    IsRegistration lib config request tokens (some (codes "R")) (at_minute 5) accepted claimed
claim_enrollment-IsRegistration_example =
    claim_enrollment-IsRegistration lib config request tokens (codes "T") (some (codes "R"))
      (at_minute 5) accepted claimed (cookies_of tokens) accepted-Reachable claim_ran

abbrev first_row : List EnrollmentRow → EnrollmentRow → EnrollmentRow
first_row [] r = r
first_row (x ∷ xs) r = x

abbrev approved_request : EnrollmentRow
approved_request = record {
  id = codes "e1";
  code_hash = 32;
  requested_type = family_dashboard.Database.State.shared_tablet;
  device_name = some (codes "Tablet");
  owner = none;
  status = approved;
  expires_at = database_time (at_minute 60);
  created_at = database_time (at_minute 2);
  submitted_at = some (database_time (at_minute 3));
  decided_at = some (database_time (at_minute 4));
  approved_by_device_id = some (codes "pc");
}

is_approved : IsApproved 32 (at_minute 5) accepted approved_request
unfolding family_dashboard.Database.Requests.submittable parse_database_time database_time text_eq
    any_row sql_length find_row find_pair count_rows update_rows time_text_lt byte_length trim_space
    family_dashboard.App.Access.authenticated_device family_dashboard.App.Access.valid_same_origin
    request_in_networks family_dashboard.Database.Setup.complete_initial_setup
    family_dashboard.Database.Setup.device_by_access_token
    family_dashboard.Database.Setup.authenticates create_enrollment submit_enrollment
    approve_enrollment
is_approved = record {
  stored = inl refl;
  secret = refl;
  decided = refl;
  expires = at_minute 60;
  dated = refl;
  readable = omega arith;
  in_time = refl;
  name = codes "Tablet";
  named = refl;
  long_enough = refl;
  short_enough = refl;
}

is_fresh : IsFresh (claim_setup lib tokens (at_minute 5)) 34 accepted
unfolding claim_setup parse_database_time database_time text_eq any_row sql_length find_row
    find_pair count_rows update_rows time_text_lt byte_length trim_space
    family_dashboard.App.Access.authenticated_device family_dashboard.App.Access.valid_same_origin
    request_in_networks family_dashboard.Database.Setup.complete_initial_setup
    family_dashboard.Database.Setup.device_by_access_token
    family_dashboard.Database.Setup.authenticates create_enrollment submit_enrollment
    approve_enrollment
is_fresh = record {
  device = refl;
  access = refl;
  refresh = refl;
  ids = refl;
  hashes = refl;
  replacement = refl;
}

approved-registers_example :
    (db' : Database) × (claim_enrollment lib config request tokens
        (codes "T")
        (some (codes "R"))
        (at_minute 5)
        accepted
      ≡ (granted (registered (cookies_of tokens)), db'))
unfolding claim_setup parse_database_time database_time text_eq any_row sql_length find_row
    find_pair count_rows update_rows time_text_lt byte_length trim_space
    family_dashboard.App.Access.authenticated_device family_dashboard.App.Access.valid_same_origin
    request_in_networks family_dashboard.Database.Setup.complete_initial_setup
    family_dashboard.Database.Setup.device_by_access_token
    family_dashboard.Database.Setup.authenticates create_enrollment submit_enrollment
    approve_enrollment family_dashboard.Database.Enrollment.is_local_only
approved-registers_example =
    approved-registers lib config request tokens (codes "T") (codes "R") (at_minute 5) accepted
      approved_request accepted-Reachable is_approved is_fresh refl refl

abbrev new_tokens : Tokens
new_tokens = record {
  device_id = [];
  access_id = codes "a9";
  access_token = codes "U";
  refresh_id = codes "r9";
  refresh_token = codes "V";
  family_id = [];
}

abbrev refreshed : Database
refreshed = (refresh_device lib config request new_tokens (at_minute 20) set_up).2

refresh_ran :
    refresh_device lib config request new_tokens (at_minute 20) set_up
    ≡ (granted tt, replaced (cookies_of new_tokens), refreshed)
unfolding refresh_device family_dashboard.Database.Credentials.rotate_refresh_credential
    parse_database_time database_time text_eq any_row sql_length find_row find_pair count_rows
    update_rows time_text_lt byte_length trim_space family_dashboard.App.Access.authenticated_device
    family_dashboard.App.Access.valid_same_origin request_in_networks
    family_dashboard.Database.Setup.complete_initial_setup
    family_dashboard.Database.Setup.device_by_access_token
    family_dashboard.Database.Setup.authenticates create_enrollment submit_enrollment
    approve_enrollment family_dashboard.Database.Credentials.refreshes
refresh_ran = refl

refresh_device_once_example :
    (replaced (cookies_of new_tokens) ≡ replaced (cookies_of new_tokens))
    × ((token : Text) × (request.refresh_cookie ≡ some token)
        × Rotated
            (lib.sha256 token)
            (rotation_of lib new_tokens (at_minute 20))
            (request_in_networks lib request config.local_networks)
            (at_minute 20)
            set_up
            refreshed
        × ((after : Database) × (refresh_device lib config request tokens (at_minute 25) refreshed
              ≡ (denied refresh_reuse_detected, cleared, after))
            × ((c : CredentialRow) × Among c set_up.device_credentials
                × (c.token_hash ≡ lib.sha256 token)
                × FamilyRevoked c.family_id after)))
refresh_device_once_example =
    refresh_device_once lib config request new_tokens tokens (at_minute 20) (at_minute 25) set_up
      refreshed (replaced (cookies_of new_tokens)) refresh_ran
