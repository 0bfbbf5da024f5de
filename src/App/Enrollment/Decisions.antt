-- ===== src/App/Enrollment/Decisions.antt =====
-- What `submitEnrollment` of internal/app/enrollment.go lets in, and what the decisions of an
-- administrator change.
use family_dashboard.Common.{
  ◌≡◌, ◌⊎◌, subst, inl, inr, refl, true, ◌&&◌, Option, none, some, ◌==◌, arith, Text, Among,
  find_row, count_rows, find_row-holds, count_rows-found, Among-update_rows, Bool-cases,
  Option-cases, text_eq→eq, trim_space, byte_length,
}
use family_dashboard.Time.{Time, database_time, time_text_lt}
use family_dashboard.Database.State.{
  Database, EnrollmentRow, DeviceType, trusted_pc, shared_tablet, tv, parent_mobile, Owner,
  submitted, approved, Hash, ok, err, Outcome, commit,
}
use family_dashboard.Database.Setup.{Device}
use family_dashboard.Database.Enrollment.{decidable, decide, decision_statement, approve_enrollment}
use family_dashboard.Database.Requests.{
  Enrollment, enrollment_of, submit_enrollment, submittable, submit_row, type_allowed, same_type,
}
use family_dashboard.Database.Enrollment.Lifecycle.{same_status→eq}
use family_dashboard.Database.Enrollment.Claims.{Submitted, submit_enrollment-Submitted}
use family_dashboard.App.{Platform, Config, Request, granted, Denial, not_approvable}
use family_dashboard.App.Access.{
  request_in_networks, request_from_tailscale, valid_same_origin, require_admin,
  authenticated_device, is_trusted_pc,
}
use family_dashboard.App.Access.Guards.{IsAdmitted, HoldsSession, asked, require_admin-granted}
use family_dashboard.App.Handlers.Writes.{for_device-granted}
use family_dashboard.App.Setup.{name_fits}
use family_dashboard.App.Enrollment.{unless_invalid, approve_request}
use family_dashboard.App.Submission.{
  SubmitRequest, SubmitValues, Submission, submit_values, optional_type, optional_owner,
  decoded_values, submit_reachable, is_parent_mobile, submit_answer, submit_checked,
  submit_enrollment_request,
}

same_type→eq : (a b : DeviceType) → same_type a b ≡ true → a ≡ b
unfolding same_type
same_type→eq trusted_pc b h = ground arith
same_type→eq parent_mobile b h = ground arith
same_type→eq shared_tablet b h = ground arith
same_type→eq tv b h = ground arith

submission-type :
    (code claim : Hash) (name : Text) (owner : Option Owner) (required : Option DeviceType)
    (now : Time) (db : Database) (result : Enrollment)
    → (submit_enrollment code claim name owner required now db).0 ≡ ok result
    → type_allowed required result.requested_type ≡ true
unfolding submit_enrollment
submission-type code claim name owner required now db result h =
    elim (Option-cases
      (find_row (submittable code owner required (database_time now)) db.enrollment_requests)) [
        | inl e ↦ absurd (ground arith)
        | inr (r, e) ↦
            let holds = find_row-holds _ db.enrollment_requests r e in
            unfold submittable submit_row enrollment_of in ground arith
      ]

-- A submission that is let in.
pub record IsSubmission (lib : Platform) (config : Config) (r : Request)
    (body : Option SubmitRequest) (claim : Text) (now : Time) (db : Database) (s : Submission)
    : Type 0 where
  pub same_origin : valid_same_origin lib r config.secure_cookies ≡ true
  pub request : SubmitRequest
  pub posted : body ≡ some request
  pub eight : byte_length (trim_space request.code) ≡ 8
  pub named : name_fits (trim_space request.device_name) ≡ true
  pub owner : Option Owner
  pub result : Enrollment
  pub taken : Submitted (lib.sha256 (trim_space request.code)) owner now db result
  pub reachable :
      (request_in_networks lib r config.local_networks ≡ true)
      ⊎ ((request_from_tailscale r ≡ true) × (result.requested_type ≡ parent_mobile))
  pub answered : (s.id ≡ result.id) × (s.claim_token ≡ claim) × (s.expires_at ≡ result.expires_at)

submit_answer-granted :
    (claim : Text) (o : Outcome Enrollment) (s : Submission) (db' : Database)
    → submit_answer claim o ≡ (granted s, db')
    → (e : Enrollment) × (o.0 ≡ ok e)
      × ((s.id ≡ e.id) × (s.claim_token ≡ claim) × (s.expires_at ≡ e.expires_at))
unfolding submit_answer
submit_answer-granted claim (ok e, db) s db' h =
    (e, refl, (ground arith, ground arith, ground arith))
submit_answer-granted claim (err e, db) s db' h = absurd (ground arith)

submit_values-fits :
    (q : SubmitRequest) (v : SubmitValues)
    → submit_values q ≡ some v
    → (byte_length (trim_space q.code) ≡ 8)
      × (name_fits (trim_space q.device_name) ≡ true)
      × (v.code ≡ trim_space q.code)
unfolding submit_values
submit_values-fits q v h =
    elim (Bool-cases
      (byte_length (trim_space q.code) == 8 && name_fits (trim_space q.device_name))) [
        | inr f ↦ absurd (ground arith)
        | inl fits ↦ elim (Option-cases (optional_type q.device_type)) [
          | inl n ↦ absurd (ground arith)
          | inr (kind, k) ↦ elim (Option-cases (optional_owner q.owner)) [
            | inl n ↦ absurd (ground arith)
            | inr (owner, o) ↦ (ground arith, ground arith, ground arith)
          ]
        ]
      ]

remote_type :
    (kind : Option DeviceType) (requested : DeviceType)
    → is_parent_mobile kind ≡ true
    → type_allowed kind requested ≡ true
    → requested ≡ parent_mobile
unfolding is_parent_mobile type_allowed
remote_type none t k a = absurd (ground arith)
remote_type (some parent_mobile) t k a = same_type→eq t parent_mobile a
remote_type (some trusted_pc) t k a = absurd (ground arith)
remote_type (some shared_tablet) t k a = absurd (ground arith)
remote_type (some tv) t k a = absurd (ground arith)

reached :
    (lib : Platform) (config : Config) (r : Request) (kind : Option DeviceType) (e : Enrollment)
    → submit_reachable lib config r kind ≡ true
    → type_allowed kind e.requested_type ≡ true
    → (request_in_networks lib r config.local_networks ≡ true)
      ⊎ ((request_from_tailscale r ≡ true) × (e.requested_type ≡ parent_mobile))
unfolding submit_reachable
reached lib config r kind e h allowed =
    elim (Bool-cases (request_in_networks lib r config.local_networks)) [
      | inl home ↦ inl home
      | inr far ↦ inr (
        ground (arith, Bool-cases (request_from_tailscale r)),
        remote_type kind e.requested_type (ground (arith, Bool-cases (request_from_tailscale r)))
            allowed,
      )
    ]

-- A submission is accepted only on a request of the same origin whose code has eight bytes and
-- whose name 1 to 80 characters, for a pending request of this code that has not expired; and only
-- from the home network, or over Tailscale for a parent's mobile. The answer names the request that
-- was taken, and the claim token that was drawn.
pub submit_enrollment_request-IsSubmission :
    (lib : Platform) (config : Config) (r : Request) (body : Option SubmitRequest) (claim : Text)
    (now : Time) (db db' : Database) (s : Submission)
    → submit_enrollment_request lib config r body claim now db ≡ (granted s, db')
    → IsSubmission lib config r body claim now db s
unfolding submit_enrollment_request submit_checked decoded_values
submit_enrollment_request-IsSubmission lib config r none claim now db db' s h =
    absurd (ground (arith, Bool-cases (valid_same_origin lib r config.secure_cookies)))
submit_enrollment_request-IsSubmission lib config r (some q) claim now db db' s h =
    elim (Bool-cases (valid_same_origin lib r config.secure_cookies)) [
      | inr f ↦ absurd (ground arith)
      | inl origin ↦ elim (Option-cases (submit_values q)) [
        | inl n ↦ absurd (ground arith)
        | inr (v, e) ↦ elim (Bool-cases (submit_reachable lib config r v.device_type)) [
          | inr f ↦ absurd (ground arith)
          | inl reach ↦
              let (fits, named, code) = submit_values-fits q v e in
              let (result, done, answered) =
                submit_answer-granted claim
                  (submit_enrollment (lib.sha256 v.code) (lib.sha256 claim) v.device_name v.owner
                    v.device_type now db)
                  s db' (ground arith) in
              record {
                same_origin = origin;
                request = q;
                posted = refl;
                eight = fits;
                named = named;
                owner = v.owner;
                result = result;
                taken =
                    subst (λ (t : Text). Submitted (lib.sha256 t) v.owner now db result) code
                      (submit_enrollment-Submitted (lib.sha256 v.code) (lib.sha256 claim)
                        v.device_name v.owner v.device_type now db result done);
                reachable = reached lib config r v.device_type result reach (
                    submission-type (lib.sha256 v.code) (lib.sha256 claim) v.device_name v.owner
                      v.device_type now db result done);
                answered = answered;
              }
        ]
      ]
    ]

abbrev pub approved_row : Text → Time → EnrollmentRow → EnrollmentRow
approved_row by now r = record r {
  status = approved;
  approved_by_device_id = some by;
  decided_at = some (database_time now);
}

-- A request that an administrator has approved, before and after.
pub record Approved (id by : Text) (now : Time) (db db' : Database) : Type 0 where
  pub row : EnrollmentRow
  pub stored : Among row db.enrollment_requests
  pub named : row.id ≡ id
  pub waiting : row.status ≡ submitted
  pub in_time : time_text_lt (database_time now) row.expires_at ≡ true
  pub decided : Among (approved_row by now row) db'.enrollment_requests

approve_enrollment-Approved :
    (id by : Text) (now : Time) (db db' : Database)
    → approve_enrollment id by now db ≡ (ok tt, db')
    → Approved id by now db db'
unfolding approve_enrollment decision_statement decide commit
approve_enrollment-Approved id by now db db' h =
    let chosen = decidable id (database_time now) in
    elim (Bool-cases (count_rows chosen db.enrollment_requests == 1)) [
      | inr f ↦ absurd (ground arith)
      | inl one ↦
          let (row, among, holds) = count_rows-found chosen db.enrollment_requests (ground arith) in
          record {
            row = row;
            stored = among;
            named = text_eq→eq row.id id (unfold decidable in ground arith);
            waiting = same_status→eq row.status submitted (unfold decidable in ground arith);
            in_time = unfold decidable in ground arith;
            decided = subst (Among (approved_row by now row)) (ground arith) (
                Among-update_rows chosen (approved_row by now) db.enrollment_requests row among
                  holds);
          }
    ]

-- The approval of a request by an administrator.
pub record IsApproval (lib : Platform) (config : Config) (r : Request) (id : Text)
    (now later last : Time) (db db' : Database) : Type 0 where
  pub device : Device
  pub admitted : IsAdmitted lib config r now db device
  pub at_pc : is_trusted_pc device.device_type ≡ true
  pub held :
      HoldsSession lib config r
        (asked lib r true)
        later
        (authenticated_device lib config r now db).1
        device
  pub left : Database
  pub guarded : require_admin lib config r true now later db ≡ (granted device, left)
  pub approval : Approved id device.id last left db'

unless_invalid-ok :
    (invalid : Denial) (o : Outcome (Unit {0})) (db' : Database)
    → unless_invalid invalid (tt {0}) o ≡ (granted (tt {0}), db')
    → o ≡ (ok tt, db')
unfolding unless_invalid
unless_invalid-ok invalid (ok u, db) db' h = ground arith
unless_invalid-ok invalid (err e, db) db' h = absurd (ground arith)

-- `approveEnrollment` succeeds only for a trusted PC that its cookie identifies and that holds an
-- administrator session, on a request of the same origin with the CSRF token of the session; then a
-- request of the id in the path, submitted and not expired, has become approved, by this PC.
pub approve_request-IsApproval :
    (lib : Platform) (config : Config) (r : Request) (id : Text) (now later last : Time)
    (db db' : Database)
    → approve_request lib config r id now later last db ≡ (granted tt, db')
    → IsApproval lib config r id now later last db db'
unfolding approve_request
approve_request-IsApproval lib config r id now later last db db' h =
    let (device, guarded, next) =
      for_device-granted (require_admin lib config r true now later db) _ tt db' h in
    let left = (require_admin lib config r true now later db).1 in
    let (admitted, pc, held) =
      require_admin-granted lib config r true now later db left device guarded in
    record {
      device = device;
      admitted = admitted;
      at_pc = pc;
      held = held;
      left = left;
      guarded = guarded;
      approval =
          approve_enrollment-Approved id device.id last left db'
            (unless_invalid-ok not_approvable (approve_enrollment id device.id last left) db' next);
    }
