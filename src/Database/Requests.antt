-- ===== src/Database/Requests.antt =====
-- internal/database/enrollment.go: requests of enrollment, their submission and their look-up.
use family_dashboard.Common.{
  Bool, true, false, not, ◌&&◌, Option, none, some, List, [], ◌∷◌, ◌==◌, if◌then◌else◌, Text,
  find_row, any_row, update_rows, select_rows, sort_rows,
}
use family_dashboard.Time.{Time, TimeText, database_time, time_text_lt, parse_database_time}
use family_dashboard.Database.State.{
  Database, DeviceType, trusted_pc, parent_mobile, shared_tablet, tv, Owner, EnrollmentRow,
  EnrollmentStatus, pending, submitted, approved, rejected, expired, Hash, Result, ok, err, ◌>>=◌,
  Outcome, commit, invalid_enrollment, bad_time, constraint,
}
use family_dashboard.Database.Statements.{checked, insert_enrollment}

pub record Enrollment : Type 0 where
  pub id : Text
  pub requested_type : DeviceType
  pub device_name : Option Text
  pub owner : Option Owner
  pub status : EnrollmentStatus
  pub expires_at : Time

unfoldable pub same_type : DeviceType → DeviceType → Bool
same_type trusted_pc trusted_pc = true
same_type parent_mobile parent_mobile = true
same_type shared_tablet shared_tablet = true
same_type tv tv = true
same_type _ _ = false

unfoldable pub same_status : EnrollmentStatus → EnrollmentStatus → Bool
same_status pending pending = true
same_status submitted submitted = true
same_status approved approved = true
same_status rejected rejected = true
same_status expired expired = true
same_status _ _ = false

-- `requested_type IN ('parent_mobile', 'shared_tablet', 'tv')`.
unfoldable pub enrollable : DeviceType → Bool
enrollable trusted_pc = false
enrollable parent_mobile = true
enrollable shared_tablet = true
enrollable tv = true

abbrev pub new_request : Text → Hash → DeviceType → Time → Time → EnrollmentRow
new_request id code_hash requested_type expires_at now = record {
  id = id;
  code_hash = code_hash;
  requested_type = requested_type;
  device_name = none;
  owner = none;
  status = pending;
  expires_at = database_time expires_at;
  created_at = database_time now;
  submitted_at = none;
  decided_at = none;
  approved_by_device_id = none;
}

-- `CreateEnrollment`.
unfoldable pub create_enrollment :
    Text → Hash → DeviceType → Time → Time → Database → Outcome (Unit {0})
unfolding insert_enrollment checked enrollable commit
create_enrollment id code_hash requested_type expires_at now db = commit db (
    if enrollable requested_type
    then insert_enrollment (new_request id code_hash requested_type expires_at now) db
    else err constraint)

-- `? = '' OR requested_type = ?`; no required type is the empty text.
unfoldable pub type_allowed : Option DeviceType → DeviceType → Bool
unfolding same_type
type_allowed none requested = true
type_allowed (some required) requested = same_type requested required

-- A parent's mobile has an owner, a shared tablet has none, nothing else can be submitted.
unfoldable pub owner_allowed : DeviceType → Option Owner → Bool
owner_allowed parent_mobile (some owner) = true
owner_allowed shared_tablet none = true
owner_allowed _ _ = false

-- The condition of the UPDATE of `SubmitEnrollment`.
unfoldable pub submittable :
    Hash → Option Owner → Option DeviceType → TimeText → EnrollmentRow → Bool
unfolding same_status time_text_lt type_allowed owner_allowed
submittable code_hash owner required now r =
    r.code_hash == code_hash
    && same_status r.status pending
    && time_text_lt now r.expires_at
    && type_allowed required r.requested_type
    && owner_allowed r.requested_type owner

unfoldable pub submit_row : Hash → Text → Option Owner → TimeText → EnrollmentRow → EnrollmentRow
submit_row claim_hash device_name owner now r = record r {
  code_hash = claim_hash;
  device_name = some device_name;
  owner = owner;
  status = submitted;
  submitted_at = some now;
}

-- UNIQUE on code_hash, for an update of the chosen rows to a new hash: no row has it that the
-- update leaves alone.
unfoldable pub hash_free : (EnrollmentRow → Bool) → Hash → Database → Bool
hash_free chosen hash db =
    not (
      any_row (λ (r : EnrollmentRow). r.code_hash == hash && not (chosen r)) db.enrollment_requests)

unfoldable pub enrollment_of : EnrollmentRow → Result Enrollment
enrollment_of r = elim (parse_database_time r.expires_at) [
  | none ↦ err bad_time
  | some expires ↦ ok (record {
    id = r.id;
    requested_type = r.requested_type;
    device_name = r.device_name;
    owner = r.owner;
    status = r.status;
    expires_at = expires;
  })
]

-- `SubmitEnrollment`: one statement, whose effect stays when the expiry does not parse.
unfoldable pub submit_enrollment :
    Hash → Hash → Text → Option Owner → Option DeviceType → Time → Database → Outcome Enrollment
unfolding submittable submit_row hash_free enrollment_of
submit_enrollment code_hash claim_hash device_name owner required now db =
    let stamp = database_time now in
    let chosen = submittable code_hash owner required stamp in
    elim (find_row chosen db.enrollment_requests) [
      | none ↦ (err invalid_enrollment, db)
      | some r ↦
          if hash_free chosen claim_hash db
          then (
            enrollment_of (submit_row claim_hash device_name owner stamp r),
            record db {
              enrollment_requests =
                  update_rows chosen (submit_row claim_hash device_name owner stamp)
                    db.enrollment_requests;
            },
          )
          else (err constraint, db)
    ]

-- `status IN ('submitted', 'approved', 'rejected')`.
unfoldable pub claimable : EnrollmentStatus → Bool
claimable submitted = true
claimable approved = true
claimable rejected = true
claimable _ = false

-- `EnrollmentByClaim`.
unfoldable pub enrollment_by_claim : Hash → Time → Database → Result Enrollment
unfolding claimable enrollment_of
enrollment_by_claim claim_hash now db =
    elim (find_row
      (λ (r : EnrollmentRow).
        r.code_hash == claim_hash
        && time_text_lt (database_time now) r.expires_at
        && claimable r.status)
      db.enrollment_requests) [ none ↦ err invalid_enrollment | some r ↦ enrollment_of r ]

-- `status IN ('pending', 'submitted', 'approved')`.
unfoldable pub listed : EnrollmentStatus → Bool
listed pending = true
listed submitted = true
listed approved = true
listed _ = false

unfoldable pub enrollments_of : List EnrollmentRow → Result (List Enrollment)
unfolding enrollment_of
enrollments_of [] = ok []
enrollments_of (r ∷ rs) =
    let rest = enrollments_of rs in enrollment_of r >>= λ e. rest >>= λ es. ok (e ∷ es)

-- `ListEnrollments`, newest first.
unfoldable pub list_enrollments : Time → Database → Result (List Enrollment)
unfolding enrollments_of listed
list_enrollments now db = enrollments_of (
    sort_rows (λ (a b : EnrollmentRow). time_text_lt b.created_at a.created_at)
      (select_rows
        (λ (r : EnrollmentRow). time_text_lt (database_time now) r.expires_at && listed r.status)
        db.enrollment_requests))
