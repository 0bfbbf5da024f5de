-- ===== src/Database/Enrollment.antt =====
-- internal/database/enrollment.go: the administrator's decision on a request, and its completion.
pub mod Lifecycle
pub mod Claims
pub mod Unique
pub mod Access
use family_dashboard.Common.{
  ℕ, Bool, true, false, not, ◌&&◌, ◌||◌, Option, none, some, List, [], ◌∷◌, ◌++◌, ◌==◌,
  if◌then◌else◌, Text, text_eq, find_row, any_row, count_rows, update_rows, select_rows, sort_rows,
  map,
}
use family_dashboard.Time.{Time, TimeText, database_time, time_text_lt, parse_database_time}
use family_dashboard.Database.State.{
  Database, DeviceRow, DeviceType, trusted_pc, parent_mobile, shared_tablet, tv, Owner, dad, mom,
  EnrollmentRow, EnrollmentStatus, pending, submitted, approved, rejected, expired, active, Hash,
  Result, ok, err, ◌>>=◌, Outcome, commit, invalid_enrollment, bad_time, null_column, constraint,
  device_enrollment, failure, success, administrator_rejected, enrolled,
}
use family_dashboard.Database.Statements.{
  has_device, checked, insert_device, insert_enrollment, insert_event,
}
use family_dashboard.Database.Setup.{InitialSetup, insert_credentials}
use family_dashboard.Database.Requests.{
  Enrollment, claimable, create_enrollment, enrollable, enrollment_by_claim, enrollment_of,
  enrollments_of, hash_free, list_enrollments, listed, new_request, owner_allowed, same_status,
  same_type, submit_enrollment, submit_row, submittable, type_allowed,
}

-- The condition of both decisions.
unfoldable pub decidable : Text → TimeText → EnrollmentRow → Bool
unfolding same_status
decidable id now r =
    text_eq r.id id && same_status r.status submitted && time_text_lt now r.expires_at

unfoldable pub decide : EnrollmentStatus → Text → Text → TimeText → Database → Database
unfolding decidable
decide status id by now db = record db {
  enrollment_requests =
      update_rows (decidable id now)
        (λ (r : EnrollmentRow). record r {
          status = status;
          approved_by_device_id = some by;
          decided_at = some now;
        })
        db.enrollment_requests;
}

-- The UPDATE of a decision, under approved_by_device_id REFERENCES devices(id): the constraint
-- counts only where a row is updated, and `changed != 1` is the caller's error.
unfoldable pub decision_statement :
    EnrollmentStatus → Text → Text → TimeText → Database → Result Database
unfolding decide checked has_device decidable
decision_statement status id by now db =
    if count_rows (decidable id now) db.enrollment_requests == 1
    then checked (has_device by db) (decide status id by now db)
    else err invalid_enrollment

-- `ApproveEnrollment`.
unfoldable pub approve_enrollment : Text → Text → Time → Database → Outcome (Unit {0})
unfolding decision_statement commit
approve_enrollment id by now db =
    commit db (decision_statement approved id by (database_time now) db)

-- `RejectEnrollment`.
unfoldable pub reject_enrollment : Text → Text → Time → Database → Outcome (Unit {0})
unfolding decision_statement commit insert_event
reject_enrollment id by now db = commit db (
    decision_statement rejected id by (database_time now) db
    >>= insert_event device_enrollment by failure administrator_rejected (database_time now))

unfoldable pub completable : Hash → TimeText → EnrollmentRow → Bool
unfolding same_status
completable claim_hash now r =
    r.code_hash == claim_hash && same_status r.status approved && time_text_lt now r.expires_at

unfoldable pub is_local_only : DeviceType → Bool
is_local_only shared_tablet = true
is_local_only tv = true
is_local_only _ = false

unfoldable pub enrolled_device :
    InitialSetup → Text → DeviceType → Option Owner → TimeText → DeviceRow
unfolding is_local_only
enrolled_device setup name kind owner now = record {
  id = setup.device_id;
  name = name;
  device_type = kind;
  owner = owner;
  local_only = is_local_only kind;
  status = active;
  created_at = now;
  last_used_at = some now;
  revoked_at = none;
}

-- The claim is replaced by the tombstone, so that it cannot be found again.
unfoldable pub consume_claim : Hash → Hash → TimeText → Database → Database
unfolding completable
consume_claim claim_hash tombstone_hash now db = record db {
  enrollment_requests =
      update_rows (completable claim_hash now)
        (λ (r : EnrollmentRow). record r { code_hash = tombstone_hash }) db.enrollment_requests;
}

unfoldable pub completion_statements :
    EnrollmentRow
    → Hash
    → Hash
    → InitialSetup
    → Option Owner
    → TimeText
    → Database
    → Result Database
unfolding consume_claim hash_free insert_device enrolled_device insert_credentials insert_event
    checked
completion_statements r claim_hash tombstone_hash setup owner now db =
    if hash_free (completable claim_hash now) tombstone_hash db
    then elim r.device_name [
      | none ↦ err null_column
      | some name ↦
          insert_device (enrolled_device setup name r.requested_type owner now)
            (consume_claim claim_hash tombstone_hash now db)
          >>= insert_credentials setup now
          >>= insert_event device_enrollment setup.device_id success (enrolled r.requested_type) now
    ]
    else err constraint

-- `CompleteEnrollment`.
unfoldable pub complete_enrollment :
    Hash → Hash → InitialSetup → Option Owner → Database → Outcome (Unit {0})
unfolding completion_statements completable commit
complete_enrollment claim_hash tombstone_hash setup owner db =
    let now = database_time setup.now in
    elim (find_row (completable claim_hash now) db.enrollment_requests) [
      | none ↦ (err invalid_enrollment, db)
      | some r ↦ commit db (completion_statements r claim_hash tombstone_hash setup owner now db)
    ]
