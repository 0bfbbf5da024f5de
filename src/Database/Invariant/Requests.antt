-- ===== src/Database/Invariant/Requests.antt =====
-- The operations on enrollment requests keep a database well formed.
use family_dashboard.Common.{
  ◌≡◌, subst, inl, inr, refl, Option, arith, Text, find_row, Option-cases, if◌then◌else◌,
}
use family_dashboard.Time.{Time, TimeText, database_time}
use family_dashboard.Database.State.{
  Database, Owner, Hash, DeviceType, EnrollmentRow, ok, err, ◌>>=◌, device_enrollment, failure,
  administrator_rejected, EnrollmentStatus, approved, rejected, constraint,
}
use family_dashboard.Database.Statements.{
  insert_device, insert_credential, insert_event, insert_enrollment,
}
use family_dashboard.Database.Setup.{InitialSetup, insert_credentials}
use family_dashboard.Database.Enrollment.{
  approve_enrollment, reject_enrollment, complete_enrollment, decision_statement, decide,
  completion_statements, consume_claim, completable, enrolled_device,
}
use family_dashboard.Database.Requests.{
  new_request, enrollable, create_enrollment, submit_enrollment,
}
use family_dashboard.Database.Enrollment.Lifecycle.{
  Call, creates, submits, approves, rejects, completes, step,
}
use family_dashboard.Database.Enrollment.Unique.{commit-kept, step-Keys}
use family_dashboard.Database.Invariant.{WellFormed, OneDevice, OneSession, OnePush, Hashed}
use family_dashboard.Database.Invariant.Tables.{OneDevice-insert}

-- The other tables under the operations on requests.
record Beside (db db' : Database) : Type 0 where
  devices : OneDevice db'.devices
  sessions : db.admin_sessions ≡ db'.admin_sessions
  pushes : db.push_subscriptions ≡ db'.push_subscriptions
  security : db.security_state ≡ db'.security_state

Beside-refl : (db : Database) → WellFormed db → Beside db db
Beside-refl db w = record { devices = w.devices; sessions = refl; pushes = refl; security = refl }

creation-Beside :
    (kind : DeviceType) (r : EnrollmentRow) (db db' : Database)
    → WellFormed db
    → (if enrollable kind then insert_enrollment r db else err constraint) ≡ ok db'
    → Beside db db'
unfolding insert_enrollment
creation-Beside kind r db db' w h = record {
  devices = ground (arith, w.devices);
  sessions = ground arith;
  pushes = ground arith;
  security = ground arith;
}

submission-Beside :
    (code claim : Hash) (name : Text) (owner : Option Owner) (required : Option DeviceType)
    (now : Time) (db : Database)
    → WellFormed db
    → Beside db (submit_enrollment code claim name owner required now db).1
unfolding submit_enrollment
submission-Beside code claim name owner required now db w = record {
  devices = ground (arith, w.devices);
  sessions = ground arith;
  pushes = ground arith;
  security = ground arith;
}

decision-Beside :
    (status : EnrollmentStatus) (id by : Text) (now : TimeText) (db db' : Database)
    → WellFormed db
    → decision_statement status id by now db ≡ ok db'
    → Beside db db'
unfolding decision_statement decide
decision-Beside status id by now db db' w h = record {
  devices = ground (arith, w.devices);
  sessions = ground arith;
  pushes = ground arith;
  security = ground arith;
}

rejection-Beside :
    (status : EnrollmentStatus) (id by : Text) (now : TimeText) (db db' : Database)
    → WellFormed db
    → (decision_statement status id by now db
        >>= insert_event device_enrollment by failure administrator_rejected now)
      ≡ ok db'
    → Beside db db'
unfolding decision_statement decide insert_event
rejection-Beside status id by now db db' w h = record {
  devices = ground (arith, w.devices);
  sessions = ground arith;
  pushes = ground arith;
  security = ground arith;
}

completion-Beside :
    (r : EnrollmentRow) (claim tombstone : Hash) (setup : InitialSetup) (owner : Option Owner)
    (now : TimeText) (db db' : Database)
    → WellFormed db
    → completion_statements r claim tombstone setup owner now db ≡ ok db'
    → Beside db db'
unfolding completion_statements insert_device insert_credentials insert_credential insert_event
    consume_claim enrolled_device
completion-Beside r claim tombstone setup owner now db db' w h = elim (Option-cases r.device_name) [
  | inl n ↦ absurd (ground arith)
  | inr (name, n) ↦
      let d = enrolled_device setup name r.requested_type owner now in
      record {
        devices =
            subst OneDevice (ground arith) (OneDevice-insert d db.devices (ground arith) w.devices);
        sessions = ground arith;
        pushes = ground arith;
        security = ground arith;
      }
]

complete-Beside :
    (claim tombstone : Hash) (setup : InitialSetup) (owner : Option Owner) (db : Database)
    → WellFormed db
    → Beside db (complete_enrollment claim tombstone setup owner db).1
unfolding complete_enrollment
complete-Beside claim tombstone setup owner db w =
    let now = database_time setup.now in
    elim (Option-cases (find_row (completable claim now) db.enrollment_requests)) [
      | inl e ↦ rw (e, complete_enrollment) (Beside-refl db w)
      | inr (r, e) ↦
          rw (e, complete_enrollment)
            (commit-kept (Beside db) db _ (Beside-refl db w)
              λ db' h. completion-Beside r claim tombstone setup owner now db db' w h)
    ]

step-Beside : (call : Call) (db : Database) → WellFormed db → Beside db (step call db)
unfolding step create_enrollment approve_enrollment reject_enrollment
step-Beside (creates id hash kind expires now) db w =
    commit-kept (Beside db) db _ (Beside-refl db w)
      λ db' h. creation-Beside kind (new_request id hash kind expires now) db db' w h
step-Beside (submits code claim name owner required now) db w =
    submission-Beside code claim name owner required now db w
step-Beside (approves id by now) db w =
    commit-kept (Beside db) db _ (Beside-refl db w)
      λ db' h. decision-Beside approved id by (database_time now) db db' w h
step-Beside (rejects id by now) db w =
    commit-kept (Beside db) db _ (Beside-refl db w)
      λ db' h. rejection-Beside rejected id by (database_time now) db db' w h
step-Beside (completes claim tombstone setup owner) db w =
    complete-Beside claim tombstone setup owner db w

pub step-WellFormed : (call : Call) (db : Database) → WellFormed db → WellFormed (step call db)
step-WellFormed call db w =
    let b = step-Beside call db w in
    record {
      requests = step-Keys call db w.requests;
      devices = b.devices;
      sessions = subst OneSession b.sessions w.sessions;
      pushes = subst OnePush b.pushes w.pushes;
      security = subst Hashed b.security w.security;
    }
