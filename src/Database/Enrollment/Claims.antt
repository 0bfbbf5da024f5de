-- ===== src/Database/Enrollment/Claims.antt =====
-- Submission and completion of an enrollment (internal/database/enrollment.go).
use family_dashboard.Common.{
  ◌≡◌, ◌≢◌, sym, subst, ◌⊎◌, inl, inr, refl, true, false, Option, none, some, [], ◌∷◌, ◌++◌, arith,
  Among, AllRows, AllRows-update_rows, Text, find_row, find_row-eq_none, find_row-holds,
  find_row-Among, Option-cases,
}
use family_dashboard.Time.{Time, TimeText, database_time, time_text_lt}
use family_dashboard.Time.Order.{time_text_lt-of_not_lt}
use family_dashboard.Database.State.{
  Database, EnrollmentRow, pending, submitted, approved, DeviceType, trusted_pc, parent_mobile,
  shared_tablet, tv, Owner, Hash, ok, err, commit, invalid_enrollment,
}
use family_dashboard.Database.Statements.{insert_device, insert_event, insert_credential}
use family_dashboard.Database.Setup.{InitialSetup, insert_credentials}
use family_dashboard.Database.Enrollment.{
  complete_enrollment, completable, consume_claim, completion_statements, enrolled_device,
}
use family_dashboard.Database.Requests.{
  Enrollment, submit_row, enrollment_of, submit_enrollment, submittable, owner_allowed,
}
use family_dashboard.Database.Enrollment.Lifecycle.{same_status→eq, completion-rows}

-- The request behind a device that was registered, and the row of the device.
pub record Registered (claim : Hash) (setup : InitialSetup) (owner : Option Owner)
    (db db' : Database) : Type 0 where
  pub request : EnrollmentRow
  pub requested : Among request db.enrollment_requests
  pub secret : request.code_hash ≡ claim
  pub decided : request.status ≡ approved
  pub in_time : time_text_lt (database_time setup.now) request.expires_at ≡ true
  pub name : Text
  pub named : request.device_name ≡ some name
  pub registered :
      db'.devices
      ≡ db.devices
        ++ enrolled_device setup name request.requested_type owner (database_time setup.now) ∷ []

completion-device :
    (r : EnrollmentRow) (claim tombstone : Hash) (setup : InitialSetup) (owner : Option Owner)
    (now : TimeText) (db db' : Database)
    → completion_statements r claim tombstone setup owner now db ≡ ok db'
    → (name : Text) × (r.device_name ≡ some name)
      × (db'.devices ≡ db.devices ++ enrolled_device setup name r.requested_type owner now ∷ [])
unfolding completion_statements insert_device insert_credentials insert_credential insert_event
    consume_claim
completion-device r claim tombstone setup owner now db db' h = elim (Option-cases r.device_name) [
  | inl e ↦ absurd (ground arith)
  | inr (name, e) ↦ (name, e, ground arith)
]

-- Completion registers a device only for a request that holds the claim, was approved and has not
-- expired; the device has the request's type and name and the owner that is given, and it is bound
-- to the local network exactly when it is a shared tablet or a television.
pub complete_enrollment-Registered :
    (claim tombstone : Hash) (setup : InitialSetup) (owner : Option Owner) (db db' : Database)
    → complete_enrollment claim tombstone setup owner db ≡ (ok tt, db')
    → Registered claim setup owner db db'
unfolding complete_enrollment commit
complete_enrollment-Registered claim tombstone setup owner db db' h =
    let now = database_time setup.now in
    elim (Option-cases (find_row (completable claim now) db.enrollment_requests)) [
      | inl e ↦ absurd (ground arith)
      | inr (r, e) ↦
          let holds = find_row-holds _ db.enrollment_requests r e in
          let (name, named, device) =
            completion-device r claim tombstone setup owner now db db' (ground arith) in
          record {
            request = r;
            requested = find_row-Among _ db.enrollment_requests r e;
            secret = unfold completable in ground arith;
            decided = same_status→eq r.status approved (unfold completable in ground arith);
            in_time = unfold completable in ground arith;
            name = name;
            named = named;
            registered = device;
          }
    ]

consumed-not_completable :
    (claim tombstone : Hash) (now later : TimeText) (db : Database)
    → claim ≢ tombstone
    → time_text_lt later now ≡ false
    → AllRows
        (λ (r : EnrollmentRow). completable claim later r ≡ false)
        (consume_claim claim tombstone now db).enrollment_requests
unfolding consume_claim completable
consumed-not_completable claim tombstone now later db apart order =
    AllRows-update_rows _ _ _ db.enrollment_requests
      λ r. ground (arith, time_text_lt-of_not_lt now later r.expires_at order)

-- A claim registers one device: presented again, at a time that is stored as no earlier one, it is
-- refused and changes nothing, provided that the hash that replaced it is another one.
pub complete_enrollment_once :
    (claim tombstone again : Hash) (setup next : InitialSetup) (owner other : Option Owner)
    (db db' : Database)
    → complete_enrollment claim tombstone setup owner db ≡ (ok tt, db')
    → claim ≢ tombstone
    → time_text_lt (database_time next.now) (database_time setup.now) ≡ false
    → complete_enrollment claim again next other db' ≡ (err invalid_enrollment, db')
unfolding complete_enrollment commit
complete_enrollment_once claim tombstone again setup next owner other db db' h apart order =
    let now = database_time setup.now in
    elim (Option-cases (find_row (completable claim now) db.enrollment_requests)) [
      | inl e ↦ absurd (ground arith)
      | inr (r, e) ↦
          let rows = completion-rows r claim tombstone setup owner now db db' (ground arith) in
          let none_left = subst (AllRows _) (sym rows) (
            consumed-not_completable claim tombstone now (database_time next.now) db apart order) in
          ground (
            arith,
            find_row-eq_none (completable claim (database_time next.now)) db'.enrollment_requests
                none_left,
          )
    ]

owner_allowed-cases :
    (kind : DeviceType) (owner : Option Owner)
    → owner_allowed kind owner ≡ true
    → ((kind ≡ parent_mobile) × (owner ≢ none)) ⊎ ((kind ≡ shared_tablet) × (owner ≡ none))
unfolding owner_allowed
owner_allowed-cases trusted_pc owner h = cc
owner_allowed-cases tv owner h = cc
owner_allowed-cases parent_mobile none h = cc
owner_allowed-cases parent_mobile (some o) h = inl (refl, λ e. cc)
owner_allowed-cases shared_tablet none h = inr (refl, refl)
owner_allowed-cases shared_tablet (some o) h = cc

-- The request that a submission took.
pub record Submitted (code : Hash) (owner : Option Owner) (now : Time) (db : Database)
    (result : Enrollment) : Type 0 where
  pub request : EnrollmentRow
  pub requested : Among request db.enrollment_requests
  pub secret : request.code_hash ≡ code
  pub undecided : request.status ≡ pending
  pub in_time : time_text_lt (database_time now) request.expires_at ≡ true
  pub fitting :
      ((request.requested_type ≡ parent_mobile) × (owner ≢ none))
      ⊎ ((request.requested_type ≡ shared_tablet) × (owner ≡ none))
  pub reported :
      (result.id ≡ request.id)
      × (result.requested_type ≡ request.requested_type)
      × (result.owner ≡ owner)
      × (result.status ≡ submitted)

-- A submission succeeds only for a pending request of the code that has not expired: for a parent's
-- mobile, with an owner, or for a shared tablet, without one.
pub submit_enrollment-Submitted :
    (code claim : Hash) (name : Text) (owner : Option Owner) (required : Option DeviceType)
    (now : Time) (db : Database) (result : Enrollment)
    → (submit_enrollment code claim name owner required now db).0 ≡ ok result
    → Submitted code owner now db result
unfolding submit_enrollment
submit_enrollment-Submitted code claim name owner required now db result h =
    elim (Option-cases
      (find_row (submittable code owner required (database_time now)) db.enrollment_requests)) [
        | inl e ↦ absurd (ground arith)
        | inr (r, e) ↦
            let holds = find_row-holds _ db.enrollment_requests r e in
            record {
              request = r;
              requested = find_row-Among _ db.enrollment_requests r e;
              secret = unfold submittable in ground arith;
              undecided = same_status→eq r.status pending (unfold submittable in ground arith);
              in_time = unfold submittable in ground arith;
              fitting =
                  owner_allowed-cases r.requested_type owner (unfold submittable in ground arith);
              reported = unfold submit_row enrollment_of in ground arith;
            }
      ]
