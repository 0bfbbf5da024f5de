-- ===== src/Database/Enrollment/Access.antt =====
-- The tokens that CompleteEnrollment of internal/database/enrollment.go issues, as
-- DeviceByAccessToken sees them.
use mathlib.Core.List.{append_assoc}
use family_dashboard.Common.{
  ◌≡◌, inl, inr, refl, true, Option, some, [], ◌∷◌, ◌++◌, arith, find_row, Among, text_eq_refl,
  Text, find_row-Among, find_row-holds, Option-cases,
}
use family_dashboard.Time.{Time, TimeText, database_time, time_text_lt}
use family_dashboard.Database.State.{
  Database, EnrollmentRow, Owner, Hash, ok, access, refresh, approved, commit,
}
use family_dashboard.Database.Statements.{insert_device, insert_credential, insert_event}
use family_dashboard.Database.Setup.{
  InitialSetup, insert_credentials, new_credential, authenticates, device_by_access_token,
}
use family_dashboard.Database.Setup.Access.{
  NoDevice, NoToken, find_row-new_device, find_pair-new_credential,
}
use family_dashboard.Database.Enrollment.{
  complete_enrollment, completable, consume_claim, completion_statements, enrolled_device,
  is_local_only,
}
use family_dashboard.Database.Enrollment.Lifecycle.{same_status→eq}

completion_tables :
    (r : EnrollmentRow) (claim tombstone : Hash) (setup : InitialSetup) (owner : Option Owner)
    (now : TimeText) (name : Text) (db db' : Database)
    → r.device_name ≡ some name
    → completion_statements r claim tombstone setup owner now db ≡ ok db'
    → NoDevice setup.device_id db.devices
      × NoToken setup.access_id setup.access_hash db.device_credentials
      × (db'.devices ≡ db.devices ++ enrolled_device setup name r.requested_type owner now ∷ [])
      × (db'.device_credentials
          ≡ db.device_credentials
            ++ new_credential setup.access_id access setup.access_hash setup.refresh_family_id
                setup.access_expires_at setup.device_id now
              ∷ new_credential setup.refresh_id refresh setup.refresh_hash setup.refresh_family_id
                  setup.refresh_expires_at setup.device_id now
              ∷ [])
unfolding completion_statements insert_credentials insert_device insert_credential insert_event
    consume_claim enrolled_device
completion_tables r claim tombstone setup owner now name db db' named h = (
  ground arith,
  ground arith,
  ground arith,
  ground (
    arith,
    append_assoc db.device_credentials
        (new_credential setup.access_id access setup.access_hash setup.refresh_family_id
            setup.access_expires_at setup.device_id now
          ∷ [])
        (new_credential setup.refresh_id refresh setup.refresh_hash setup.refresh_family_id
            setup.refresh_expires_at setup.device_id now
          ∷ []),
  ),
)

completion_statements-authenticates :
    (r : EnrollmentRow) (claim tombstone : Hash) (setup : InitialSetup) (owner : Option Owner)
    (stamp : TimeText) (name : Text) (db db' : Database) (now : Time)
    → r.device_name ≡ some name
    → completion_statements r claim tombstone setup owner stamp db ≡ ok db'
    → time_text_lt (database_time now) (database_time setup.access_expires_at) ≡ true
    → (device_by_access_token setup.access_hash now db').0
      ≡ ok (record {
        id = setup.device_id;
        name = name;
        device_type = r.requested_type;
        owner = owner;
        local_only = is_local_only r.requested_type;
      })
unfolding device_by_access_token enrolled_device
completion_statements-authenticates r claim tombstone setup owner stamp name db db' now named h e =
    let (no_device, no_token, devices, credentials) =
      completion_tables r claim tombstone setup owner stamp name db db' named h in
    let d = enrolled_device setup name r.requested_type owner stamp in
    let c =
      new_credential setup.access_id access setup.access_hash setup.refresh_family_id
        setup.access_expires_at setup.device_id stamp in
    let found =
      find_row-new_device setup.access_hash (database_time now) c d db.devices no_device refl
        (unfold authenticates in ground (arith, text_eq_refl setup.device_id)) in
    ground (
      arith,
      devices,
      credentials,
      find_pair-new_credential setup.access_hash (database_time now) setup.access_id
          db.device_credentials
          (new_credential setup.refresh_id refresh setup.refresh_hash setup.refresh_family_id
              setup.refresh_expires_at setup.device_id stamp
            ∷ [])
          c d (db.devices ++ d ∷ []) no_token found,
    )

-- What an enrollment has given: an approved request that holds the claim and has not expired, and a
-- device that its access token authenticates until it expires.
pub record Enrolled (claim : Hash) (setup : InitialSetup) (owner : Option Owner) (db db' : Database)
    : Type 0 where
  pub request : EnrollmentRow
  pub requested : Among request db.enrollment_requests
  pub secret : request.code_hash ≡ claim
  pub decided : request.status ≡ approved
  pub in_time : time_text_lt (database_time setup.now) request.expires_at ≡ true
  pub name : Text
  pub named : request.device_name ≡ some name
  pub authenticated :
      (now : Time)
      → time_text_lt (database_time now) (database_time setup.access_expires_at) ≡ true
      → (device_by_access_token setup.access_hash now db').0
        ≡ ok (record {
          id = setup.device_id;
          name = name;
          device_type = request.requested_type;
          owner = owner;
          local_only = is_local_only request.requested_type;
        })

-- When an enrollment completes, its access token authenticates the device of the request, by the
-- name and with the type that were asked for, until the token expires.
pub complete_enrollment-Enrolled :
    (claim tombstone : Hash) (setup : InitialSetup) (owner : Option Owner) (db db' : Database)
    → complete_enrollment claim tombstone setup owner db ≡ (ok tt, db')
    → Enrolled claim setup owner db db'
unfolding complete_enrollment commit completion_statements
complete_enrollment-Enrolled claim tombstone setup owner db db' h =
    let now = database_time setup.now in
    elim (Option-cases (find_row (completable claim now) db.enrollment_requests)) [
      | inl e ↦ absurd (ground arith)
      | inr (r, e) ↦ elim (Option-cases r.device_name) [
        | inl n ↦ absurd (ground arith)
        | inr (name, n) ↦
            let holds = find_row-holds _ db.enrollment_requests r e in
            record {
              request = r;
              requested = find_row-Among _ db.enrollment_requests r e;
              secret = unfold completable in ground arith;
              decided = same_status→eq r.status approved (unfold completable in ground arith);
              in_time = unfold completable in ground arith;
              name = name;
              named = n;
              authenticated = λ at before.
                  completion_statements-authenticates r claim tombstone setup owner now name db db'
                    at n (ground arith) before;
            }
      ]
    ]
