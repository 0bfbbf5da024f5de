-- ===== src/App/Enrollment/Progress.antt =====
-- An approved request does become a device: `claimEnrollment` of internal/app/enrollment.go runs to
-- its end.
use family_dashboard.Common.{
  ◌≡◌, inl, inr, refl, Bool, true, false, not, ◌&&◌, ◌||◌, Option, some, List, [], ◌∷◌, ◌==◌, leb,
  arith, Text, text_eq, text_eq_refl, Among, any_row, sql_length, any_row-append_one, find_row-only,
  ◌<◌,
}
use family_dashboard.Time.{Time, TimeText, database_time, time_text_lt, year_10000}
use family_dashboard.Time.RoundTrip.{parse-database_time_early}
use family_dashboard.Database.State.{
  Database, DeviceRow, CredentialRow, EnrollmentRow, approved, Owner, Hash, ok, commit, access,
  Result-cases,
}
use family_dashboard.Database.Statements.{
  has_device, insert_device, insert_credential, insert_event,
}
use family_dashboard.Database.Setup.{InitialSetup, insert_credentials, new_credential}
use family_dashboard.Database.Setup.Access.{NoDevice, NoToken}
use family_dashboard.Database.Enrollment.{
  complete_enrollment, completion_statements, completable, consume_claim, enrolled_device,
  is_local_only,
}
use family_dashboard.Database.Requests.{
  Enrollment, enrollment_of, enrollment_by_claim, claimable, hash_free, same_status,
}
use family_dashboard.Database.Enrollment.Unique.{has_code}
use family_dashboard.Database.Invariant.Reachable.{Reachable, Reachable-WellFormed}
use family_dashboard.App.{Platform, Config, Request, granted, Tokens}
use family_dashboard.App.Access.{request_in_networks, valid_same_origin}
use family_dashboard.App.Setup.{cookies_of}
use family_dashboard.App.Enrollment.{
  registered, unless_invalid, claim_setup, claim_found, claim_decoded, claim_enrollment,
}

-- A request that an administrator has approved, with all that a submission gives it.
pub record IsApproved (claim : Hash) (now : Time) (db : Database) (row : EnrollmentRow)
    : Type 0 where
  pub stored : Among row db.enrollment_requests
  pub secret : row.code_hash ≡ claim
  pub decided : row.status ≡ approved
  pub expires : Time
  pub dated : row.expires_at ≡ database_time expires
  pub readable : expires < year_10000
  pub in_time : time_text_lt (database_time now) row.expires_at ≡ true
  pub name : Text
  pub named : row.device_name ≡ some name
  pub long_enough : leb 1 (sql_length name) ≡ true
  pub short_enough : leb (sql_length name) 80 ≡ true

-- What is drawn is new to the database.
pub record IsFresh (setup : InitialSetup) (tombstone : Hash) (db : Database) : Type 0 where
  pub device : NoDevice setup.device_id db.devices
  pub access : NoToken setup.access_id setup.access_hash db.device_credentials
  pub refresh : NoToken setup.refresh_id setup.refresh_hash db.device_credentials
  pub ids : text_eq setup.access_id setup.refresh_id ≡ false
  pub hashes : (setup.access_hash == setup.refresh_hash) ≡ false
  pub replacement : any_row (has_code tombstone) db.enrollment_requests ≡ false

any_row-not :
    (p q : EnrollmentRow → Bool) (rs : List EnrollmentRow)
    → any_row p rs ≡ false
    → any_row (λ r. p r && not (q r)) rs ≡ false
unfolding any_row
any_row-not p q [] h = refl
any_row-not p q (r ∷ rs) h = ground (arith, any_row-not p q rs)

completion-runs :
    (r : EnrollmentRow) (claim tombstone : Hash) (setup : InitialSetup) (owner : Option Owner)
    (now : TimeText) (name : Text) (db : Database)
    → IsFresh setup tombstone db
    → r.device_name ≡ some name
    → leb 1 (sql_length name) ≡ true
    → leb (sql_length name) 80 ≡ true
    → (db' : Database) × (completion_statements r claim tombstone setup owner now db ≡ ok db')
unfolding completion_statements insert_credentials insert_device insert_credential insert_event
    consume_claim has_device enrolled_device hash_free
completion-runs r claim tombstone setup owner now name db fresh named low high =
    elim (Result-cases (completion_statements r claim tombstone setup owner now db)) [
      | inl done ↦ done
      | inr (e, h) ↦ absurd (
          ground (
            arith,
            fresh.device,
            fresh.access,
            fresh.refresh,
            fresh.ids,
            fresh.hashes,
            text_eq_refl setup.device_id,
            any_row-not (has_code tombstone) (completable claim now) db.enrollment_requests
                fresh.replacement,
            any_row-append_one (λ (x : DeviceRow). text_eq x.id setup.device_id) db.devices
                (enrolled_device setup name r.requested_type owner now),
            any_row-append_one
                (λ (x : CredentialRow).
                  text_eq x.id setup.refresh_id || x.token_hash == setup.refresh_hash)
                db.device_credentials
                (new_credential setup.access_id access setup.access_hash setup.refresh_family_id
                  setup.access_expires_at setup.device_id now),
          ))
    ]

complete_enrollment-runs :
    (row : EnrollmentRow) (claim tombstone : Hash) (setup : InitialSetup) (owner : Option Owner)
    (db : Database)
    → Reachable db
    → IsApproved claim setup.now db row
    → IsFresh setup tombstone db
    → (db' : Database) × (complete_enrollment claim tombstone setup owner db ≡ (ok tt, db'))
unfolding complete_enrollment commit
complete_enrollment-runs row claim tombstone setup owner db reached a fresh =
    let now = database_time setup.now in
    let found =
      find_row-only (completable claim now) (has_code claim) db.enrollment_requests row
        (λ y h. unfold completable in ground arith)
        ((Reachable-WellFormed db reached).requests.one_code claim) a.stored
        (unfold completable same_status in ground (arith, a.secret, a.decided, a.in_time)) in
    let (db', done) =
      completion-runs row claim tombstone setup owner now a.name db fresh a.named a.long_enough
        a.short_enough in
    (db', ground arith)

claim-found :
    (row : EnrollmentRow) (claim : Hash) (now : Time) (db : Database)
    → Reachable db
    → IsApproved claim now db row
    → (e : Enrollment) × (enrollment_by_claim claim now db ≡ ok e)
      × (e.status ≡ approved)
      × (e.requested_type ≡ row.requested_type)
unfolding enrollment_by_claim enrollment_of
claim-found row claim now db reached a =
    let wanted = λ (r : EnrollmentRow).
      r.code_hash == claim && time_text_lt (database_time now) r.expires_at && claimable r.status in
    let found =
      find_row-only wanted (has_code claim) db.enrollment_requests row (λ y h. ground arith)
        ((Reachable-WellFormed db reached).requests.one_code claim) a.stored
        (unfold claimable in ground (arith, a.secret, a.decided, a.in_time)) in
    (
      record {
        id = row.id;
        requested_type = row.requested_type;
        device_name = row.device_name;
        owner = row.owner;
        status = row.status;
        expires_at = a.expires;
      },
      ground (arith, a.dated, parse-database_time_early a.expires a.readable),
      a.decided,
      refl,
    )

-- On a database that operations reach from the first start, whoever presents the claim of an
-- approved request before it expires is registered: `claimEnrollment` answers with the cookies of
-- the new device, on a request of the same origin, from the home network if the type of the device
-- is bound to it, when the name fits the column and the ids and tokens that are drawn are new.
pub approved-registers :
    (lib : Platform) (config : Config) (r : Request) (tokens : Tokens) (tombstone token : Text)
    (now : Time) (db : Database) (row : EnrollmentRow)
    → Reachable db
    → IsApproved (lib.sha256 token) now db row
    → IsFresh (claim_setup lib tokens now) (lib.sha256 tombstone) db
    → valid_same_origin lib r config.secure_cookies ≡ true
    → (is_local_only row.requested_type && not (request_in_networks lib r config.local_networks))
      ≡ false
    → (db' : Database) × (claim_enrollment lib config r tokens tombstone (some token) now db
        ≡ (granted (registered (cookies_of tokens)), db'))
unfolding claim_enrollment claim_decoded claim_found same_status unless_invalid claim_setup
approved-registers lib config r tokens tombstone token now db row reached a fresh origin home =
    let claim = lib.sha256 token in
    let (e, found, status, kind) = claim-found row claim now db reached a in
    let (db', done) =
      complete_enrollment-runs row claim (lib.sha256 tombstone) (claim_setup lib tokens now) e.owner
        db reached a fresh in
    (db', ground (arith, found, status, kind, done))
