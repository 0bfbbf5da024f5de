-- ===== src/App/Enrollment/Registration.antt =====
-- When `claimEnrollment` of internal/app/enrollment.go registers a device, and which.
use family_dashboard.Common.{
  ◌≡◌, inl, inr, refl, true, false, not, ◌&&◌, Option, none, some, ◌==◌, arith, Text, Among,
  find_row, find_row-Among, find_row-holds, Among-unique, Bool-cases, Option-cases, ◌+◌,
}
use family_dashboard.Time.{Time, database_time, time_text_lt}
use family_dashboard.Database.State.{
  Database, EnrollmentRow, submitted, approved, rejected, Hash, Result, ok, err, Outcome,
}
use family_dashboard.Database.Setup.{device_by_access_token}
use family_dashboard.Database.Enrollment.{complete_enrollment, is_local_only}
use family_dashboard.Database.Requests.{
  Enrollment, enrollment_of, enrollment_by_claim, same_status, claimable,
}
use family_dashboard.Database.Enrollment.Unique.{has_code}
use family_dashboard.Database.Invariant.Reachable.{Reachable, Reachable-WellFormed}
use family_dashboard.Database.Enrollment.Access.{complete_enrollment-Enrolled}
use family_dashboard.App.{
  Platform, Config, Request, granted, Denial, Tokens, DeviceCookies, access_lifetime,
  invalid_or_expired_claim,
}
use family_dashboard.App.Access.{request_in_networks, valid_same_origin}
use family_dashboard.App.Setup.{cookies_of}
use family_dashboard.App.Enrollment.{
  Claim, registered, unless_invalid, claim_setup, claim_found, claim_decoded, claim_enrollment,
}

-- The registration of a device: its request, the network that it came from, and what its cookie is
-- good for.
pub record IsRegistration (lib : Platform) (config : Config) (r : Request) (tokens : Tokens)
    (body : Option Text) (now : Time) (db db' : Database) : Type 0 where
  pub token : Text
  pub posted : body ≡ some token
  pub same_origin : valid_same_origin lib r config.secure_cookies ≡ true
  pub request : EnrollmentRow
  pub requested : Among request db.enrollment_requests
  pub secret : request.code_hash ≡ lib.sha256 token
  pub decided : request.status ≡ approved
  pub in_time : time_text_lt (database_time now) request.expires_at ≡ true
  pub at_home :
      (is_local_only request.requested_type
        && not (request_in_networks lib r config.local_networks))
      ≡ false
  pub name : Text
  pub named : request.device_name ≡ some name
  pub authenticated :
      (at : Time)
      → time_text_lt (database_time at) (database_time (now + access_lifetime)) ≡ true
      → (device_by_access_token (lib.sha256 tokens.access_token) at db').0
        ≡ ok (record {
          id = tokens.device_id;
          name = name;
          device_type = request.requested_type;
          owner = request.owner;
          local_only = is_local_only request.requested_type;
        })

-- The row behind what the database returns for a claim.
record ClaimedRow (claim : Hash) (db : Database) (e : Enrollment) : Type 0 where
  row : EnrollmentRow
  stored : Among row db.enrollment_requests
  secret : has_code claim row ≡ true
  same_type : e.requested_type ≡ row.requested_type
  same_owner : e.owner ≡ row.owner

enrollment_by_claim-ClaimedRow :
    (claim : Hash) (now : Time) (db : Database) (e : Enrollment)
    → enrollment_by_claim claim now db ≡ ok e
    → ClaimedRow claim db e
unfolding enrollment_by_claim enrollment_of
enrollment_by_claim-ClaimedRow claim now db e h =
    let wanted = λ (r : EnrollmentRow).
      r.code_hash == claim && time_text_lt (database_time now) r.expires_at && claimable r.status in
    elim (Option-cases (find_row wanted db.enrollment_requests)) [
      | inl n ↦ absurd (ground arith)
      | inr (r, f) ↦
          let holds = find_row-holds wanted db.enrollment_requests r f in
          record {
            row = r;
            stored = find_row-Among wanted db.enrollment_requests r f;
            secret = ground arith;
            same_type = ground arith;
            same_owner = ground arith;
          }
    ]

unless_invalid-granted :
    (invalid : Denial) (answer claim : Claim) (o : Outcome (Unit {0})) (db' : Database)
    → unless_invalid invalid answer o ≡ (granted claim, db')
    → o ≡ (ok tt, db')
unfolding unless_invalid
unless_invalid-granted invalid answer claim (ok u, db) db' h = ground arith
unless_invalid-granted invalid answer claim (err e, db) db' h = absurd (ground arith)

claim_found-registered :
    (lib : Platform) (config : Config) (r : Request) (tokens : Tokens) (tombstone : Text)
    (claim : Hash) (now : Time) (db db' : Database) (found : Result Enrollment)
    (cookies : DeviceCookies)
    → claim_found lib config r tokens tombstone claim now db found
      ≡ (granted (registered cookies), db')
    → (e : Enrollment) × (found ≡ ok e)
      × ((is_local_only e.requested_type && not (request_in_networks lib r config.local_networks))
          ≡ false)
      × (complete_enrollment claim (lib.sha256 tombstone) (claim_setup lib tokens now) e.owner db
          ≡ (ok tt, db'))
unfolding claim_found
claim_found-registered lib config r tokens tombstone claim now db db' (err e) cookies h =
    absurd (ground arith)
claim_found-registered lib config r tokens tombstone claim now db db' (ok e) cookies h =
    elim (Bool-cases (same_status e.status submitted)) [
      | inl s ↦ absurd (ground arith)
      | inr s ↦ elim (Bool-cases (same_status e.status rejected)) [
        | inl j ↦ absurd (ground arith)
        | inr j ↦
            elim (Bool-cases (
              is_local_only e.requested_type
              && not (request_in_networks lib r config.local_networks))) [
                | inl far ↦ absurd (ground arith)
                | inr home ↦ (
                  e,
                  refl,
                  home,
                  unless_invalid-granted invalid_or_expired_claim (registered (cookies_of tokens))
                      (registered cookies)
                      (complete_enrollment claim (lib.sha256 tombstone) (claim_setup lib tokens now)
                        e.owner db)
                      db' (ground arith),
                )
              ]
      ]
    ]

-- When `claimEnrollment` registers a device, on a database that operations reach from the first
-- start, the request of the same origin presented the claim of an approved request that has not
-- expired, from the home network if the type of device is bound to it; and until its lifetime is
-- over, the access token that was drawn authenticates a device with the name, the type and the
-- owner of this request.
pub claim_enrollment-IsRegistration :
    (lib : Platform) (config : Config) (r : Request) (tokens : Tokens) (tombstone : Text)
    (body : Option Text) (now : Time) (db db' : Database) (cookies : DeviceCookies)
    → Reachable db
    → claim_enrollment lib config r tokens tombstone body now db
      ≡ (granted (registered cookies), db')
    → IsRegistration lib config r tokens body now db db'
unfolding claim_enrollment claim_decoded claim_setup
claim_enrollment-IsRegistration lib config r tokens tombstone none now db db' cookies reached h =
    absurd (ground arith)
claim_enrollment-IsRegistration lib config r tokens tombstone (some token) now db db' cookies
      reached h =
    elim (Bool-cases (valid_same_origin lib r config.secure_cookies)) [
      | inr f ↦ absurd (ground arith)
      | inl origin ↦
          let claim = lib.sha256 token in
          let (e, found, home, done) =
            claim_found-registered lib config r tokens tombstone claim now db db'
              (enrollment_by_claim claim now db) cookies (ground arith) in
          let c = enrollment_by_claim-ClaimedRow claim now db e found in
          let d =
            complete_enrollment-Enrolled claim (lib.sha256 tombstone) (claim_setup lib tokens now)
              e.owner db db' done in
          let same =
            Among-unique (has_code claim) db.enrollment_requests c.row d.request
              ((Reachable-WellFormed db reached).requests.one_code claim) c.stored d.requested
              c.secret (ground (arith, d.secret)) in
          record {
            token = token;
            posted = refl;
            same_origin = origin;
            request = d.request;
            requested = d.requested;
            secret = d.secret;
            decided = d.decided;
            in_time = d.in_time;
            at_home = ground (arith, home, c.same_type, same);
            name = d.name;
            named = d.named;
            authenticated =
                λ at before. ground (arith, d.authenticated at before, c.same_owner, same);
          }
    ]
