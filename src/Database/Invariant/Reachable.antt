-- ===== src/Database/Invariant/Reachable.antt =====
-- Every operation of internal/database, and the databases that histories of them reach from the
-- first start.
use family_dashboard.Common.{◌≡◌, Bool, false, Option, [], arith, Text, count_rows}
use family_dashboard.Time.{Time}
use family_dashboard.Schedule.{Item}
use family_dashboard.Database.State.{Database, Hash}
use family_dashboard.Database.Setup.{
  InitialSetup, record_start, ensure_initial_setup_code, complete_initial_setup,
  device_by_access_token,
}
use family_dashboard.Database.Credentials.{CredentialRotation, rotate_refresh_credential}
use family_dashboard.Database.Admin.{
  record_pin_failure, create_admin_session, validate_admin_session, revoke_admin_session,
}
use family_dashboard.Database.Enrollment.Lifecycle.{Call, step}
use family_dashboard.Database.Devices.{revoke_device}
use family_dashboard.Database.Push.{
  PushSubscription, revoke_push_subscription, replace_push_subscription,
}
use family_dashboard.Database.Schedules.{create_schedule, update_schedule}
use family_dashboard.Database.Invariant.{WellFormed}
use family_dashboard.Database.Invariant.Setup.{
  record_start-WellFormed, ensure_initial_setup_code-WellFormed, complete_initial_setup-WellFormed,
  device_by_access_token-WellFormed,
}
use family_dashboard.Database.Invariant.Sessions.{
  record_pin_failure-WellFormed, create_admin_session-WellFormed, validate_admin_session-WellFormed,
  revoke_admin_session-WellFormed,
}
use family_dashboard.Database.Invariant.Rotation.{rotate_refresh_credential-WellFormed}
use family_dashboard.Database.Invariant.Requests.{step-WellFormed}
use family_dashboard.Database.Invariant.Devices.{
  revoke_device-WellFormed, revoke_push_subscription-WellFormed,
  replace_push_subscription-WellFormed,
}
use family_dashboard.Database.Invariant.Schedules.{
  create_schedule-WellFormed, update_schedule-WellFormed,
}

-- The operations that can write, with their arguments.
pub data Operation : Type 0 where
  starts : Operation
  ensures_code : Hash → Time → Time → Operation
  sets_up : InitialSetup → Operation
  authenticates_token : Hash → Time → Operation
  rotates : Hash → CredentialRotation → Bool → Time → Operation
  fails_pin : Text → Time → Operation
  unlocks : Text → Text → Hash → Hash → Time → Time → Time → Operation
  validates_session : Text → Hash → Option Hash → Time → Bool → Operation
  locks : Text → Hash → Time → Operation
  enrolls : Call → Operation
  revokes_device : Text → Text → Time → Operation
  subscribes : PushSubscription → Operation
  unsubscribes : Text → Time → Operation
  creates_schedule updates_schedule : Item → Text → Time → Operation

-- The database that an operation leaves, whether it succeeds or not.
unfoldable pub run : Operation → Database → Database
run starts db = record_start db
run (ensures_code hash expires now) db = (ensure_initial_setup_code hash expires now db).1
run (sets_up setup) db = (complete_initial_setup setup db).1
run (authenticates_token hash now) db = (device_by_access_token hash now db).1
run (rotates old rotation local now) db = (rotate_refresh_credential old rotation local now db).1
run (fails_pin device_id now) db = (record_pin_failure device_id now db).1
run (unlocks device_id session_id hash csrf idle absolute now) db =
    (create_admin_session device_id session_id hash csrf idle absolute now db).1
run (validates_session device_id hash csrf now refresh) db =
    (validate_admin_session device_id hash csrf now refresh db).1
run (locks device_id hash now) db = (revoke_admin_session device_id hash now db).1
run (enrolls call) db = step call db
run (revokes_device target actor now) db = (revoke_device target actor now db).1
run (subscribes s) db = (replace_push_subscription s db).1
run (unsubscribes device_id now) db = revoke_push_subscription device_id now db
run (creates_schedule item device_id now) db = (create_schedule item device_id now db).1
run (updates_schedule item device_id now) db = (update_schedule item device_id now db).1

run-WellFormed : (o : Operation) (db : Database) → WellFormed db → WellFormed (run o db)
unfolding run
run-WellFormed starts db w = record_start-WellFormed db w
run-WellFormed (ensures_code hash expires now) db w =
    ensure_initial_setup_code-WellFormed hash expires now db w
run-WellFormed (sets_up setup) db w = complete_initial_setup-WellFormed setup db w
run-WellFormed (authenticates_token hash now) db w = device_by_access_token-WellFormed hash now db w
run-WellFormed (rotates old rotation local now) db w =
    rotate_refresh_credential-WellFormed old rotation local now db w
run-WellFormed (fails_pin device_id now) db w = record_pin_failure-WellFormed device_id now db w
run-WellFormed (unlocks device_id session_id hash csrf idle absolute now) db w =
    create_admin_session-WellFormed device_id session_id hash csrf idle absolute now db w
run-WellFormed (validates_session device_id hash csrf now refresh) db w =
    validate_admin_session-WellFormed device_id hash csrf now refresh db w
run-WellFormed (locks device_id hash now) db w =
    revoke_admin_session-WellFormed device_id hash now db w
run-WellFormed (enrolls call) db w = step-WellFormed call db w
run-WellFormed (revokes_device target actor now) db w =
    revoke_device-WellFormed target actor now db w
run-WellFormed (subscribes s) db w = replace_push_subscription-WellFormed s db w
run-WellFormed (unsubscribes device_id now) db w =
    revoke_push_subscription-WellFormed device_id now db w
run-WellFormed (creates_schedule item device_id now) db w =
    create_schedule-WellFormed item device_id now db w
run-WellFormed (updates_schedule item device_id now) db w =
    update_schedule-WellFormed item device_id now db w

-- A database as `initialize` leaves it at the first start.
pub record Migrated (db : Database) : Type 0 where
  pub no_requests : db.enrollment_requests ≡ []
  pub no_devices : db.devices ≡ []
  pub no_sessions : db.admin_sessions ≡ []
  pub no_pushes : db.push_subscriptions ≡ []
  pub not_set_up : db.security_state.setup_complete ≡ false

-- The databases that operations reach, in any order and with any arguments.
pub data Reachable : Database → Type 0 where
  migrated : (db : Database) → Migrated db → Reachable db
  after : (o : Operation) (db : Database) → Reachable db → Reachable (run o db)

Migrated-WellFormed : (db : Database) → Migrated db → WellFormed db
unfolding count_rows
Migrated-WellFormed db m = record {
  requests = record {
    one_id = λ id. rw m.no_requests (omega arith);
    one_code = λ hash. rw m.no_requests (omega arith);
  };
  devices = λ id. rw m.no_devices (omega arith);
  sessions = λ id. rw m.no_sessions (omega arith);
  pushes = λ id. rw m.no_pushes (omega arith);
  security = λ e n. ground (arith, m.not_set_up);
}

-- In every database that operations reach from the first start, in whatever order, with whatever
-- arguments and whether they succeed or not, no two devices share an id, no two enrollment requests
-- their id or their code, a device has at most one open administrator session and at most one
-- active push subscription, and a dashboard that is set up has the hash of a PIN.
pub Reachable-WellFormed : (db : Database) → Reachable db → WellFormed db
Reachable-WellFormed _ (migrated db m) = Migrated-WellFormed db m
Reachable-WellFormed _ (after o before reached) =
    run-WellFormed o before (Reachable-WellFormed before reached)
