-- ===== src/Database/Opening.antt =====
-- The writes of `initialize` of internal/database/database.go: what `Open` makes of a data file.
use family_dashboard.Common.{
  ℕ, ◌+◌, ◌≡◌, inl, inr, Bool, true, false, Option, none, some, List, [], ◌∷◌, ◌++◌, arith, codes,
  text_eq, any_row, Among, if◌then◌else◌, Bool-cases,
}
use family_dashboard.Database.State.{
  Database, Security, DeviceRow, CredentialRow, EnrollmentRow, SessionRow, PinRow, RecoveryRow,
  EventRow, PushRow, MemberRow, ScheduleRow, ParticipantRow, parent, child, Result, ok, err, ◌>>=◌,
  Result-cases, constraint,
}
use family_dashboard.Database.Setup.{record_start}

-- What a data file holds before it is opened. A table that it does not have yet stands as an empty
-- one, which CREATE TABLE IF NOT EXISTS makes of it; without the row of runtime_state no start is
-- counted, and the row of security_state may be missing.
pub record DataFile : Type 0 where
  pub start_count : ℕ
  pub security_state : Option Security
  pub devices : List DeviceRow
  pub device_credentials : List CredentialRow
  pub enrollment_requests : List EnrollmentRow
  pub admin_sessions : List SessionRow
  pub pin_attempts : List PinRow
  pub recovery_codes : List RecoveryRow
  pub security_events : List EventRow
  pub push_subscriptions : List PushRow
  pub family_members : List MemberRow
  pub schedules : List ScheduleRow
  pub schedule_participants : List ParticipantRow

-- The file of a database that is open.
abbrev pub file_of : Database → DataFile
file_of db = record {
  start_count = db.start_count;
  security_state = some db.security_state;
  devices = db.devices;
  device_credentials = db.device_credentials;
  enrollment_requests = db.enrollment_requests;
  admin_sessions = db.admin_sessions;
  pin_attempts = db.pin_attempts;
  recovery_codes = db.recovery_codes;
  security_events = db.security_events;
  push_subscriptions = db.push_subscriptions;
  family_members = db.family_members;
  schedules = db.schedules;
  schedule_participants = db.schedule_participants;
}

-- The defaults of the row of security_state; CURRENT_TIMESTAMP stands as `none`.
abbrev pub default_security : Security
default_security = record {
  setup_complete = false;
  pin_hash = none;
  initial_code_hash = none;
  initial_code_expires_at = none;
  initial_code_consumed_at = none;
  updated_at = none;
}

unfoldable pub seeded_security : Option Security → Security
seeded_security none = default_security
seeded_security (some s) = s

-- INSERT INTO family_members ... ON CONFLICT(id) DO NOTHING, under UNIQUE on slug.
unfoldable pub seed_member : MemberRow → List MemberRow → Result (List MemberRow)
seed_member m members =
    if any_row (λ (e : MemberRow). text_eq e.id m.id) members
    then ok members
    else if any_row (λ (e : MemberRow). text_eq e.slug m.slug) members
    then err constraint
    else ok (members ++ m ∷ [])

abbrev pub default_dad : MemberRow
default_dad = record {
  id = codes "dad";
  slug = codes "dad";
  display_name = codes "아빠";
  role = parent;
  active = true;
}

abbrev pub default_mom : MemberRow
default_mom = record {
  id = codes "mom";
  slug = codes "mom";
  display_name = codes "엄마";
  role = parent;
  active = true;
}

abbrev pub default_daughter : MemberRow
default_daughter = record {
  id = codes "daughter";
  slug = codes "daughter";
  display_name = codes "딸";
  role = child;
  active = true;
}

unfoldable pub seed_members : List MemberRow → Result (List MemberRow)
unfolding seed_member
seed_members members =
    seed_member default_dad members >>= seed_member default_mom >>= seed_member default_daughter

abbrev pub opened : DataFile → List MemberRow → Database
opened file members = record {
  start_count = file.start_count;
  security_state = seeded_security file.security_state;
  devices = file.devices;
  device_credentials = file.device_credentials;
  enrollment_requests = file.enrollment_requests;
  admin_sessions = file.admin_sessions;
  pin_attempts = file.pin_attempts;
  recovery_codes = file.recovery_codes;
  security_events = file.security_events;
  push_subscriptions = file.push_subscriptions;
  family_members = members;
  schedules = file.schedules;
  schedule_participants = file.schedule_participants;
}

-- `initialize`, and `Open` around it.
unfoldable pub initialize : Bool → DataFile → Result Database
unfolding seed_members record_start seeded_security
initialize recorded file = seed_members file.family_members >>= λ members.
    ok (if recorded then record_start (opened file members) else opened file members)

-- A database that holds what the file held, with `starts` further starts.
pub record Keeps (file : DataFile) (starts : ℕ) (db : Database) : Type 0 where
  pub counted : db.start_count ≡ file.start_count + starts
  pub state : (s : Security) → file.security_state ≡ some s → db.security_state ≡ s
  pub no_state : file.security_state ≡ none → db.security_state.setup_complete ≡ false
  pub devices : db.devices ≡ file.devices
  pub credentials : db.device_credentials ≡ file.device_credentials
  pub requests : db.enrollment_requests ≡ file.enrollment_requests
  pub sessions : db.admin_sessions ≡ file.admin_sessions
  pub attempts : db.pin_attempts ≡ file.pin_attempts
  pub codes : db.recovery_codes ≡ file.recovery_codes
  pub events : db.security_events ≡ file.security_events
  pub pushes : db.push_subscriptions ≡ file.push_subscriptions
  pub members : (m : MemberRow) → Among m file.family_members → Among m db.family_members
  pub schedules : db.schedules ≡ file.schedules
  pub participants : db.schedule_participants ≡ file.schedule_participants

Among-append : (m x : MemberRow) (ms : List MemberRow) → Among m ms → Among m (ms ++ x ∷ [])
Among-append m x [] k = absurd k
Among-append m x (y ∷ ms) (inl e) = inl e
Among-append m x (y ∷ ms) (inr k) = inr (Among-append m x ms k)

seed_member-Among :
    (m x : MemberRow) (ms ms' : List MemberRow)
    → seed_member x ms ≡ ok ms'
    → Among m ms
    → Among m ms'
unfolding seed_member
seed_member-Among m x ms ms' h k = ground (arith, Among-append m x ms k)

seed_members-Among :
    (m : MemberRow) (ms ms' : List MemberRow) → seed_members ms ≡ ok ms' → Among m ms → Among m ms'
unfolding seed_members
seed_members-Among m ms ms' h k = elim (Result-cases (seed_member default_dad ms)) [
  | inr (x, e) ↦ absurd (ground arith)
  | inl (first, e) ↦ elim (Result-cases (seed_member default_mom first)) [
    | inr (x, f) ↦ absurd (ground arith)
    | inl (second, f) ↦ seed_member-Among m default_daughter second ms' (ground arith) (
        seed_member-Among m default_mom first second f
          (seed_member-Among m default_dad ms first e k))
  ]
]

pub initialize-Keeps :
    (recorded : Bool) (file : DataFile) (db : Database)
    → initialize recorded file ≡ ok db
    → Keeps file (if recorded then 1 else 0) db
unfolding initialize record_start seeded_security
initialize-Keeps recorded file db h = elim (Result-cases (seed_members file.family_members)) [
  | inr (x, e) ↦ absurd (ground arith)
  | inl (members, e) ↦
      let b = Bool-cases recorded in
      record {
        counted = ground (arith, b);
        state = λ s k. ground (arith, b);
        no_state = λ k. ground (arith, b);
        devices = ground (arith, b);
        credentials = ground (arith, b);
        requests = ground (arith, b);
        sessions = ground (arith, b);
        attempts = ground (arith, b);
        codes = ground (arith, b);
        events = ground (arith, b);
        pushes = ground (arith, b);
        members = λ m k. ground (arith, b, seed_members-Among m file.family_members members e k);
        schedules = ground (arith, b);
        participants = ground (arith, b);
      }
]
