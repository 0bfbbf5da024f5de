-- ===== src/Database/Setup.antt =====
-- internal/database/database.go: the first start, the initial setup code, the setup of the first
-- trusted PC and the authentication of a device by its access token.
pub mod Once
pub mod Access
pub mod Authentication
use family_dashboard.Common.{
  ℕ, ◌+◌, Bool, true, false, not, ◌&&◌, ◌||◌, Option, none, some, List, [], ◌∷◌, ◌++◌, ltb, ◌==◌,
  if◌then◌else◌, Text, text_eq, find_pair, update_rows,
}
use family_dashboard.Time.{
  Time, TimeText, database_time, time_text_lt, time_text_le, parse_database_time,
}
use family_dashboard.Database.State.{
  Database, Security, DeviceRow, CredentialRow, RecoveryRow, DeviceType, trusted_pc, Owner, active,
  CredentialType, access, refresh, Hash, Result, ok, err, ◌>>=◌, Outcome, commit, is_null,
  is_active, is_access, invalid_initial_setup, unauthenticated, bad_time, initial_setup, success,
  trusted_pc_created,
}
use family_dashboard.Database.Statements.{
  insert_device, insert_credential, insert_recovery, insert_event,
}

pub record Device : Type 0 where
  pub id : Text
  pub name : Text
  pub device_type : DeviceType
  pub owner : Option Owner
  pub local_only : Bool

pub record InitialSetup : Type 0 where
  pub code_hash : Hash
  pub pin_hash : Text
  pub device_id : Text
  pub device_name : Text
  pub access_id : Text
  pub access_hash : Hash
  pub access_expires_at : Time
  pub refresh_id : Text
  pub refresh_hash : Hash
  pub refresh_family_id : Text
  pub refresh_expires_at : Time
  pub recovery_id : Text
  pub recovery_hash : Hash
  pub now : Time

-- `StartCount` counts these: the statement that `initialize` adds when it records a start.
unfoldable pub record_start : Database → Database
record_start db = record db { start_count = db.start_count + 1 }

unfoldable pub setup_required : Database → Bool
setup_required db = not db.security_state.setup_complete

-- `initial_code_hash IS NULL OR initial_code_expires_at <= ?`; a comparison with NULL is not true.
unfoldable pub code_replaceable : Security → TimeText → Bool
unfolding is_null time_text_le
code_replaceable s now =
    is_null s.initial_code_hash
    || elim s.initial_code_expires_at [ none ↦ false | some expires ↦ time_text_le expires now ]

-- `EnsureInitialSetupCode`; the result says whether a code was stored.
unfoldable pub ensure_initial_setup_code : Hash → Time → Time → Database → Bool × Database
unfolding code_replaceable
ensure_initial_setup_code hash expires_at now db =
    let s = db.security_state in
    if not s.setup_complete && code_replaceable s (database_time now)
    then (
      true,
      record db {
        security_state = record s {
          initial_code_hash = some hash;
          initial_code_expires_at = some (database_time expires_at);
          initial_code_consumed_at = none;
          updated_at = some (database_time now);
        };
      },
    )
    else (false, db)

-- `subtle.ConstantTimeCompare` with a column that may be NULL.
unfoldable pub hash_matches : Option Hash → Hash → Bool
hash_matches none hash = false
hash_matches (some stored) hash = stored == hash

-- `ValidateInitialSetupCode`.
unfoldable pub validate_initial_setup_code : Hash → Time → Database → Result Bool
unfolding hash_matches is_null
validate_initial_setup_code hash now db =
    let s = db.security_state in
    elim s.initial_code_expires_at [
      | none ↦ ok false
      | some text ↦
          if s.setup_complete || not (is_null s.initial_code_consumed_at)
          then ok false
          else elim (parse_database_time text) [
            | none ↦ err bad_time
            | some expires ↦ ok (ltb now expires && hash_matches s.initial_code_hash hash)
          ]
    ]

-- The guards of `CompleteInitialSetup`: an expiry that does not parse is refused like the rest.
unfoldable pub setup_allowed : Security → InitialSetup → Bool
unfolding hash_matches is_null
setup_allowed s setup = elim s.initial_code_expires_at [
  | none ↦ false
  | some text ↦ elim (parse_database_time text) [
    | none ↦ false
    | some expires ↦
        not s.setup_complete
        && is_null s.initial_code_consumed_at
        && ltb setup.now expires
        && hash_matches s.initial_code_hash setup.code_hash
  ]
]

-- A new credential of a device.
abbrev pub new_credential :
    Text → CredentialType → Hash → Text → Time → Text → TimeText → CredentialRow
new_credential id kind hash family expires device_id now = record {
  id = id;
  device_id = device_id;
  credential_type = kind;
  token_hash = hash;
  family_id = family;
  expires_at = database_time expires;
  created_at = now;
  consumed_at = none;
  revoked_at = none;
}

abbrev pub completed : Security → InitialSetup → TimeText → Security
completed s setup now = record s {
  setup_complete = true;
  pin_hash = some setup.pin_hash;
  initial_code_hash = none;
  initial_code_consumed_at = some now;
  updated_at = some now;
}

abbrev pub trusted_device : InitialSetup → TimeText → DeviceRow
trusted_device setup now = record {
  id = setup.device_id;
  name = setup.device_name;
  device_type = trusted_pc;
  owner = none;
  local_only = false;
  status = active;
  created_at = now;
  last_used_at = some now;
  revoked_at = none;
}

-- The rows for the two tokens of a device, as the loops over `credentials` insert them.
unfoldable pub insert_credentials : InitialSetup → TimeText → Database → Result Database
unfolding insert_credential
insert_credentials setup now db = do
  db1 ←
      insert_credential
        (new_credential setup.access_id access setup.access_hash setup.refresh_family_id
          setup.access_expires_at setup.device_id now)
        db
  insert_credential
      (new_credential setup.refresh_id refresh setup.refresh_hash setup.refresh_family_id
        setup.refresh_expires_at setup.device_id now)
      db1

unfoldable pub setup_statements : InitialSetup → TimeText → Database → Result Database
unfolding insert_device insert_credentials insert_recovery insert_event
setup_statements setup now db = do
  let db0 = record db { security_state = completed db.security_state setup now }
  db1 ← insert_device (trusted_device setup now) db0
  db2 ← insert_credentials setup now db1
  db3 ←
      insert_recovery
        (record {
          id = setup.recovery_id;
          code_hash = setup.recovery_hash;
          created_at = now;
          consumed_at = none;
        })
        db2
  insert_event initial_setup setup.device_id success trusted_pc_created now db3

-- `CompleteInitialSetup`.
unfoldable pub complete_initial_setup : InitialSetup → Database → Outcome (Unit {0})
unfolding setup_allowed setup_statements commit
complete_initial_setup setup db =
    if setup_allowed db.security_state setup
    then commit db (setup_statements setup (database_time setup.now) db)
    else (err invalid_initial_setup, db)

-- The join and condition of `DeviceByAccessToken`.
unfoldable pub authenticates : Hash → TimeText → CredentialRow → DeviceRow → Bool
unfolding is_access is_null is_active
authenticates hash now c d =
    text_eq d.id c.device_id
    && is_access c.credential_type
    && c.token_hash == hash
    && is_null c.consumed_at
    && is_null c.revoked_at
    && time_text_lt now c.expires_at
    && is_active d.status

abbrev pub device_of : DeviceRow → Device
device_of d = record {
  id = d.id;
  name = d.name;
  device_type = d.device_type;
  owner = d.owner;
  local_only = d.local_only;
}

-- `UPDATE devices SET last_used_at = ? WHERE id = ?`.
unfoldable pub touch_device : Text → TimeText → Database → Database
touch_device id now db = record db {
  devices =
      update_rows (λ (d : DeviceRow). text_eq d.id id)
        (λ (d : DeviceRow). record d { last_used_at = some now }) db.devices;
}

-- `DeviceByAccessToken`.
unfoldable pub device_by_access_token : Hash → Time → Database → Outcome Device
unfolding touch_device
device_by_access_token hash now db =
    let stamp = database_time now in
    elim (find_pair (authenticates hash stamp) db.device_credentials db.devices) [
      | none ↦ (err unauthenticated, db)
      | some (c, d) ↦ (ok (device_of d), touch_device d.id stamp db)
    ]
