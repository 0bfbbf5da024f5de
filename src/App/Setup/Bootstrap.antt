-- ===== src/App/Setup/Bootstrap.antt =====
-- The first start: the code that `setupStatus` of internal/app/setup.go writes to the log leads to
-- a configured dashboard.
use family_dashboard.Common.{
  ◌+◌, ◌*◌, ◌≤◌, ◌≡◌, inl, inr, sym, subst, true, false, none, some, [], ◌∷◌, ◌==◌, arith, Text,
  zero, suc, length, trim_space, text_eq, text_eq_refl, ltb, leb, sql_length, any_row, Option-cases,
  ◌<◌,
}
use family_dashboard.Time.{Time, minute, database_time, year_10000}
use family_dashboard.Time.RoundTrip.{parse-database_time_early}
use family_dashboard.Security.{Crypto, hash_pin, valid_pin}
use family_dashboard.Database.State.{Database, Hash, ok, commit}
use family_dashboard.Database.Statements.{
  insert_device, insert_credential, insert_recovery, insert_event, has_device,
}
use family_dashboard.Database.Setup.{
  InitialSetup, setup_required, ensure_initial_setup_code, validate_initial_setup_code,
  complete_initial_setup, setup_allowed, setup_statements, insert_credentials,
}
use family_dashboard.App.{Platform, Config, Request, granted}
use family_dashboard.App.Access.{request_in_networks}
use family_dashboard.App.Setup.{
  SetupRequest, SetupDrawn, Configured, name_fits, setup_of, setup_answer, setup_with_hash,
  setup_validated, setup_decoded, complete_setup, setup_status, ensure_setup_code, logged,
  cookies_of,
}

sql_length_le : (s : Text) → sql_length s ≤ length s
unfolding sql_length
sql_length_le [] = omega arith
sql_length_le (zero ∷ s) = omega arith
sql_length_le (suc c ∷ s) = omega (arith, sql_length_le s)

-- A database before the setup with a code that is good until `expires`, and the tables that the
-- setup writes to still empty.
record Waiting (code : Hash) (expires : Time) (db : Database) : Type 0 where
  required : db.security_state.setup_complete ≡ false
  hash : db.security_state.initial_code_hash ≡ some code
  good_until : db.security_state.initial_code_expires_at ≡ some (database_time expires)
  unused : db.security_state.initial_code_consumed_at ≡ none
  readable : expires < year_10000
  no_devices : db.devices ≡ []
  no_credentials : db.device_credentials ≡ []
  no_recovery : db.recovery_codes ≡ []

announced-Waiting :
    (lib : Platform) (config : Config) (drawn code : Text) (now later : Time) (db db1 : Database)
    → setup_status lib config drawn now later db ≡ (true, (some code, db1))
    → db.devices ≡ []
    → db.device_credentials ≡ []
    → db.recovery_codes ≡ []
    → now + 10 * minute < year_10000
    → Waiting (lib.sha256 code) (now + 10 * minute) db1
unfolding setup_status ensure_setup_code logged setup_required ensure_initial_setup_code
announced-Waiting lib config drawn code now later db db1 h d c r near = record {
  required = ground arith;
  hash = ground arith;
  good_until = ground arith;
  unused = ground arith;
  readable = near;
  no_devices = ground arith;
  no_credentials = ground arith;
  no_recovery = ground arith;
}

Waiting-validates :
    (code : Hash) (expires at : Time) (db : Database)
    → Waiting code expires db
    → ltb at expires ≡ true
    → validate_initial_setup_code code at db ≡ ok true
unfolding validate_initial_setup_code
Waiting-validates code expires at db w e = ground (
  arith,
  w.required,
  w.hash,
  w.good_until,
  w.unused,
  parse-database_time_early expires w.readable,
)

Waiting-allowed :
    (expires : Time) (setup : InitialSetup) (db : Database)
    → Waiting setup.code_hash expires db
    → ltb setup.now expires ≡ true
    → setup_allowed db.security_state setup ≡ true
unfolding setup_allowed
Waiting-allowed expires setup db w e = ground (
  arith,
  w.required,
  w.hash,
  w.good_until,
  w.unused,
  parse-database_time_early expires w.readable,
)

Waiting-completes :
    (expires : Time) (setup : InitialSetup) (db : Database)
    → Waiting setup.code_hash expires db
    → ltb setup.now expires ≡ true
    → leb 1 (sql_length setup.device_name) ≡ true
    → leb (sql_length setup.device_name) 80 ≡ true
    → text_eq setup.access_id setup.refresh_id ≡ false
    → (setup.access_hash == setup.refresh_hash) ≡ false
    → (db' : Database) × (complete_initial_setup setup db ≡ (ok tt, db'))
unfolding complete_initial_setup setup_statements insert_credentials insert_device insert_credential
    insert_recovery insert_event commit has_device any_row
Waiting-completes expires setup db w e low high ids hashes = (
  (complete_initial_setup setup db).1,
  ground (
    arith,
    Waiting-allowed expires setup db w e,
    w.no_devices,
    w.no_credentials,
    w.no_recovery,
    text_eq_refl setup.device_id,
  ),
)

setup_decoded-granted :
    (lib : Platform) (crypto : Crypto) (drawn : SetupDrawn) (q : SetupRequest) (pin_hash : Text)
    (at : Time) (db db' : Database)
    → name_fits (trim_space q.device_name) ≡ true
    → validate_initial_setup_code (lib.sha256 q.initial_setup_code) at db ≡ ok true
    → hash_pin crypto drawn.salt q.pin ≡ some pin_hash
    → complete_initial_setup
        (setup_of lib drawn
          (lib.sha256 q.initial_setup_code)
          pin_hash
          (trim_space q.device_name)
          at)
        db
      ≡ (ok tt, db')
    → (c : Configured) × (setup_decoded lib crypto drawn (some q) at db ≡ (granted c, db'))
unfolding setup_decoded setup_validated setup_with_hash setup_answer
setup_decoded-granted lib crypto drawn q pin_hash at db db' named coded hashed done = (
  record {
    recovery_code = drawn.recovery_code;
    device_id = drawn.tokens.device_id;
    device_name = trim_space q.device_name;
    cookies = cookies_of drawn.tokens;
  },
  ground arith,
)

hash_pin-some :
    (crypto : Crypto) (salt pin : Text)
    → valid_pin pin ≡ true
    → (pin_hash : Text) × (hash_pin crypto salt pin ≡ some pin_hash)
unfolding hash_pin
hash_pin-some crypto salt pin v = elim (Option-cases (hash_pin crypto salt pin)) [
  | inl n ↦ absurd (ground arith)
  | inr found ↦ found
]

-- A code that `setupStatus` writes to the log, on a database without devices, credentials and
-- recovery codes, configures the dashboard: `completeSetup` succeeds with it at every moment of the
-- ten minutes after it was made, from the home network, with a PIN of four digits and a name of 1
-- to 80 characters that does not begin with a NUL, if the access and the refresh token
-- that it draws differ, in their ids and in their hashes, and the code ends before year 10000.
pub announced-configures :
    (lib : Platform) (crypto : Crypto) (config : Config) (r : Request) (drawn_code code : Text)
    (drawn : SetupDrawn) (q : SetupRequest) (now later at : Time) (db db1 : Database)
    → setup_status lib config drawn_code now later db ≡ (true, (some code, db1))
    → db.devices ≡ []
    → db.device_credentials ≡ []
    → db.recovery_codes ≡ []
    → request_in_networks lib r config.local_networks ≡ true
    → q.initial_setup_code ≡ code
    → name_fits (trim_space q.device_name) ≡ true
    → leb 1 (sql_length (trim_space q.device_name)) ≡ true
    → valid_pin q.pin ≡ true
    → ltb at (now + 10 * minute) ≡ true
    → text_eq drawn.tokens.access_id drawn.tokens.refresh_id ≡ false
    → (lib.sha256 drawn.tokens.access_token == lib.sha256 drawn.tokens.refresh_token) ≡ false
    → now + 10 * minute < year_10000
    → (c : Configured) × (db' : Database) × (complete_setup lib crypto config r drawn
          (some q)
          at
          db1
        ≡ (granted c, db'))
unfolding complete_setup setup_of name_fits
announced-configures lib crypto config r drawn_code code drawn q now later at db db1 h d cr rc home
      same named low v before ids hashes near =
    let w =
      subst (λ (t : Text). Waiting (lib.sha256 t) (now + 10 * minute) db1) (sym same)
        (announced-Waiting lib config drawn_code code now later db db1 h d cr rc near) in
    let (pin_hash, hashed) = hash_pin-some crypto drawn.salt q.pin v in
    let setup =
      setup_of lib drawn (lib.sha256 q.initial_setup_code) pin_hash (trim_space q.device_name) at in
    let (db', done) =
      Waiting-completes (now + 10 * minute) setup db1 w before low
        (ground (arith, sql_length_le (trim_space q.device_name))) ids hashes in
    let (c, answered) =
      setup_decoded-granted lib crypto drawn q pin_hash at db1 db' named
        (Waiting-validates (lib.sha256 q.initial_setup_code) (now + 10 * minute) at db1 w before)
        hashed done in
    (c, db', ground arith)
