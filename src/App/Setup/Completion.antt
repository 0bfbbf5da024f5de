-- ===== src/App/Setup/Completion.antt =====
-- What `completeSetup` of internal/app/setup.go does when it succeeds, and what the first PC can do
-- afterwards.
use family_dashboard.Common.{
  ℕ, ◌+◌, ◌≡◌, inl, inr, refl, Bool, true, false, Option, none, some, ◌==◌, arith, Text, length,
  trim_space, AllRows, Bool-cases,
}
use family_dashboard.Time.{Time, database_time, time_text_lt}
use family_dashboard.Security.{Crypto, hash_pin, verify_pin}
use family_dashboard.Security.Hashing.{verify_pin-hash_pin}
use family_dashboard.Database.State.{Database, Hash, Result, ok, err, Outcome, trusted_pc}
use family_dashboard.Database.Setup.{
  setup_required, validate_initial_setup_code, complete_initial_setup, device_by_access_token,
}
use family_dashboard.Database.Setup.Once.{
  complete_initial_setup_once, complete_initial_setup-ok, setup_statements-security,
}
use family_dashboard.Database.Setup.Access.{setup-authenticates}
use family_dashboard.App.{Platform, Config, Request, granted, access_lifetime}
use family_dashboard.App.Access.{request_in_networks}
use family_dashboard.App.Setup.{
  SetupRequest, SetupDrawn, Configured, name_fits, setup_of, setup_answer, setup_with_hash,
  setup_validated, setup_decoded, complete_setup,
}

-- The run of a setup that succeeds.
pub record IsSetup (lib : Platform) (crypto : Crypto) (config : Config) (r : Request)
    (drawn : SetupDrawn) (body : Option SetupRequest) (now : Time) (db db' : Database)
    : Type 0 where
  pub request : SetupRequest
  pub posted : body ≡ some request
  pub at_home : request_in_networks lib r config.local_networks ≡ true
  pub named : name_fits (trim_space request.device_name) ≡ true
  pub coded : validate_initial_setup_code (lib.sha256 request.initial_setup_code) now db ≡ ok true
  pub pin_hash : Text
  pub hashed : hash_pin crypto drawn.salt request.pin ≡ some pin_hash
  pub completed :
      complete_initial_setup
        (setup_of lib drawn
          (lib.sha256 request.initial_setup_code)
          pin_hash
          (trim_space request.device_name)
          now)
        db
      ≡ (ok tt, db')

setup_answer-granted :
    (drawn : SetupDrawn) (name : Text) (o : Outcome (Unit {0})) (c : Configured) (db' : Database)
    → setup_answer drawn name o ≡ (granted c, db')
    → o ≡ (ok tt, db')
unfolding setup_answer
setup_answer-granted drawn name (ok u, db) c db' h = ground arith
setup_answer-granted drawn name (err e, db) c db' h = absurd (ground arith)

setup_with_hash-granted :
    (lib : Platform) (drawn : SetupDrawn) (code : Hash) (name : Text) (now : Time) (db : Database)
    (o : Option Text) (c : Configured) (db' : Database)
    → setup_with_hash lib drawn code name now db o ≡ (granted c, db')
    → (pin_hash : Text) × (o ≡ some pin_hash)
      × (complete_initial_setup (setup_of lib drawn code pin_hash name now) db ≡ (ok tt, db'))
unfolding setup_with_hash
setup_with_hash-granted lib drawn code name now db none c db' h = absurd (ground arith)
setup_with_hash-granted lib drawn code name now db (some p) c db' h =
    (p, refl, setup_answer-granted drawn name _ c db' h)

setup_validated-granted :
    (lib : Platform) (crypto : Crypto) (drawn : SetupDrawn) (q : SetupRequest) (name : Text)
    (now : Time) (db : Database) (o : Result Bool) (c : Configured) (db' : Database)
    → setup_validated lib crypto drawn q name now db o ≡ (granted c, db')
    → (o ≡ ok true)
      × (setup_with_hash lib drawn
            (lib.sha256 q.initial_setup_code)
            name
            now
            db
            (hash_pin crypto drawn.salt q.pin)
          ≡ (granted c, db'))
unfolding setup_validated
setup_validated-granted lib crypto drawn q name now db (ok true) c db' h = (refl, h)
setup_validated-granted lib crypto drawn q name now db (ok false) c db' h = absurd (ground arith)
setup_validated-granted lib crypto drawn q name now db (err e) c db' h = absurd (ground arith)

-- `completeSetup` succeeds only for a request from the home network whose body has a name of 1 to
-- 80 characters, the valid setup code and a PIN that can be hashed; then the database has
-- completed the setup with the hash of this PIN.
pub complete_setup-IsSetup :
    (lib : Platform) (crypto : Crypto) (config : Config) (r : Request) (drawn : SetupDrawn)
    (body : Option SetupRequest) (now : Time) (db db' : Database) (c : Configured)
    → complete_setup lib crypto config r drawn body now db ≡ (granted c, db')
    → IsSetup lib crypto config r drawn body now db db'
unfolding complete_setup setup_decoded
complete_setup-IsSetup lib crypto config r drawn none now db db' c h = absurd (ground arith)
complete_setup-IsSetup lib crypto config r drawn (some q) now db db' c h =
    elim (Bool-cases (request_in_networks lib r config.local_networks)) [
      | inr f ↦ absurd (ground arith)
      | inl home ↦ elim (Bool-cases (name_fits (trim_space q.device_name))) [
        | inr f ↦ absurd (ground arith)
        | inl named ↦
            let (coded, rest) =
              setup_validated-granted lib crypto drawn q (trim_space q.device_name) now db
                (validate_initial_setup_code (lib.sha256 q.initial_setup_code) now db) c db'
                (ground arith) in
            let (p, hashed, done) =
              setup_with_hash-granted lib drawn (lib.sha256 q.initial_setup_code)
                (trim_space q.device_name) now db (hash_pin crypto drawn.salt q.pin) c db' rest in
            record {
              request = q;
              posted = refl;
              at_home = home;
              named = named;
              coded = coded;
              pin_hash = p;
              hashed = hashed;
              completed = done;
            }
      ]
    ]

-- What the first PC has after the setup: its cookie authenticates it, under its name, until the
-- lifetime of the access token is over; the stored hash accepts the PIN; the setup is over.
pub record IsReady (lib : Platform) (crypto : Crypto) (drawn : SetupDrawn)
    (body : Option SetupRequest) (now : Time) (db' : Database) : Type 0 where
  pub request : SetupRequest
  pub posted : body ≡ some request
  pub pin_hash : Text
  pub stored : db'.security_state.pin_hash ≡ some pin_hash
  pub pin_accepted : verify_pin crypto pin_hash request.pin ≡ some true
  pub authenticated :
      (at : Time)
      → time_text_lt (database_time at) (database_time (now + access_lifetime)) ≡ true
      → (device_by_access_token (lib.sha256 drawn.tokens.access_token) at db').0
        ≡ ok (record {
          id = drawn.tokens.device_id;
          name = trim_space request.device_name;
          device_type = trusted_pc;
          owner = none;
          local_only = false;
        })
  pub over : setup_required db' ≡ false

-- After `completeSetup` has succeeded, with a salt of sixteen bytes, the access cookie that it sets
-- authenticates the trusted PC by the trimmed name until the lifetime of the token is over, the
-- stored hash accepts the PIN of the body, and no setup is required any more. The hypotheses on
-- the libraries are those of base64 and Argon2id for hashing a PIN.
pub complete_setup-IsReady :
    (lib : Platform) (crypto : Crypto) (config : Config) (r : Request) (drawn : SetupDrawn)
    (body : Option SetupRequest) (now : Time) (db db' : Database) (c : Configured)
    → ((b : Text) → crypto.decode_base64 (crypto.encode_base64 b) ≡ some b)
    → ((b : Text) → AllRows (λ (c : ℕ). (c == b'$') ≡ false) (crypto.encode_base64 b))
    → ((pin salt : Text) (t m p n : ℕ) → length (crypto.id_key pin salt t m p n) ≡ n)
    → length drawn.salt ≡ 16
    → complete_setup lib crypto config r drawn body now db ≡ (granted c, db')
    → IsReady lib crypto drawn body now db'
unfolding setup_of
complete_setup-IsReady lib crypto config r drawn body now db db' c decodes alphabet key_length salt
      h =
    let run = complete_setup-IsSetup lib crypto config r drawn body now db db' c h in
    let setup =
      setup_of lib drawn (lib.sha256 run.request.initial_setup_code) run.pin_hash
        (trim_space run.request.device_name) now in
    let ran = (complete_initial_setup-ok setup db db' run.completed).1 in
    record {
      request = run.request;
      posted = run.posted;
      pin_hash = run.pin_hash;
      stored = (setup_statements-security setup db db' ran).1;
      pin_accepted =
          (verify_pin-hash_pin crypto decodes alphabet key_length drawn.salt run.request.pin
            run.pin_hash salt run.hashed).0;
      authenticated = λ at before. setup-authenticates setup db db' at run.completed before;
      over = (complete_initial_setup_once setup db db' run.completed).1;
    }
