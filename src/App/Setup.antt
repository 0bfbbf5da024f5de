-- ===== src/App/Setup.antt =====
-- `setupStatus`, `currentDevice` and `completeSetup` of internal/app/setup.go, with
-- `ensureInitialSetupCode` of internal/app/app.go and `adminSessionActive` of internal/app/admin.go.
pub mod Completion
pub mod Bootstrap
use family_dashboard.Common.{
  ℕ, ◌+◌, ◌*◌, Bool, true, false, not, ◌&&◌, ◌||◌, Option, none, some, [], ltb, leb, if◌then◌else◌,
  Text, trim_space, text_eq, length,
}
use family_dashboard.Time.{Time, minute}
use family_dashboard.Security.{Crypto, hash_pin}
use family_dashboard.Database.State.{
  Database, Hash, Result, ok, err, Outcome, invalid_initial_setup,
}
use family_dashboard.Database.Setup.{
  Device, InitialSetup, setup_required, ensure_initial_setup_code, validate_initial_setup_code,
  complete_initial_setup,
}
use family_dashboard.Database.Admin.{validate_admin_session}
use family_dashboard.App.{
  Platform, Config, Request, Answer, granted, denied, Tokens, DeviceCookies, access_lifetime,
  refresh_lifetime, forbidden, invalid_request, invalid_or_expired_code, server_error,
}
use family_dashboard.App.Access.{
  request_in_networks, authenticated_device, admin_session_cookie, is_tv,
}
use family_dashboard.App.Handlers.{for_device}

-- The code that `ensureInitialSetupCode` stores: that of the configuration, or the one it draws.
unfoldable pub setup_code : Config → Text → Text
setup_code config drawn =
    if text_eq config.initial_setup_code [] then drawn else config.initial_setup_code

unfoldable pub logged : Text → Bool × Database → Option Text × Database
logged code (created, db) = (if created then some code else none, db)

-- `ensureInitialSetupCode`, with the code that it writes to the log; `later` is the reading of the
-- clock within the database.
unfoldable pub ensure_setup_code :
    Platform → Config → Text → Time → Time → Database → Option Text × Database
unfolding logged setup_code setup_required
ensure_setup_code lib config drawn now later db =
    if setup_required db
    then logged (setup_code config drawn) (
        ensure_initial_setup_code (lib.sha256 (setup_code config drawn)) (now + 10 * minute) later
          db)
    else (none, db)

-- `setupStatus`: whether the setup is required, what it writes to the log, and the database.
unfoldable pub setup_status :
    Platform → Config → Text → Time → Time → Database → Bool × (Option Text × Database)
unfolding ensure_setup_code setup_required
setup_status lib config drawn now later db =
    (setup_required db, ensure_setup_code lib config drawn now later db)

-- What `currentDevice` answers, next to the device itself.
pub record CurrentDevice : Type 0 where
  pub device : Device
  pub admin : Bool
  pub can_unlock_admin : Bool

unfoldable pub is_session : Outcome Bool → Bool
is_session (ok active, db) = active
is_session (err e, db) = false

-- `adminSessionActive`; without a refresh the validation writes nothing.
unfoldable pub admin_session_active : Platform → Request → Text → Time → Database → Bool
unfolding is_session admin_session_cookie
admin_session_active lib r device_id now db = elim (admin_session_cookie lib r) [
  | none ↦ false
  | some hash ↦ is_session (validate_admin_session device_id hash none now false db)
]

-- `currentDevice`.
unfoldable pub current_device :
    Platform → Config → Request → Time → Time → Database → Answer CurrentDevice × Database
unfolding for_device admin_session_active is_tv
current_device lib config r now later db =
    for_device (authenticated_device lib config r now db) λ device left. (
      granted (record {
        device = device;
        admin = admin_session_active lib r device.id later left;
        can_unlock_admin = not (is_tv device.device_type);
      }),
      left,
    )

-- The body of `completeSetup`.
pub record SetupRequest : Type 0 where
  pub initial_setup_code : Text
  pub pin : Text
  pub device_name : Text

-- What `completeSetup` draws: the tokens, the recovery code and its id, and the salt of the PIN.
pub record SetupDrawn : Type 0 where
  pub tokens : Tokens
  pub recovery_id : Text
  pub recovery_code : Text
  pub salt : Text

-- What `completeSetup` answers, with the cookies that it sets.
pub record Configured : Type 0 where
  pub recovery_code : Text
  pub device_id : Text
  pub device_name : Text
  pub cookies : DeviceCookies

-- A name of 1 to 80 characters.
unfoldable pub name_fits : Text → Bool
name_fits name = not (ltb (length name) 1 || ltb 80 (length name))

unfoldable pub setup_of : Platform → SetupDrawn → Hash → Text → Text → Time → InitialSetup
setup_of lib drawn code_hash pin_hash name now = record {
  code_hash = code_hash;
  pin_hash = pin_hash;
  device_id = drawn.tokens.device_id;
  device_name = name;
  access_id = drawn.tokens.access_id;
  access_hash = lib.sha256 drawn.tokens.access_token;
  access_expires_at = now + access_lifetime;
  refresh_id = drawn.tokens.refresh_id;
  refresh_hash = lib.sha256 drawn.tokens.refresh_token;
  refresh_family_id = drawn.tokens.family_id;
  refresh_expires_at = now + refresh_lifetime;
  recovery_id = drawn.recovery_id;
  recovery_hash = lib.sha256 drawn.recovery_code;
  now = now;
}

abbrev pub cookies_of : Tokens → DeviceCookies
cookies_of tokens = record { access = tokens.access_token; refresh = tokens.refresh_token }

unfoldable pub setup_answer : SetupDrawn → Text → Outcome (Unit {0}) → Answer Configured × Database
setup_answer drawn name (ok u, db) = (
  granted (record {
    recovery_code = drawn.recovery_code;
    device_id = drawn.tokens.device_id;
    device_name = name;
    cookies = cookies_of drawn.tokens;
  }),
  db,
)
setup_answer drawn name (err invalid_initial_setup, db) = (denied invalid_or_expired_code, db)
setup_answer drawn name (err e, db) = (denied server_error, db)

-- The part behind the validation of the code, given what `HashPIN` returns.
unfoldable pub setup_with_hash :
    Platform
    → SetupDrawn
    → Hash
    → Text
    → Time
    → Database
    → Option Text
    → Answer Configured × Database
unfolding setup_answer setup_of
setup_with_hash lib drawn code_hash name now db none = (denied invalid_request, db)
setup_with_hash lib drawn code_hash name now db (some pin_hash) =
    setup_answer drawn name
      (complete_initial_setup (setup_of lib drawn code_hash pin_hash name now) db)

unfoldable pub setup_validated :
    Platform
    → Crypto
    → SetupDrawn
    → SetupRequest
    → Text
    → Time
    → Database
    → Result Bool
    → Answer Configured × Database
unfolding setup_with_hash
setup_validated lib crypto drawn q name now db (err e) = (denied server_error, db)
setup_validated lib crypto drawn q name now db (ok false) = (denied invalid_or_expired_code, db)
setup_validated lib crypto drawn q name now db (ok true) =
    setup_with_hash lib drawn (lib.sha256 q.initial_setup_code) name now db
      (hash_pin crypto drawn.salt q.pin)

unfoldable pub setup_decoded :
    Platform
    → Crypto
    → SetupDrawn
    → Option SetupRequest
    → Time
    → Database
    → Answer Configured × Database
unfolding setup_validated name_fits
setup_decoded lib crypto drawn none now db = (denied invalid_request, db)
setup_decoded lib crypto drawn (some q) now db =
    if name_fits (trim_space q.device_name)
    then setup_validated lib crypto drawn q (trim_space q.device_name) now db
        (validate_initial_setup_code (lib.sha256 q.initial_setup_code) now db)
    else (denied invalid_request, db)

-- `completeSetup`; `none` is a body that is not one JSON value of the expected shape.
unfoldable pub complete_setup :
    Platform
    → Crypto
    → Config
    → Request
    → SetupDrawn
    → Option SetupRequest
    → Time
    → Database
    → Answer Configured × Database
unfolding setup_decoded request_in_networks
complete_setup lib crypto config r drawn body now db =
    if request_in_networks lib r config.local_networks
    then setup_decoded lib crypto drawn body now db
    else (denied forbidden, db)
