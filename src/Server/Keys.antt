-- ===== src/Server/Keys.antt =====
-- The keys that `-generate-vapid-keys` of cmd/server/main.go prints, in a later run.
use family_dashboard.Server.Runs.{loaded-record_start}
use family_dashboard.Database.Opening.{DataFile, initialize}
use family_dashboard.Common.{
  ℕ, ◌≡◌, ◌≢◌, ◌∙◌, sym, ap, inl, inr, Bool, true, false, Option, none, some, List, [], Text, codes,
  arith, if◌then◌else◌, ◌==◌, length, text_eq, text_eq→eq, text_eq_refl, Bool-cases, Option-cases,
}
use family_dashboard.Time.{Time}
use family_dashboard.Security.Vapid.{
  Curve, DrawnKeys, KeyTexts, generate_vapid_keys, validate_vapid_keys, is_key_pair,
  is_uncompressed_point,
}
use family_dashboard.Database.State.{Database, ok}
use family_dashboard.Database.Setup.{Device}
use family_dashboard.App.Setup.{ensure_setup_code}
use family_dashboard.App.{Platform, Config, Request, granted}
use family_dashboard.App.Access.{authenticated_device}
use family_dashboard.App.Push.{PushConfig, push_config, push_eligible}
use family_dashboard.App.Startup.{new_application, keys_accepted, new_application-push}
use family_dashboard.Server.{
  System, load_config, parse_prefixes, env_bool, networks_key, secure_cookies_key,
}
use family_dashboard.Server.Main.{
  Flags, printed, serving, Process, main, run_configured, run_application, print_keys,
}

abbrev pub generating : Flags
generating = record { check_db = false; generate_vapid_keys = true }

abbrev pub no_flags : Flags
no_flags = record { check_db = false; generate_vapid_keys = false }

module _ (curve : Curve)
    (decodes : (b : List ℕ) → curve.decode_base64_url (curve.encode_base64_url b) ≡ some b)
    (decodes_empty : curve.decode_base64_url [] ≡ some []) where
  encoded_nonempty : (b : List ℕ) → b ≢ [] → text_eq (curve.encode_base64_url b) [] ≡ false
  encoded_nonempty b n = elim (Bool-cases (text_eq (curve.encode_base64_url b) [])) [
    | inr f ↦ f
    | inl t ↦
        let empty = text_eq→eq (curve.encode_base64_url b) [] t in
        let same : some b ≡ some [] =
          sym (decodes b) ∙ ap curve.decode_base64_url empty ∙ decodes_empty in
        absurd (n (ground arith))
  ]

  generated-valid :
      (private : List ℕ)
      → (length private == 32) ≡ true
      → is_uncompressed_point (curve.public_point private) ≡ true
      → validate_vapid_keys curve
          (curve.encode_base64_url private)
          (curve.encode_base64_url (curve.public_point private))
        ≡ true
  unfolding validate_vapid_keys is_key_pair
  generated-valid private n u = ground (
    arith,
    decodes private,
    decodes (curve.public_point private),
    text_eq_refl (curve.public_point private),
  )

  generated-accepted :
      (private : List ℕ) (config : Config)
      → length private ≡ 32
      → is_uncompressed_point (curve.public_point private) ≡ true
      → config.vapid_public_key ≡ curve.encode_base64_url (curve.public_point private)
      → config.vapid_private_key ≡ curve.encode_base64_url private
      → (text_eq config.vapid_public_key [] ≡ false) × (keys_accepted curve config ≡ true)
  unfolding keys_accepted is_uncompressed_point
  generated-accepted private config n u public secret =
      let valid = generated-valid private (ground arith) u in
      let public_there =
        encoded_nonempty (curve.public_point private) (λ e. absurd (ground arith)) in
      let secret_there = encoded_nonempty private (λ e. absurd (ground arith)) in
      (ground arith, ground arith)

loaded-keys :
    (system : System) (check_db : Bool) (config : Config)
    → load_config system check_db ≡ some config
    → (config.vapid_public_key ≡ system.getenv (codes "FAMILY_DASHBOARD_VAPID_PUBLIC_KEY"))
      × (config.vapid_private_key ≡ system.getenv (codes "FAMILY_DASHBOARD_VAPID_PRIVATE_KEY"))
unfolding load_config
loaded-keys system check_db config h =
    elim (Option-cases (parse_prefixes system (system.getenv networks_key))) [
      | inl n ↦ absurd (ground arith)
      | inr (networks, e) ↦ elim (Option-cases (env_bool system secure_cookies_key true)) [
        | inl n ↦ absurd (ground arith)
        | inr (secure, f) ↦ (ground arith, ground arith)
      ]
    ]

new_application-accepted :
    (curve : Curve) (lib : Platform) (config : Config) (drawn : Text) (now later : Time)
    (file : DataFile) (db : Database)
    → keys_accepted curve config ≡ true
    → initialize config.record_start file ≡ ok db
    → (made : Option Text × Database) × (new_application curve lib config drawn now later file
        ≡ some made)
unfolding new_application
new_application-accepted curve lib config drawn now later file db k opened =
    elim (Bool-cases config.record_start) [
      | inl t ↦ (ensure_setup_code lib config drawn now later db, ground (arith, opened))
      | inr f ↦ ((none, db), ground (arith, opened))
    ]

-- The keys that a run with the flag prints.
printed-keys :
    (process : Process) (file : DataFile) (keys : KeyTexts) (drawn : DrawnKeys)
    → process.drawn_keys ≡ some drawn
    → (main process generating file).0 ≡ printed keys
    → (keys.private_key ≡ process.curve.encode_base64_url drawn.private)
      × (keys.public_key ≡ process.curve.encode_base64_url drawn.point)
unfolding main print_keys generate_vapid_keys
printed-keys process file keys drawn d h = (ground (arith, d), ground (arith, d))

served-push :
    (next : Process) (config : Config) (file : DataFile) (db : Database)
    → load_config next.system false ≡ some config
    → keys_accepted next.curve config ≡ true
    → initialize config.record_start file ≡ ok db
    → (code : Option Text) × ((main next no_flags file).0 ≡ serving config code)
unfolding main run_configured run_application
served-push next config file db loaded k opened =
    let (made, e) =
      new_application-accepted next.curve next.platform config next.drawn_code next.now next.later
        file db k opened in
    (made.0, ground (arith, loaded, e))

-- The keys that a run with `-generate-vapid-keys` prints work: a later process that finds them in
-- its environment, and whose other variables parse, on a data file that can be opened, becomes a
-- server, and `pushConfig` answers every device that may have push with this public key. The base64
-- of Go's packages decodes what it encodes, a private key has 32 bytes, and the point of its public
-- key is uncompressed.
pub printed_keys-serve :
    (process next : Process) (private : List ℕ) (keys : KeyTexts) (config : Config)
    (first file : DataFile) (db before after : Database) (r : Request) (at : Time) (device : Device)
    → ((b : List ℕ) → next.curve.decode_base64_url (next.curve.encode_base64_url b) ≡ some b)
    → next.curve.decode_base64_url [] ≡ some []
    → process.curve ≡ next.curve
    → ((text : Text) → next.curve.decode_base64_url text ≡ next.platform.decode_base64_url text)
    → process.drawn_keys
      ≡ some (record { private = private; point = next.curve.public_point private })
    → length private ≡ 32
    → is_uncompressed_point (next.curve.public_point private) ≡ true
    → (main process generating first).0 ≡ printed keys
    → next.system.getenv (codes "FAMILY_DASHBOARD_VAPID_PUBLIC_KEY") ≡ keys.public_key
    → next.system.getenv (codes "FAMILY_DASHBOARD_VAPID_PRIVATE_KEY") ≡ keys.private_key
    → load_config next.system false ≡ some config
    → initialize true file ≡ ok db
    → authenticated_device next.platform config r at before ≡ (granted device, after)
    → ((code : Option Text) × ((main next no_flags file).0 ≡ serving config code))
      × ((c : PushConfig) × (push_config next.platform config r at before ≡ (granted c, after))
          × (c.enabled ≡ push_eligible device.device_type)
          × (c.public_key ≡ (if push_eligible device.device_type then keys.public_key else [])))
unfolding keys_accepted
printed_keys-serve process next private keys config first file db before after r at device decodes
      empty same agrees drawn size point ran public_set private_set loaded opened known =
    let curve = next.curve in
    let (private_is, public_is) =
      printed-keys process first keys
        (record { private = private; point = curve.public_point private }) drawn ran in
    let (public_read, private_read) = loaded-keys next.system false config loaded in
    let public : config.vapid_public_key ≡ curve.encode_base64_url (curve.public_point private) =
      public_read
      ∙ public_set
      ∙ public_is
      ∙ ap (λ (c : Curve). c.encode_base64_url (curve.public_point private)) same in
    let secret : config.vapid_private_key ≡ curve.encode_base64_url private =
      private_read
      ∙ private_set
      ∙ private_is
      ∙ ap (λ (c : Curve). c.encode_base64_url private) same in
    let (there, accepted) =
      generated-accepted curve decodes empty private config size point public secret in
    let ready : initialize config.record_start file ≡ ok db =
      ap (λ b. initialize b file) (loaded-record_start next.system false config loaded) ∙ opened in
    let (made, e) =
      new_application-accepted curve next.platform config next.drawn_code next.now next.later file
        db accepted ready in
    let (c, answered, eligible, enabled, shown) =
      new_application-push curve next.platform config next.drawn_code next.now next.later file made
        r at before after device agrees e there known in
    (
      served-push next config file db loaded accepted ready,
      (c, answered, enabled ∙ eligible, ground arith),
    )
