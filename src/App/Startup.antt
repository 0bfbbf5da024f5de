-- ===== src/App/Startup.antt =====
-- `New` of internal/app/app.go, and the push configuration of the application that it makes.
use family_dashboard.Database.Opening.{DataFile, initialize}
use family_dashboard.Common.{
  ℕ, ◌≡◌, inl, inr, refl, Bool, true, false, not, ◌&&◌, Option, none, some, List, [], arith, Text,
  text_eq, if◌then◌else◌, Bool-cases,
}
use family_dashboard.Time.{Time}
use family_dashboard.Security.Vapid.{Curve, is_uncompressed_point, is_key_pair, validate_vapid_keys}
use family_dashboard.Database.State.{Database, ok, err}
use family_dashboard.Database.Setup.{Device}
use family_dashboard.Database.Push.{push_subscription_active}
use family_dashboard.App.{Platform, Config, Request, granted}
use family_dashboard.App.Access.{authenticated_device}
use family_dashboard.App.Handlers.{for_device}
use family_dashboard.App.Setup.{ensure_setup_code}
use family_dashboard.App.Push.{push_eligible, valid_vapid_public_key, PushConfig, push_config}

-- The keys of the configuration: both are missing, or they are a pair.
unfoldable pub keys_accepted : Curve → Config → Bool
unfolding validate_vapid_keys
keys_accepted curve config =
    if text_eq config.vapid_public_key []
    then text_eq config.vapid_private_key []
    else not (text_eq config.vapid_private_key [])
      && validate_vapid_keys curve config.vapid_private_key config.vapid_public_key

-- `New` on a data file, with the setup code that it writes to the log; `none` is its error, of the
-- keys before the file is opened, or of `database.Open`, which leaves the file as it is.
unfoldable pub new_application :
    Curve → Platform → Config → Text → Time → Time → DataFile → Option (Option Text × Database)
unfolding keys_accepted ensure_setup_code initialize
new_application curve lib config drawn now later file =
    if keys_accepted curve config
    then elim (initialize config.record_start file) [
      | err e ↦ none
      | ok db ↦
          if config.record_start
          then some (ensure_setup_code lib config drawn now later db)
          else some (none, db)
    ]
    else none

key_pair-point :
    (curve : Curve) (private public : Option (List ℕ))
    → is_key_pair curve private public ≡ true
    → (bytes : List ℕ) × (public ≡ some bytes) × (is_uncompressed_point bytes ≡ true)
unfolding is_key_pair
key_pair-point curve (some private) (some public) h =
    (public, refl, ground (arith, Bool-cases (is_uncompressed_point public)))
key_pair-point curve (some private) none h = absurd (ground arith)
key_pair-point curve none (some public) h = absurd (ground arith)
key_pair-point curve none none h = absurd (ground arith)

keys_accepted-valid :
    (curve : Curve) (lib : Platform) (config : Config)
    → ((text : Text) → curve.decode_base64_url text ≡ lib.decode_base64_url text)
    → keys_accepted curve config ≡ true
    → text_eq config.vapid_public_key [] ≡ false
    → valid_vapid_public_key lib config.vapid_public_key ≡ true
unfolding keys_accepted validate_vapid_keys valid_vapid_public_key
keys_accepted-valid curve lib config same h public =
    let (bytes, decoded, point) =
      key_pair-point curve (curve.decode_base64_url config.vapid_private_key)
        (curve.decode_base64_url config.vapid_public_key)
        (ground (arith, Bool-cases (text_eq config.vapid_private_key []))) in
    ground (arith, same config.vapid_public_key)

-- An application that `New` accepts, with a public VAPID key configured, offers push to every
-- device that may have it: `pushConfig` answers such a device that push is enabled, with the key of
-- the configuration, and another device that it is neither eligible nor enabled, without a key.
pub new_application-push :
    (curve : Curve) (lib : Platform) (config : Config) (drawn : Text) (now later : Time)
    (file : DataFile) (made : Option Text × Database) (r : Request) (at : Time)
    (before after : Database) (device : Device)
    → ((text : Text) → curve.decode_base64_url text ≡ lib.decode_base64_url text)
    → new_application curve lib config drawn now later file ≡ some made
    → text_eq config.vapid_public_key [] ≡ false
    → authenticated_device lib config r at before ≡ (granted device, after)
    → (c : PushConfig) × (push_config lib config r at before ≡ (granted c, after))
      × (c.eligible ≡ push_eligible device.device_type)
      × (c.enabled ≡ c.eligible)
      × (c.public_key ≡ (if c.eligible then config.vapid_public_key else []))
unfolding new_application push_config for_device
new_application-push curve lib config drawn now later file made r at before after device same h
      public known =
    elim (Bool-cases (keys_accepted curve config)) [
      | inr f ↦ absurd (ground arith)
      | inl accepted ↦
          let valid = keys_accepted-valid curve lib config same accepted public in
          (
            (record {
              enabled = push_eligible device.device_type;
              eligible = push_eligible device.device_type;
              subscribed =
                  push_eligible device.device_type && push_subscription_active device.id after;
              public_key = if push_eligible device.device_type then config.vapid_public_key else [];
            }),
            ground (arith, known, valid, Bool-cases (push_eligible device.device_type)),
            refl,
            refl,
            refl,
          )
    ]
