-- ===== src/App/Credentials.antt =====
-- `refreshDevice` of internal/app/credentials.go.
pub mod Refreshing
use family_dashboard.Common.{◌+◌, Option, none, some, [], Text, text_eq, if◌then◌else◌}
use family_dashboard.Time.{Time}
use family_dashboard.Database.State.{
  Database, ok, err, Outcome, unauthenticated, refresh_reuse, local_network_required,
}
use family_dashboard.Database.Credentials.{CredentialRotation, rotate_refresh_credential}
use family_dashboard.App.{
  Platform, Config, Request, Answer, granted, denied, Tokens, DeviceCookies, access_lifetime,
  refresh_lifetime, forbidden, unauthorized, server_error, refresh_reuse_detected,
  refresh_outside_home,
}
use family_dashboard.App.Access.{request_in_networks, valid_same_origin}

-- What an answer does to the cookies of the device: nothing, `clearDeviceCookies`, or
-- `setDeviceCookies`.
pub data CookieChange : Type 0 where
  unchanged cleared : CookieChange
  replaced : DeviceCookies → CookieChange

unfoldable pub rotation_of : Platform → Tokens → Time → CredentialRotation
rotation_of lib tokens now = record {
  access_id = tokens.access_id;
  access_hash = lib.sha256 tokens.access_token;
  access_expires_at = now + access_lifetime;
  refresh_id = tokens.refresh_id;
  refresh_hash = lib.sha256 tokens.refresh_token;
  refresh_expires_at = now + refresh_lifetime;
}

unfoldable pub rotation_answer :
    Tokens → Outcome (Unit {0}) → Answer (Unit {0}) × CookieChange × Database
rotation_answer tokens (ok u, db) = (
  granted tt,
  replaced (record { access = tokens.access_token; refresh = tokens.refresh_token }),
  db,
)
rotation_answer tokens (err unauthenticated, db) = (denied unauthorized, cleared, db)
rotation_answer tokens (err refresh_reuse, db) = (denied refresh_reuse_detected, cleared, db)
rotation_answer tokens (err local_network_required, db) = (denied refresh_outside_home, cleared, db)
rotation_answer tokens (err e, db) = (denied server_error, unchanged, db)

-- `refreshDevice` with the tokens that it draws; a cookie that is absent has no value.
unfoldable pub refresh_device :
    Platform
    → Config
    → Request
    → Tokens
    → Time
    → Database
    → Answer (Unit {0}) × CookieChange × Database
unfolding rotation_answer rotation_of valid_same_origin request_in_networks
refresh_device lib config r tokens now db =
    if valid_same_origin lib r config.secure_cookies
    then elim r.refresh_cookie [
      | none ↦ (denied unauthorized, cleared, db)
      | some token ↦
          if text_eq token []
          then (denied unauthorized, cleared, db)
          else rotation_answer tokens (
              rotate_refresh_credential (lib.sha256 token) (rotation_of lib tokens now)
                (request_in_networks lib r config.local_networks) now db)
    ]
    else (denied forbidden, unchanged, db)
