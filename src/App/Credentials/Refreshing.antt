-- ===== src/App/Credentials/Refreshing.antt =====
-- When `refreshDevice` of internal/app/credentials.go gives a device new cookies, and when it takes
-- its cookies away.
use family_dashboard.Common.{
  ◌≡◌, inl, inr, refl, Bool, true, false, some, [], ◌==◌, arith, Text, text_eq, Among, Bool-cases,
  Option-cases,
}
use family_dashboard.Time.{Time}
use family_dashboard.Database.State.{Database, CredentialRow, ok, err, Outcome}
use family_dashboard.Database.Credentials.{rotate_refresh_credential}
use family_dashboard.Database.Credentials.Reuse.{FamilyRevoked}
use family_dashboard.Database.Credentials.Rotation.{
  Rotated, rotate_refresh_credential-Rotated, rotate_refresh_credential_twice,
}
use family_dashboard.App.{
  Platform, Config, Request, Answer, granted, denied, status_code, Tokens, refresh_reuse_detected,
}
use family_dashboard.App.Access.{request_in_networks, valid_same_origin}
use family_dashboard.App.Setup.{cookies_of}
use family_dashboard.App.Credentials.{
  CookieChange, cleared, replaced, rotation_of, rotation_answer, refresh_device,
}

-- An answer of the status 401.
unfoldable pub is_unauthorized {ℓ} : {A : Type ℓ} → Answer A → Bool
is_unauthorized (granted a) = false
is_unauthorized (denied why) = status_code why == 401

unfoldable pub is_granted {ℓ} : {A : Type ℓ} → Answer A → Bool
is_granted (granted a) = true
is_granted (denied why) = false

unfoldable pub is_cleared : CookieChange → Bool
is_cleared cleared = true
is_cleared change = false

unfoldable pub is_replaced : CookieChange → Bool
is_replaced (replaced cookies) = true
is_replaced change = false

-- The cookies go with the answer.
abbrev pub Fitting : Answer (Unit {0}) × CookieChange × Database → Type 0
Fitting (answer, change, db) =
    (is_cleared change ≡ is_unauthorized answer) × (is_replaced change ≡ is_granted answer)

rotation_answer-Fitting :
    (tokens : Tokens) (o : Outcome (Unit {0})) → Fitting (rotation_answer tokens o)
unfolding rotation_answer is_cleared is_unauthorized is_replaced is_granted status_code
rotation_answer-Fitting tokens (ok u, db) = (refl, refl)
rotation_answer-Fitting tokens (err e, db) = (ground arith, ground arith)

-- Whatever `refreshDevice` is asked, it clears the cookies of the device exactly when it answers
-- 401, and sets new ones exactly when it succeeds.
pub refresh_device-Fitting :
    (lib : Platform) (config : Config) (r : Request) (tokens : Tokens) (now : Time) (db : Database)
    → Fitting (refresh_device lib config r tokens now db)
unfolding refresh_device is_cleared is_unauthorized is_replaced is_granted status_code
refresh_device-Fitting lib config r tokens now db =
    elim (Bool-cases (valid_same_origin lib r config.secure_cookies)) [
      | inr f ↦ rw f (refl, refl)
      | inl o ↦ elim (Option-cases r.refresh_cookie) [
        | inl n ↦ rw (o, n) (refl, refl)
        | inr (token, e) ↦ elim (Bool-cases (text_eq token [])) [
          | inl b ↦ rw (o, e, b) (refl, refl)
          | inr b ↦ rw (o, e, b) (rotation_answer-Fitting tokens _)
        ]
      ]
    ]

-- The run of a refresh that succeeds.
pub record IsRefresh (lib : Platform) (config : Config) (r : Request) (tokens : Tokens) (now : Time)
    (db db' : Database) : Type 0 where
  pub token : Text
  pub presented : r.refresh_cookie ≡ some token
  pub written : text_eq token [] ≡ false
  pub same_origin : valid_same_origin lib r config.secure_cookies ≡ true
  pub rotated :
      rotate_refresh_credential
        (lib.sha256 token)
        (rotation_of lib tokens now)
        (request_in_networks lib r config.local_networks)
        now
        db
      ≡ (ok tt, db')

rotation_answer-granted :
    (tokens : Tokens) (o : Outcome (Unit {0})) (change : CookieChange) (db' : Database)
    → rotation_answer tokens o ≡ (granted tt, change, db')
    → (o ≡ (ok tt, db')) × (change ≡ replaced (cookies_of tokens))
unfolding rotation_answer
rotation_answer-granted tokens (ok u, db) change db' h = (ground arith, ground arith)
rotation_answer-granted tokens (err e, db) change db' h = absurd (ground arith)

refresh_device-IsRefresh :
    (lib : Platform) (config : Config) (r : Request) (tokens : Tokens) (now : Time)
    (db db' : Database) (change : CookieChange)
    → refresh_device lib config r tokens now db ≡ (granted tt, change, db')
    → IsRefresh lib config r tokens now db db' × (change ≡ replaced (cookies_of tokens))
unfolding refresh_device
refresh_device-IsRefresh lib config r tokens now db db' change h =
    elim (Bool-cases (valid_same_origin lib r config.secure_cookies)) [
      | inr f ↦ absurd (ground arith)
      | inl o ↦ elim (Option-cases r.refresh_cookie) [
        | inl n ↦ absurd (ground arith)
        | inr (token, e) ↦ elim (Bool-cases (text_eq token [])) [
          | inl b ↦ absurd (ground arith)
          | inr b ↦
              let (done, set) =
                rotation_answer-granted tokens
                  (rotate_refresh_credential (lib.sha256 token) (rotation_of lib tokens now)
                    (request_in_networks lib r config.local_networks) now db)
                  change db' (ground arith) in
              (
                record {
                  token = token;
                  presented = e;
                  written = b;
                  same_origin = o;
                  rotated = done;
                },
                set,
              )
        ]
      ]
    ]

-- When `refreshDevice` succeeds, the request came from the same origin with a refresh cookie whose
-- credential was unspent and belongs to an active device, in the home network if the device is
-- bound to it, and the cookies that it sets are the tokens it drew. The same request presented
-- again, at any later reading of the clock and whatever is drawn then, is refused as a reuse: the
-- cookies are cleared, and every credential of the family is revoked, those just issued too.
pub refresh_device_once :
    (lib : Platform) (config : Config) (r : Request) (tokens again : Tokens) (now later : Time)
    (db db' : Database) (change : CookieChange)
    → refresh_device lib config r tokens now db ≡ (granted tt, change, db')
    → (change ≡ replaced (cookies_of tokens))
      × ((token : Text) × (r.refresh_cookie ≡ some token)
          × Rotated
              (lib.sha256 token)
              (rotation_of lib tokens now)
              (request_in_networks lib r config.local_networks)
              now
              db
              db'
          × ((after : Database) × (refresh_device lib config r again later db'
                ≡ (denied refresh_reuse_detected, cleared, after))
              × ((c : CredentialRow) × Among c db.device_credentials
                  × (c.token_hash ≡ lib.sha256 token)
                  × FamilyRevoked c.family_id after)))
unfolding refresh_device rotation_answer
refresh_device_once lib config r tokens again now later db db' change h =
    let (run, set) = refresh_device-IsRefresh lib config r tokens now db db' change h in
    let local = request_in_networks lib r config.local_networks in
    let old = lib.sha256 run.token in
    let (refused, (c, among, secret, family)) =
      rotate_refresh_credential_twice old (rotation_of lib tokens now) (rotation_of lib again later)
        local now later db db' run.rotated in
    (
      set,
      (
        run.token,
        run.presented,
        rotate_refresh_credential-Rotated old (rotation_of lib tokens now) local now db db'
            run.rotated,
        (
          (rotate_refresh_credential old (rotation_of lib again later) local later db').1,
          ground (arith, refused, run.presented, run.written, run.same_origin),
          (c, among, secret, family),
        ),
      ),
    )
