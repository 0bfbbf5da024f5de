-- ===== src/App/Access/Guards.antt =====
-- Whom the guards of internal/app/admin.go let through.
use family_dashboard.Common.{
  subst, ◌≡◌, ◌⊎◌, inl, inr, refl, Bool, true, false, not, ◌&&◌, ◌||◌, Option, none, some, [],
  arith, Text, text_eq, if◌then◌else◌, Bool-cases, Option-cases,
}
use family_dashboard.Time.{Time}
use family_dashboard.Database.State.{Database, Hash, ok, err, Outcome}
use family_dashboard.Database.Setup.{Device, device_by_access_token}
use family_dashboard.Database.Setup.Authentication.{
  IsAuthenticated, device_by_access_token-IsAuthenticated,
}
use family_dashboard.Database.Admin.{validate_admin_session}
use family_dashboard.Database.Admin.Sessions.{IsAccepted, validate_admin_session-IsAccepted}
use family_dashboard.App.{Platform, Config, Request, Answer, granted, denied}
use family_dashboard.App.Access.{
  request_in_networks, valid_same_origin, is_trusted_pc, is_tv, admitted, authenticated_device,
  admin_session_cookie, session_answer, require_admin_of, require_admin, require_content_admin_of,
  require_content_admin, with_device,
}

-- A device that was let in by its cookie, in its network where it is bound to one.
pub record IsAdmitted (lib : Platform) (config : Config) (r : Request) (now : Time) (db : Database)
    (device : Device) : Type 0 where
  pub token : Text
  pub presented : r.device_cookie ≡ some token
  pub known : IsAuthenticated (lib.sha256 token) now db device
  pub at_home : (device.local_only && not (request_in_networks lib r config.local_networks)) ≡ false

admitted-granted :
    (lib : Platform) (config : Config) (r : Request) (found : Outcome Device) (device : Device)
    (db' : Database)
    → admitted lib config r found ≡ (granted device, db')
    → (found.0 ≡ ok device)
      × ((device.local_only && not (request_in_networks lib r config.local_networks)) ≡ false)
unfolding admitted
admitted-granted lib config r (ok d, db) device db' h =
    elim (Bool-cases (d.local_only && not (request_in_networks lib r config.local_networks))) [
      | inl e ↦ absurd (ground arith)
      | inr e ↦ (ground arith, ground arith)
    ]
admitted-granted lib config r (err e, db) device db' h = absurd (ground arith)

pub authenticated_device-IsAdmitted :
    (lib : Platform) (config : Config) (r : Request) (now : Time) (db db' : Database)
    (device : Device)
    → authenticated_device lib config r now db ≡ (granted device, db')
    → IsAdmitted lib config r now db device
unfolding authenticated_device
authenticated_device-IsAdmitted lib config r now db db' device h =
    elim (Option-cases r.device_cookie) [
      | inl e ↦ absurd (ground arith)
      | inr (token, e) ↦
          let (found, home) =
            admitted-granted lib config r (device_by_access_token (lib.sha256 token) now db) device
              db' (ground arith) in
          record {
            token = token;
            presented = e;
            known = device_by_access_token-IsAuthenticated (lib.sha256 token) now db device found;
            at_home = home;
          }
    ]

session_answer-granted :
    (device found : Device) (o : Outcome Bool) (db' : Database)
    → session_answer found o ≡ (granted device, db')
    → (o.0 ≡ ok true) × (found ≡ device)
unfolding session_answer
session_answer-granted device found (ok true, db) db' h = (ground arith, ground arith)
session_answer-granted device found (ok false, db) db' h = absurd (ground arith)
session_answer-granted device found (err e, db) db' h = absurd (ground arith)

-- The token that a guard compares: that of a request which changes something.
abbrev pub asked : Platform → Request → Bool → Option Hash
asked lib r state_change = if state_change then some (lib.sha256 r.csrf_token) else none

-- A session of the device that the request presents, with its CSRF token where one is asked for.
pub record HoldsSession (lib : Platform) (config : Config) (r : Request) (csrf : Option Hash)
    (now : Time) (db : Database) (device : Device) : Type 0 where
  pub hash : Hash
  pub presented : admin_session_cookie lib r ≡ some hash
  pub accepted : IsAccepted device.id hash csrf now db
  pub same_origin :
      (csrf ≡ none)
      ⊎ ((valid_same_origin lib r config.secure_cookies ≡ true) × (text_eq r.csrf_token [] ≡ false))

session_answer-HoldsSession :
    (lib : Platform) (config : Config) (r : Request) (csrf : Option Hash) (refresh : Bool)
    (now : Time) (device found : Device) (hash : Hash) (db db' : Database)
    → admin_session_cookie lib r ≡ some hash
    → (csrf ≡ none)
      ⊎ ((valid_same_origin lib r config.secure_cookies ≡ true) × (text_eq r.csrf_token [] ≡ false))
    → session_answer found (validate_admin_session found.id hash csrf now refresh db)
      ≡ (granted device, db')
    → (found ≡ device) × HoldsSession lib config r csrf now db found
session_answer-HoldsSession lib config r csrf refresh now device found hash db db' e o h =
    let (valid, same) =
      session_answer-granted device found (validate_admin_session found.id hash csrf now refresh db)
        db' h in
    (
      same,
      record {
        hash = hash;
        presented = e;
        accepted = validate_admin_session-IsAccepted found.id hash csrf now refresh db valid;
        same_origin = o;
      },
    )

require_admin_of-granted :
    (lib : Platform) (config : Config) (r : Request) (change : Bool) (now : Time)
    (device found : Device) (db db' : Database)
    → require_admin_of lib config r change now found db ≡ (granted device, db')
    → (is_trusted_pc found.device_type ≡ true)
      × ((found ≡ device) × HoldsSession lib config r (asked lib r change) now db found)
unfolding require_admin_of
require_admin_of-granted lib config r true now device found db db' h =
    elim (Bool-cases (is_trusted_pc found.device_type)) [
      | inr f ↦ absurd (ground arith)
      | inl t ↦ elim (Option-cases (admin_session_cookie lib r)) [
        | inl e ↦ absurd (ground arith)
        | inr (hash, e) ↦
            elim (Bool-cases
              (valid_same_origin lib r config.secure_cookies && not (text_eq r.csrf_token []))) [
                | inr f ↦ absurd (ground arith)
                | inl o ↦ (
                  t,
                  session_answer-HoldsSession lib config r (some (lib.sha256 r.csrf_token)) true now
                      device found hash db db' e
                      (inr (
                        ground (arith, Bool-cases (text_eq r.csrf_token [])),
                        ground (arith, Bool-cases (text_eq r.csrf_token [])),
                      ))
                      (ground arith),
                )
              ]
      ]
    ]
require_admin_of-granted lib config r false now device found db db' h =
    elim (Bool-cases (is_trusted_pc found.device_type)) [
      | inr f ↦ absurd (ground arith)
      | inl t ↦ elim (Option-cases (admin_session_cookie lib r)) [
        | inl e ↦ absurd (ground arith)
        | inr (hash, e) ↦ (
          t,
          session_answer-HoldsSession lib config r none false now device found hash db db' e
              (inl refl) (ground arith),
        )
      ]
    ]

require_content_admin_of-granted :
    (lib : Platform) (config : Config) (r : Request) (now : Time) (device found : Device)
    (db db' : Database)
    → require_content_admin_of lib config r now found db ≡ (granted device, db')
    → (is_tv found.device_type ≡ false)
      × ((found ≡ device) × HoldsSession lib config r (some (lib.sha256 r.csrf_token)) now db found)
unfolding require_content_admin_of
require_content_admin_of-granted lib config r now device found db db' h =
    elim (Bool-cases
      (is_tv found.device_type || not (valid_same_origin lib r config.secure_cookies))) [
        | inl f ↦ absurd (ground arith)
        | inr o ↦ elim (Option-cases (admin_session_cookie lib r)) [
          | inl e ↦ absurd (ground arith)
          | inr (hash, e) ↦ elim (Bool-cases (text_eq r.csrf_token [])) [
            | inl f ↦ absurd (ground arith)
            | inr c ↦ (
              ground (arith, Bool-cases (is_tv found.device_type)),
              session_answer-HoldsSession lib config r (some (lib.sha256 r.csrf_token)) true now
                  device found hash db db' e
                  (inr
                    (ground (arith, Bool-cases (valid_same_origin lib r config.secure_cookies)), c))
                  (ground arith),
            )
          ]
        ]
      ]

with_device-granted :
    (first : Answer Device × Database) (next : Device → Database → Answer Device × Database)
    (device : Device) (db' : Database)
    → with_device first next ≡ (granted device, db')
    → (found : Device) × (first ≡ (granted found, first.1))
      × (next found first.1 ≡ (granted device, db'))
unfolding with_device
with_device-granted (granted found, db) next device db' h = (found, refl, h)
with_device-granted (denied why, db) next device db' h = absurd (ground arith)

-- `requireAdmin` lets through only a trusted PC that its cookie identifies and that holds an
-- administrator session; a request that changes something must also come from the same origin and
-- carry the CSRF token of this session.
pub require_admin-granted :
    (lib : Platform) (config : Config) (r : Request) (change : Bool) (now later : Time)
    (db db' : Database) (device : Device)
    → require_admin lib config r change now later db ≡ (granted device, db')
    → IsAdmitted lib config r now db device
      × (is_trusted_pc device.device_type ≡ true)
      × HoldsSession lib config r
          (asked lib r change)
          later
          (authenticated_device lib config r now db).1
          device
unfolding require_admin
require_admin-granted lib config r change now later db db' device h =
    let (found, first, next) =
      with_device-granted (authenticated_device lib config r now db)
        (require_admin_of lib config r change later) device db' h in
    let (pc, (same, holds)) =
      require_admin_of-granted lib config r change later device found
        (authenticated_device lib config r now db).1 db' next in
    (
      subst (IsAdmitted lib config r now db) same
          (authenticated_device-IsAdmitted lib config r now db _ found first),
      subst (λ (d : Device). is_trusted_pc d.device_type ≡ true) same pc,
      subst
          (HoldsSession lib config r (asked lib r change) later
            (authenticated_device lib config r now db).1)
          same holds,
    )

-- `requireContentAdmin` lets through only a device that its cookie identifies, that is no
-- television and that holds an administrator session, on a request of the same origin which
-- carries the CSRF token of this session.
pub require_content_admin-granted :
    (lib : Platform) (config : Config) (r : Request) (now later : Time) (db db' : Database)
    (device : Device)
    → require_content_admin lib config r now later db ≡ (granted device, db')
    → IsAdmitted lib config r now db device
      × (is_tv device.device_type ≡ false)
      × HoldsSession lib config r
          (some (lib.sha256 r.csrf_token))
          later
          (authenticated_device lib config r now db).1
          device
unfolding require_content_admin
require_content_admin-granted lib config r now later db db' device h =
    let (found, first, next) =
      with_device-granted (authenticated_device lib config r now db)
        (require_content_admin_of lib config r later) device db' h in
    let (kind, (same, holds)) =
      require_content_admin_of-granted lib config r later device found
        (authenticated_device lib config r now db).1 db' next in
    (
      subst (IsAdmitted lib config r now db) same
          (authenticated_device-IsAdmitted lib config r now db _ found first),
      subst (λ (d : Device). is_tv d.device_type ≡ false) same kind,
      subst
          (HoldsSession lib config r (some (lib.sha256 r.csrf_token)) later
            (authenticated_device lib config r now db).1)
          same holds,
    )
