-- ===== src/App/Push/Delivery.antt =====
-- The subscriptions of a device behind the handlers of internal/app/push.go.
use family_dashboard.Common.{
  ℕ, ◌≡◌, ◌⊎◌, ◌≤◌, ◌<◌, inl, inr, refl, true, false, ◌&&◌, Option, none, some, arith, Text,
  Bool-cases,
}
use family_dashboard.Time.{Time, zero_time}
use family_dashboard.Database.State.{Database, ok, err, Outcome}
use family_dashboard.Database.Setup.{Device}
use family_dashboard.Database.Push.{
  PushSubscription, push_subscription_active, active_push_subscription, replace_push_subscription,
}
use family_dashboard.Database.Push.Replacement.{replace_push_subscription-active}
use family_dashboard.App.{
  Platform, Config, Request, Answer, granted, denied, subscription_expired, delivery_rejected,
  delivery_failed, Denial,
}
use family_dashboard.App.Access.{authenticated_device, valid_same_origin}
use family_dashboard.App.Access.Guards.{IsAdmitted, HoldsSession, authenticated_device-IsAdmitted}
use family_dashboard.App.Handlers.Writes.{for_device-granted}
use family_dashboard.App.Push.{
  push_eligible, valid_vapid_public_key, valid_subscription, PushRequest, subscription_of,
  stored_answer, replace_decoded, replace_for, replace_subscription,
}
use family_dashboard.App.TestPush.{require_push_admin, send_test_push}

-- The run of a replacement that succeeds, and what it leaves.
pub record IsSubscribed (lib : Platform) (config : Config) (r : Request) (body : Option PushRequest)
    (id : Text) (now later : Time) (db db' : Database) : Type 0 where
  pub same_origin : valid_same_origin lib r config.secure_cookies ≡ true
  pub device : Device
  pub admitted : IsAdmitted lib config r now db device
  pub eligible : push_eligible device.device_type ≡ true
  pub keyed : valid_vapid_public_key lib config.vapid_public_key ≡ true
  pub request : PushRequest
  pub posted : body ≡ some request
  pub valid : valid_subscription lib request ≡ true
  pub current :
      active_push_subscription device.id db'
      ≡ ok (record (subscription_of lib request id device.id later) { now = zero_time })
  pub active : push_subscription_active device.id db' ≡ true

stored_answer-granted :
    (o : Outcome (Unit {0})) (db' : Database)
    → stored_answer o ≡ (granted (tt {0}), db')
    → o ≡ (ok tt, db')
unfolding stored_answer
stored_answer-granted (ok u, db) db' h = ground arith
stored_answer-granted (err e, db) db' h = absurd (ground arith)

replace_for-granted :
    (lib : Platform) (config : Config) (body : Option PushRequest) (id : Text) (now : Time)
    (device : Device) (db db' : Database)
    → replace_for lib config body id now device db ≡ (granted (tt {0}), db')
    → (push_eligible device.device_type ≡ true)
      × (valid_vapid_public_key lib config.vapid_public_key ≡ true)
      × ((q : PushRequest) × (body ≡ some q)
          × (valid_subscription lib q ≡ true)
          × (replace_push_subscription (subscription_of lib q id device.id now) db ≡ (ok tt, db')))
unfolding replace_for replace_decoded
replace_for-granted lib config none id now device db db' h = absurd (
    ground (
      arith,
      Bool-cases
          (push_eligible device.device_type && valid_vapid_public_key lib config.vapid_public_key),
    ))
replace_for-granted lib config (some q) id now device db db' h =
    elim (Bool-cases
      (push_eligible device.device_type && valid_vapid_public_key lib config.vapid_public_key)) [
        | inr f ↦ absurd (ground arith)
        | inl b ↦ elim (Bool-cases (valid_subscription lib q)) [
          | inr f ↦ absurd (ground arith)
          | inl v ↦ (
            ground (arith, Bool-cases (push_eligible device.device_type)),
            ground (arith, Bool-cases (valid_vapid_public_key lib config.vapid_public_key)),
            (
              q,
              refl,
              v,
              stored_answer-granted
                  (replace_push_subscription (subscription_of lib q id device.id now) db) db'
                  (ground arith),
            ),
          )
        ]
      ]

-- `replacePushSubscription` succeeds only on a request of the same origin, for a parent's mobile or
-- a shared tablet that its cookie identifies, with a usable VAPID key configured and a valid
-- subscription in the body; then this subscription is the active one of the device.
pub replace_subscription-IsSubscribed :
    (lib : Platform) (config : Config) (r : Request) (body : Option PushRequest) (id : Text)
    (now later : Time) (db db' : Database)
    → replace_subscription lib config r body id now later db ≡ (granted tt, db')
    → IsSubscribed lib config r body id now later db db'
unfolding replace_subscription subscription_of
replace_subscription-IsSubscribed lib config r body id now later db db' h =
    elim (Bool-cases (valid_same_origin lib r config.secure_cookies)) [
      | inr f ↦ absurd (ground arith)
      | inl origin ↦
          let (device, first, next) =
            for_device-granted (authenticated_device lib config r now db)
              (replace_for lib config body id later) tt db' (ground arith) in
          let left = (authenticated_device lib config r now db).1 in
          let (eligible, keyed, (q, posted, valid, done)) =
            replace_for-granted lib config body id later device left db' next in
          let s = subscription_of lib q id device.id later in
          let (active, current, _, _) = replace_push_subscription-active s left db' done in
          record {
            same_origin = origin;
            device = device;
            admitted = authenticated_device-IsAdmitted lib config r now db left device first;
            eligible = eligible;
            keyed = keyed;
            request = q;
            posted = posted;
            valid = valid;
            current = current;
            active = active;
          }
    ]

-- A device that `requirePushAdmin` lets through.
pub record IsPushAdmin (lib : Platform) (config : Config) (r : Request) (now later : Time)
    (db : Database) (device : Device) : Type 0 where
  pub admitted : IsAdmitted lib config r now db device
  pub eligible : push_eligible device.device_type ≡ true
  pub held :
      HoldsSession lib config r
        (some (lib.sha256 r.csrf_token))
        later
        (authenticated_device lib config r now db).1
        device

-- What the delivery of a test message did: to which subscription, with which status, and what is
-- left of the subscription.
pub data IsDelivery (send : PushSubscription → Option ℕ) (device : Device) (s : PushSubscription)
    (db' : Database) : Answer (Unit {0}) → Type 0 where
  sent :
      (status : ℕ)
      → send s ≡ some status
      → 200 ≤ status
      → status < 300
      → active_push_subscription device.id db' ≡ ok s
      → IsDelivery send device s db' (granted tt)
  expired :
      (status : ℕ)
      → send s ≡ some status
      → (status ≡ 404) ⊎ (status ≡ 410)
      → push_subscription_active device.id db' ≡ false
      → IsDelivery send device s db' (denied subscription_expired)
  rejected :
      (status : ℕ)
      → send s ≡ some status
      → (status < 200) ⊎ (300 ≤ status)
      → active_push_subscription device.id db' ≡ ok s
      → IsDelivery send device s db' (denied delivery_rejected)
  failed :
      send s ≡ none
      → active_push_subscription device.id db' ≡ ok s
      → IsDelivery send device s db' (denied delivery_failed)

-- A test message went out, or the request was refused whatever the push service would have said.
pub data SentOrRefused (lib : Platform) (send : PushSubscription → Option ℕ) (config : Config)
    (r : Request) (now later last : Time) (db : Database)
    : Answer (Unit {0}) × Database → Type 0 where
  went_out :
      (device : Device) (left db' : Database) (s : PushSubscription) (answer : Answer (Unit {0}))
      → require_push_admin lib config r now later db ≡ (granted device, left)
      → IsPushAdmin lib config r now later db device
      → active_push_subscription device.id left ≡ ok s
      → IsDelivery send device s db' answer
      → SentOrRefused lib send config r now later last db (answer, db')
  refused :
      (why : Denial) (db' : Database)
      → ((other : PushSubscription → Option ℕ)
          → send_test_push lib other config r now later last db ≡ (denied why, db'))
      → SentOrRefused lib send config r now later last db (denied why, db')
