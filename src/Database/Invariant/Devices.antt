-- ===== src/Database/Invariant/Devices.antt =====
-- Revocation and subscriptions keep a database well formed.
use family_dashboard.Common.{
  ◌≡◌, inl, inr, refl, some, [], ◌∷◌, ◌++◌, arith, Text, text_eq, count_rows, ◌==◌, Bool-cases,
}
use family_dashboard.Time.{Time, database_time}
use family_dashboard.Database.State.{
  Database, DeviceRow, ok, revoked, device_revocation, success, administrator_action,
}
use family_dashboard.Database.Statements.{insert_event, insert_push}
use family_dashboard.Database.Credentials.{revoke_credentials, revoke_sessions}
use family_dashboard.Database.Enrollment.Unique.{commit-kept}
use family_dashboard.Database.Devices.{revoke_device, revoke_everything, revoke_row, is_revocable}
use family_dashboard.Database.Push.{
  PushSubscription, new_push, revoke_push_subscription, replace_push_subscription,
}
use family_dashboard.Database.Invariant.{WellFormed}
use family_dashboard.Database.Invariant.Tables.{
  OneDevice-update, OneSession-revoke, OnePush-revoke, OnePush-insert, Same-WellFormed,
}

revoke_everything-WellFormed :
    (id : Text) (now : Time) (db : Database)
    → WellFormed db
    → WellFormed (revoke_everything id now db)
unfolding revoke_everything revoke_row revoke_credentials revoke_sessions revoke_push_subscription
revoke_everything-WellFormed id now db w = record {
  requests = w.requests;
  devices =
      OneDevice-update (is_revocable id)
        (λ (d : DeviceRow). record d { status = revoked; revoked_at = some (database_time now) })
        db.devices (λ d. refl) w.devices;
  sessions = OneSession-revoke id (database_time now) db w.sessions;
  pushes = OnePush-revoke id now db w.pushes;
  security = w.security;
}

revocation-WellFormed :
    (target : Text) (now : Time) (db db' : Database)
    → WellFormed db
    → insert_event device_revocation target success administrator_action
        (database_time now)
        (revoke_everything target now db)
      ≡ ok db'
    → WellFormed db'
unfolding insert_event
revocation-WellFormed target now db db' w h =
    Same-WellFormed (revoke_everything target now db) db' (ground arith) (ground arith)
      (ground arith) (ground arith) (ground arith) (revoke_everything-WellFormed target now db w)

pub revoke_device-WellFormed :
    (target actor : Text) (now : Time) (db : Database)
    → WellFormed db
    → WellFormed (revoke_device target actor now db).1
unfolding revoke_device
revoke_device-WellFormed target actor now db w = elim (Bool-cases (text_eq target actor)) [
  | inl e ↦ rw (revoke_device, e) w
  | inr e ↦ elim (Bool-cases (count_rows (is_revocable target) db.devices == 1)) [
    | inr f ↦ rw (revoke_device, e, f) w
    | inl t ↦
        rw (revoke_device, e, t)
          (commit-kept WellFormed db _ w λ db' h. revocation-WellFormed target now db db' w h)
  ]
]

pub revoke_push_subscription-WellFormed :
    (id : Text) (now : Time) (db : Database)
    → WellFormed db
    → WellFormed (revoke_push_subscription id now db)
unfolding revoke_push_subscription
revoke_push_subscription-WellFormed id now db w = record {
  requests = w.requests;
  devices = w.devices;
  sessions = w.sessions;
  pushes = OnePush-revoke id now db w.pushes;
  security = w.security;
}

replacement-WellFormed :
    (s : PushSubscription) (db db' : Database)
    → WellFormed db
    → insert_push (new_push s) (revoke_push_subscription s.device_id s.now db) ≡ ok db'
    → WellFormed db'
unfolding insert_push revoke_push_subscription
replacement-WellFormed s db db' w h =
    Same-WellFormed
      (record db {
        push_subscriptions =
            (revoke_push_subscription s.device_id s.now db).push_subscriptions ++ new_push s ∷ [];
      })
      db' (ground arith) (ground arith) (ground arith) (ground arith) (ground arith)
      (record {
        requests = w.requests;
        devices = w.devices;
        sessions = w.sessions;
        pushes = OnePush-insert s db w.pushes;
        security = w.security;
      })

pub replace_push_subscription-WellFormed :
    (s : PushSubscription) (db : Database)
    → WellFormed db
    → WellFormed (replace_push_subscription s db).1
unfolding replace_push_subscription
replace_push_subscription-WellFormed s db w =
    commit-kept WellFormed db _ w λ db' h. replacement-WellFormed s db db' w h
