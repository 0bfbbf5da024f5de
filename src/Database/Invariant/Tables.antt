-- ===== src/Database/Invariant/Tables.antt =====
-- The statements of internal/database on one table each, and what they keep of it.
use family_dashboard.Common.{
  ◌≡◌, subst, Bool, true, false, ◌&&◌, some, List, [], ◌∷◌, ◌++◌, arith, Text, text_eq, text_eq_iff,
  text_eq_refl, any_row, update_rows, count_rows-update_le, count_rows-append_fresh,
  count_rows-replace_one,
}
use family_dashboard.Time.{Time, TimeText, database_time}
use family_dashboard.Database.State.{Database, DeviceRow, SessionRow, PushRow, is_null}
use family_dashboard.Database.Credentials.{revoke_sessions}
use family_dashboard.Database.Push.{
  PushSubscription, new_push, is_active_push, revoke_push_subscription,
}
use family_dashboard.Database.Enrollment.Unique.{RequestKeys}
use family_dashboard.Database.Invariant.{
  is_device, is_open, OneDevice, OneSession, OnePush, Hashed, WellFormed,
}

pub OneDevice-update :
    (chosen : DeviceRow → Bool) (f : DeviceRow → DeviceRow) (ds : List DeviceRow)
    → ((d : DeviceRow) → (f d).id ≡ d.id)
    → OneDevice ds
    → OneDevice (update_rows chosen f ds)
OneDevice-update chosen f ds same one id = ground (
  arith,
  one id,
  count_rows-update_le (is_device id) chosen f ds (λ d _ h. ground (arith, same d)),
)

pub OneDevice-insert :
    (d : DeviceRow) (ds : List DeviceRow)
    → any_row (λ (e : DeviceRow). text_eq e.id d.id) ds ≡ false
    → OneDevice ds
    → OneDevice (ds ++ d ∷ [])
OneDevice-insert d ds free one id =
    count_rows-append_fresh (is_device id) (λ (e : DeviceRow). text_eq e.id d.id) ds d
      (λ h x k. ground (arith, text_eq_iff d.id id, text_eq_iff x.id id, text_eq_refl x.id)) free
      (one id)

-- An update that opens no session and moves none to another device.
pub OneSession-update :
    (chosen : SessionRow → Bool) (f : SessionRow → SessionRow) (ss : List SessionRow)
    → ((id : Text) (s : SessionRow) → is_open id (f s) ≡ true → is_open id s ≡ true)
    → OneSession ss
    → OneSession (update_rows chosen f ss)
OneSession-update chosen f ss closed one id =
    ground (arith, one id, count_rows-update_le (is_open id) chosen f ss (λ s _ h. closed id s h))

pub OneSession-revoke :
    (device_id : Text) (now : TimeText) (db : Database)
    → OneSession db.admin_sessions
    → OneSession (revoke_sessions device_id now db).admin_sessions
unfolding revoke_sessions is_open
OneSession-revoke device_id now db one =
    OneSession-update _ (λ (s : SessionRow). record s { revoked_at = some now }) db.admin_sessions
      (λ id s h. absurd (ground arith)) one

pub OneSession-insert :
    (session : SessionRow) (now : TimeText) (db : Database)
    → OneSession db.admin_sessions
    → OneSession ((revoke_sessions session.device_id now db).admin_sessions ++ session ∷ [])
unfolding revoke_sessions is_open
OneSession-insert session now db one id =
    count_rows-replace_one (is_open id)
      (λ (s : SessionRow). text_eq s.device_id session.device_id && is_null s.revoked_at)
      (λ (s : SessionRow). record s { revoked_at = some now }) db.admin_sessions session
      (λ h s. ground (arith, text_eq_iff session.device_id id)) (λ s c h. absurd (ground arith))
      (one id)

pub OnePush-revoke :
    (device_id : Text) (now : Time) (db : Database)
    → OnePush db.push_subscriptions
    → OnePush (revoke_push_subscription device_id now db).push_subscriptions
unfolding revoke_push_subscription is_active_push
OnePush-revoke device_id now db one id = ground (
  arith,
  one id,
  count_rows-update_le (is_active_push id) (is_active_push device_id)
      (λ (p : PushRow). record p {
        revoked_at = some (database_time now);
        updated_at = database_time now;
      })
      db.push_subscriptions (λ p c h. absurd (ground arith)),
)

pub OnePush-insert :
    (s : PushSubscription) (db : Database)
    → OnePush db.push_subscriptions
    → OnePush
        ((revoke_push_subscription s.device_id s.now db).push_subscriptions ++ new_push s ∷ [])
unfolding revoke_push_subscription is_active_push
OnePush-insert s db one id =
    count_rows-replace_one (is_active_push id) (is_active_push s.device_id)
      (λ (p : PushRow). record p {
        revoked_at = some (database_time s.now);
        updated_at = database_time s.now;
      })
      db.push_subscriptions (new_push s) (λ h p. ground (arith, text_eq_iff s.device_id id))
      (λ p c h. absurd (ground arith)) (one id)

-- A database with the same five tables.
pub Same-WellFormed :
    (db db' : Database)
    → db.enrollment_requests ≡ db'.enrollment_requests
    → db.devices ≡ db'.devices
    → db.admin_sessions ≡ db'.admin_sessions
    → db.push_subscriptions ≡ db'.push_subscriptions
    → db.security_state ≡ db'.security_state
    → WellFormed db
    → WellFormed db'
Same-WellFormed db db' r d s p c w = record {
  requests = subst RequestKeys r w.requests;
  devices = subst OneDevice d w.devices;
  sessions = subst OneSession s w.sessions;
  pushes = subst OnePush p w.pushes;
  security = subst Hashed c w.security;
}
