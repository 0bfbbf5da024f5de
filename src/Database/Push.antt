-- ===== src/Database/Push.antt =====
-- internal/database/push.go: the push subscription of a device.
pub mod Replacement
use family_dashboard.Common.{
  Bool, ◌&&◌, Option, none, some, List, [], ◌∷◌, ◌++◌, ◌==◌, Text, text_eq, find_row, update_rows,
  count_rows,
}
use family_dashboard.Time.{Time, database_time, zero_time}
use family_dashboard.Database.State.{
  Database, PushRow, Hash, Result, ok, err, Outcome, commit, is_null, unauthenticated,
}
use family_dashboard.Database.Statements.{insert_push}

pub record PushSubscription : Type 0 where
  pub id : Text
  pub device_id : Text
  pub endpoint : Text
  pub endpoint_hash : Hash
  pub p256dh : Text
  pub auth : Text
  pub now : Time

unfoldable pub is_active_push : Text → PushRow → Bool
unfolding is_null
is_active_push device_id p = text_eq p.device_id device_id && is_null p.revoked_at

-- `PushSubscriptionActive`.
unfoldable pub push_subscription_active : Text → Database → Bool
unfolding is_active_push
push_subscription_active device_id db =
    count_rows (is_active_push device_id) db.push_subscriptions == 1

-- `ActivePushSubscription`; the field `now` keeps its zero value.
unfoldable pub active_push_subscription : Text → Database → Result PushSubscription
unfolding is_active_push
active_push_subscription device_id db =
    elim (find_row (is_active_push device_id) db.push_subscriptions) [
      | none ↦ err unauthenticated
      | some p ↦ ok (record {
        id = p.id;
        device_id = p.device_id;
        endpoint = p.endpoint;
        endpoint_hash = p.endpoint_hash;
        p256dh = p.p256dh;
        auth = p.auth;
        now = zero_time;
      })
    ]

-- `RevokePushSubscription`, and the first statement of `ReplacePushSubscription`.
unfoldable pub revoke_push_subscription : Text → Time → Database → Database
unfolding is_active_push
revoke_push_subscription device_id now db = record db {
  push_subscriptions =
      update_rows (is_active_push device_id)
        (λ (p : PushRow). record p {
          revoked_at = some (database_time now);
          updated_at = database_time now;
        })
        db.push_subscriptions;
}

abbrev pub new_push : PushSubscription → PushRow
new_push s = record {
  id = s.id;
  device_id = s.device_id;
  endpoint = s.endpoint;
  endpoint_hash = s.endpoint_hash;
  p256dh = s.p256dh;
  auth = s.auth;
  created_at = database_time s.now;
  updated_at = database_time s.now;
  revoked_at = none;
}

-- `ReplacePushSubscription`.
unfoldable pub replace_push_subscription : PushSubscription → Database → Outcome (Unit {0})
unfolding revoke_push_subscription insert_push commit
replace_push_subscription s db =
    commit db (insert_push (new_push s) (revoke_push_subscription s.device_id s.now db))
