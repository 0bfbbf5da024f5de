-- ===== src/Database/Push/Replacement.antt =====
-- ReplacePushSubscription of internal/database/push.go, and the reading of a subscription.
use family_dashboard.Common.{
  ◌≡◌, ◌≢◌, ◌∙◌, ap, true, false, some, [], ◌∷◌, ◌++◌, arith, AllRows, AllRows-update_rows,
  find_row, find_row-append, find_row-eq_none, find_row-append_miss, find_row-update_miss,
  count_rows, count_rows-append, count_rows-eq_zero, text_eq_refl, text_eq_iff, Text,
}
use family_dashboard.Time.{Time, zero_time}
use family_dashboard.Database.State.{Database, PushRow, ok, err, is_null, commit, unauthenticated}
use family_dashboard.Database.Statements.{insert_push}
use family_dashboard.Database.Push.{
  PushSubscription, new_push, is_active_push, push_subscription_active, active_push_subscription,
  revoke_push_subscription, replace_push_subscription,
}

pub revoked-none :
    (id : Text) (now : Time) (db : Database)
    → AllRows
        (λ (p : PushRow). is_active_push id p ≡ false)
        (revoke_push_subscription id now db).push_subscriptions
unfolding revoke_push_subscription is_active_push
revoked-none id now db = AllRows-update_rows _ _ _ db.push_subscriptions (λ p. ground arith)

-- Another device's subscription is left as it is.
revoke-other :
    (id other : Text) (now : Time) (db : Database)
    → id ≢ other
    → find_row (is_active_push other) (revoke_push_subscription id now db).push_subscriptions
      ≡ find_row (is_active_push other) db.push_subscriptions
unfolding revoke_push_subscription
revoke-other id other now db apart =
    find_row-update_miss (is_active_push other) (is_active_push id) _ db.push_subscriptions λ p h.
      unfold is_active_push in
      ground (arith, text_eq_iff p.device_id id, text_eq_iff p.device_id other)

replace-pushes :
    (s : PushSubscription) (db db' : Database)
    → replace_push_subscription s db ≡ (ok tt, db')
    → db'.push_subscriptions
      ≡ (revoke_push_subscription s.device_id s.now db).push_subscriptions ++ new_push s ∷ []
unfolding replace_push_subscription insert_push commit
replace-pushes s db db' h = ground arith

module _ (s : PushSubscription) (db db' : Database)
    (replaced : replace_push_subscription s db ≡ (ok tt, db')) where
  find-new : find_row (is_active_push s.device_id) db'.push_subscriptions ≡ some (new_push s)
  unfolding find_row
  find-new =
      ap (find_row (is_active_push s.device_id)) (replace-pushes s db db' replaced)
      ∙ find_row-append _ (revoke_push_subscription s.device_id s.now db).push_subscriptions
          (new_push s ∷ []) (find_row-eq_none _ _ (revoked-none s.device_id s.now db))
      ∙ unfold is_active_push is_null in ground (arith, text_eq_refl s.device_id)

  count-new : count_rows (is_active_push s.device_id) db'.push_subscriptions ≡ 1
  unfolding count_rows
  count-new =
      ap (count_rows (is_active_push s.device_id)) (replace-pushes s db db' replaced)
      ∙ count_rows-append _ (revoke_push_subscription s.device_id s.now db).push_subscriptions _
      ∙ unfold is_active_push is_null in
        ground (
          arith,
          text_eq_refl s.device_id,
          count_rows-eq_zero (is_active_push s.device_id)
              (revoke_push_subscription s.device_id s.now db).push_subscriptions
              (revoked-none s.device_id s.now db),
        )

  find-other :
      (other : Text)
      → s.device_id ≢ other
      → find_row (is_active_push other) db'.push_subscriptions
        ≡ find_row (is_active_push other) db.push_subscriptions
  find-other other apart =
      ap (find_row (is_active_push other)) (replace-pushes s db db' replaced)
      ∙ find_row-append_miss (is_active_push other)
          (revoke_push_subscription s.device_id s.now db).push_subscriptions (new_push s)
          (unfold is_active_push in ground (arith, text_eq_iff s.device_id other))
      ∙ revoke-other s.device_id other s.now db apart

  -- After a replacement the device has one active subscription, the new one, and it is the one that
  -- is read; other devices keep theirs; and once it is revoked the device has none.
  pub replace_push_subscription-active :
      (push_subscription_active s.device_id db' ≡ true)
      × (active_push_subscription s.device_id db' ≡ ok (record s { now = zero_time }))
      × ((other : Text)
          → s.device_id ≢ other
          → active_push_subscription other db' ≡ active_push_subscription other db)
      × ((later : Time)
          → let left = revoke_push_subscription s.device_id later db' in
            (push_subscription_active s.device_id left ≡ false)
            × (active_push_subscription s.device_id left ≡ err unauthenticated))
  unfolding push_subscription_active active_push_subscription
  replace_push_subscription-active = (
    ground (arith, count-new),
    ground (arith, find-new),
    λ other apart. ground (arith, find-other other apart),
    λ later.
        let gone = revoked-none s.device_id later db' in
        (
          ground (
            arith,
            count_rows-eq_zero (is_active_push s.device_id)
                (revoke_push_subscription s.device_id later db').push_subscriptions gone,
          ),
          ground (
            arith,
            find_row-eq_none (is_active_push s.device_id)
                (revoke_push_subscription s.device_id later db').push_subscriptions gone,
          ),
        ),
  )
