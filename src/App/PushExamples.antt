-- ===== src/App/PushExamples.antt =====
-- The subscription of the sample tablet, and a test message to it.
use family_dashboard.Common.{
  ℕ, zero, suc, ◌≡◌, refl, true, false, Option, none, some, List, [], ◌∷◌, if◌then◌else◌, codes,
  text_eq, any_row, find_row, find_pair, count_rows, update_rows, sql_length, byte_length,
  trim_space,
}
use family_dashboard.Time.{Time, database_time, parse_database_time, time_text_lt}
use family_dashboard.Database.State.{Database, shared_tablet, ok}
use family_dashboard.Database.Setup.{
  Device, complete_initial_setup, device_by_access_token, authenticates,
}
use family_dashboard.Database.Admin.{create_admin_session, validate_admin_session}
use family_dashboard.Database.Push.{
  PushSubscription, active_push_subscription, replace_push_subscription,
}
use family_dashboard.Database.Enrollment.{approve_enrollment, complete_enrollment}
use family_dashboard.Database.Requests.{create_enrollment, submit_enrollment}
use family_dashboard.Database.Examples.{at_minute, enrolled_too}
use family_dashboard.App.{Platform, Config, Request, granted}
use family_dashboard.App.Access.{authenticated_device, valid_same_origin, request_in_networks}
use family_dashboard.App.Samples.{lib, config, request}
use family_dashboard.App.Push.{PushRequest, replace_subscription}
use family_dashboard.App.TestPush.{require_push_admin}
use family_dashboard.App.Push.Delivery.{IsSubscribed, replace_subscription-IsSubscribed}

abbrev pub zeros : ℕ → List ℕ
zeros zero = []
zeros (suc n) = 1 ∷ zeros n

abbrev pub point : List ℕ
point = 4 ∷ zeros 64

-- An origin is of HTTP, the endpoint of the push service of HTTPS.
abbrev push_lib : Platform
push_lib = record lib {
  parse_url = λ t. some (record {
    scheme = if text_eq t (codes "push") then codes "https" else codes "http";
    has_user = false;
    host = t;
    fragment = [];
  });
}

abbrev push_config_of : Config
push_config_of = record config { vapid_public_key = point; vapid_private_key = zeros 32 }

abbrev pub tablet : Request
tablet = record request { device_cookie = some (codes "[") }

abbrev body : PushRequest
body = record { endpoint = codes " push"; p256dh = point; auth = zeros 16 }

abbrev subscribed : Database
subscribed =
    (replace_subscription push_lib push_config_of tablet (some body) (codes "w1") (at_minute 6)
      (at_minute 7) enrolled_too).1

subscription_ran :
    replace_subscription push_lib push_config_of tablet
      (some body)
      (codes "w1")
      (at_minute 6)
      (at_minute 7)
      enrolled_too
    ≡ (granted tt, subscribed)
unfolding replace_subscription parse_database_time database_time text_eq any_row sql_length find_row
    find_pair count_rows update_rows time_text_lt byte_length trim_space authenticated_device
    valid_same_origin request_in_networks complete_initial_setup device_by_access_token
    authenticates create_enrollment submit_enrollment approve_enrollment complete_enrollment
    replace_push_subscription
subscription_ran = refl

replace_subscription-IsSubscribed_example :
    IsSubscribed push_lib push_config_of tablet
      (some body)
      (codes "w1")
      (at_minute 6)
      (at_minute 7)
      enrolled_too
      subscribed
replace_subscription-IsSubscribed_example =
    replace_subscription-IsSubscribed push_lib push_config_of tablet (some body) (codes "w1")
      (at_minute 6) (at_minute 7) enrolled_too subscribed subscription_ran

abbrev unlocked : Database
unlocked =
    (create_admin_session (codes "tablet") (codes "s2") 61 62 (at_minute 18) (at_minute 50)
      (at_minute 8) subscribed).1

abbrev pub device : Device
device = record {
  id = codes "tablet";
  name = codes "Tablet";
  device_type = shared_tablet;
  owner = none;
  local_only = true;
}

abbrev guarded : Database
guarded = (require_push_admin push_lib push_config_of tablet (at_minute 9) (at_minute 9) unlocked).1

guard_ran :
    require_push_admin push_lib push_config_of tablet (at_minute 9) (at_minute 9) unlocked
    ≡ (granted device, guarded)
unfolding require_push_admin replace_subscription create_admin_session validate_admin_session
    parse_database_time database_time text_eq any_row sql_length find_row find_pair count_rows
    update_rows time_text_lt byte_length trim_space authenticated_device valid_same_origin
    request_in_networks complete_initial_setup device_by_access_token authenticates
    create_enrollment submit_enrollment approve_enrollment complete_enrollment
    replace_push_subscription
guard_ran = refl

abbrev subscription : PushSubscription
subscription = record {
  id = codes "w1";
  device_id = codes "tablet";
  endpoint = codes "push";
  endpoint_hash = 62;
  p256dh = point;
  auth = zeros 16;
  now = family_dashboard.Time.zero_time;
}

subscription_found : active_push_subscription device.id guarded ≡ ok subscription
unfolding active_push_subscription require_push_admin replace_subscription create_admin_session
    validate_admin_session parse_database_time database_time text_eq any_row sql_length find_row
    find_pair count_rows update_rows time_text_lt byte_length trim_space authenticated_device
    valid_same_origin request_in_networks complete_initial_setup device_by_access_token
    authenticates create_enrollment submit_enrollment approve_enrollment complete_enrollment
    replace_push_subscription
subscription_found = refl

abbrev gone : PushSubscription → Option ℕ
gone s = some 410
