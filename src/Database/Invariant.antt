-- ===== src/Database/Invariant.antt =====
-- What every database holds that the operations of internal/database reach: the keys of its tables,
-- and the one open session and the one active subscription of a device.
pub mod Tables
pub mod Setup
pub mod Sessions
pub mod Rotation
pub mod Requests
pub mod Devices
pub mod Schedules
pub mod Reachable
use family_dashboard.Common.{
  ℕ, ◌≤◌, ◌≡◌, ◌≢◌, Bool, true, ◌&&◌, Option, none, List, Text, text_eq, count_rows,
}
use family_dashboard.Database.State.{Database, Security, DeviceRow, SessionRow, PushRow, is_null}
use family_dashboard.Database.Push.{is_active_push}
use family_dashboard.Database.Enrollment.Unique.{RequestKeys}

abbrev pub is_device : Text → DeviceRow → Bool
is_device id d = text_eq d.id id

unfoldable pub is_open : Text → SessionRow → Bool
unfolding is_null
is_open device_id s = text_eq s.device_id device_id && is_null s.revoked_at

abbrev pub OneDevice : List DeviceRow → Type 0
OneDevice ds = (id : Text) → count_rows (is_device id) ds ≤ 1

abbrev pub OneSession : List SessionRow → Type 0
OneSession ss = (device_id : Text) → count_rows (is_open device_id) ss ≤ 1

abbrev pub OnePush : List PushRow → Type 0
OnePush ps = (device_id : Text) → count_rows (is_active_push device_id) ps ≤ 1

-- A dashboard that has been set up has a PIN.
abbrev pub Hashed : Security → Type 0
Hashed s = s.setup_complete ≡ true → s.pin_hash ≢ none

pub record WellFormed (db : Database) : Type 0 where
  pub requests : RequestKeys db.enrollment_requests
  pub devices : OneDevice db.devices
  pub sessions : OneSession db.admin_sessions
  pub pushes : OnePush db.push_subscriptions
  pub security : Hashed db.security_state
