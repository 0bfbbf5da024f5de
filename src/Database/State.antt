-- ===== src/Database/State.antt =====
-- The schema that `initialize` of internal/database/database.go creates: a record for the rows of
-- each table, and the database as the record of its tables. Errors and results of the package.
use family_dashboard.Common.{
  ◌≡◌, ◌⊎◌, inl, inr, refl, ℕ, Bool, true, false, Option, none, some, List, Text,
}
use family_dashboard.Time.{TimeText}
use family_dashboard.Schedule.{Visibility}

-- A SHA-256 digest, [32]byte in Go and a BLOB of length 32 in SQLite, as the number it spells.
abbrev pub Hash : Type 0
Hash = ℕ

pub data DeviceType : Type 0 where
  trusted_pc parent_mobile shared_tablet tv : DeviceType

pub data Owner : Type 0 where
  dad mom : Owner

pub data DeviceStatus : Type 0 where
  active revoked : DeviceStatus

pub data CredentialType : Type 0 where
  access refresh : CredentialType

pub data EnrollmentStatus : Type 0 where
  pending submitted approved rejected expired : EnrollmentStatus

pub data EventType : Type 0 where
  initial_setup device_enrollment device_revocation pin_unlock admin_unlock admin_lock : EventType
  network_policy token_refresh : EventType

pub data EventResult : Type 0 where
  success failure blocked : EventResult

pub data Reason : Type 0 where
  trusted_pc_created administrator_rejected administrator_action invalid_pin : Reason
  pin_verified explicit_lock local_device_external_refresh : Reason
  refresh_reuse_detected credentials_rotated : Reason
  enrolled : DeviceType → Reason

-- The only row of security_state.
pub record Security : Type 0 where
  pub setup_complete : Bool
  pub pin_hash : Option Text
  pub initial_code_hash : Option Hash
  pub initial_code_expires_at : Option TimeText
  pub initial_code_consumed_at : Option TimeText
  pub updated_at : Option TimeText

pub record DeviceRow : Type 0 where
  pub id : Text
  pub name : Text
  pub device_type : DeviceType
  pub owner : Option Owner
  pub local_only : Bool
  pub status : DeviceStatus
  pub created_at : TimeText
  pub last_used_at : Option TimeText
  pub revoked_at : Option TimeText

pub record CredentialRow : Type 0 where
  pub id : Text
  pub device_id : Text
  pub credential_type : CredentialType
  pub token_hash : Hash
  pub family_id : Text
  pub expires_at : TimeText
  pub created_at : TimeText
  pub consumed_at : Option TimeText
  pub revoked_at : Option TimeText

pub record EnrollmentRow : Type 0 where
  pub id : Text
  pub code_hash : Hash
  pub requested_type : DeviceType
  pub device_name : Option Text
  pub owner : Option Owner
  pub status : EnrollmentStatus
  pub expires_at : TimeText
  pub created_at : TimeText
  pub submitted_at : Option TimeText
  pub decided_at : Option TimeText
  pub approved_by_device_id : Option Text

pub record SessionRow : Type 0 where
  pub id : Text
  pub device_id : Text
  pub session_hash : Hash
  pub csrf_hash : Hash
  pub idle_expires_at : TimeText
  pub absolute_expires_at : TimeText
  pub created_at : TimeText
  pub last_used_at : TimeText
  pub revoked_at : Option TimeText

pub record PinRow : Type 0 where
  pub device_id : Text
  pub failed_count : ℕ
  pub blocked_until : Option TimeText
  pub updated_at : TimeText

pub record RecoveryRow : Type 0 where
  pub id : Text
  pub code_hash : Hash
  pub created_at : TimeText
  pub consumed_at : Option TimeText

pub record EventRow : Type 0 where
  pub event_type : EventType
  pub device_id : Text
  pub result : EventResult
  pub reason : Reason
  pub created_at : TimeText

pub record PushRow : Type 0 where
  pub id : Text
  pub device_id : Text
  pub endpoint : Text
  pub endpoint_hash : Hash
  pub p256dh : Text
  pub auth : Text
  pub created_at : TimeText
  pub updated_at : TimeText
  pub revoked_at : Option TimeText

pub data Role : Type 0 where
  parent child : Role

pub record MemberRow : Type 0 where
  pub id : Text
  pub slug : Text
  pub display_name : Text
  pub role : Role
  pub active : Bool

pub record ScheduleRow : Type 0 where
  pub id : Text
  pub title : Text
  pub location_name : Option Text
  pub notes : Option Text
  pub visibility : Visibility
  pub starts_at : TimeText
  pub ends_at : TimeText
  pub created_by_device_id : Text
  pub updated_by_device_id : Text
  pub version : ℕ
  pub created_at : TimeText
  pub updated_at : TimeText
  pub deleted_at : Option TimeText

pub record ParticipantRow : Type 0 where
  pub schedule_id : Text
  pub family_member_id : Text

pub record Database : Type 0 where
  pub start_count : ℕ
  pub security_state : Security
  pub devices : List DeviceRow
  pub device_credentials : List CredentialRow
  pub enrollment_requests : List EnrollmentRow
  pub admin_sessions : List SessionRow
  pub pin_attempts : List PinRow
  pub recovery_codes : List RecoveryRow
  pub security_events : List EventRow
  pub push_subscriptions : List PushRow
  pub family_members : List MemberRow
  pub schedules : List ScheduleRow
  pub schedule_participants : List ParticipantRow

-- The package's error values, and the errors that it wraps: a statement that a constraint of the
-- schema refuses, sql.ErrNoRows, a NULL scanned into a string, a stored time that does not parse, an attempt to revoke oneself.
pub data Error : Type 0 where
  invalid_initial_setup unauthenticated invalid_enrollment pin_blocked refresh_reuse : Error
  local_network_required schedule_not_found schedule_conflict invalid_participant : Error
  constraint no_rows null_column bad_time revoke_current : Error

pub data Result {ℓ} (A : Type ℓ) : Type ℓ where
  ok : A → Result A
  err : Error → Result A

pub Result-cases {ℓ} :
    {A : Type ℓ} (r : Result A) → ((a : A) × (r ≡ ok a)) ⊎ ((e : Error) × (r ≡ err e))
Result-cases (ok a) = inl (a, refl)
Result-cases (err e) = inr (e, refl)

infixl 5 ◌>>=◌
abbrev pub ◌>>=◌ {ℓ κ} : {A : Type ℓ} {B : Type κ} → Result A → (A → Result B) → Result B
ok a >>= f = f a
err e >>= f = err e

-- What a method returns, and the database that it leaves.
abbrev pub Outcome : Type 0 → Type 0
Outcome A = Result A × Database

-- A transaction commits what its statements made, or rolls back to the database at its start.
unfoldable pub commit : Database → Result Database → Outcome (Unit {0})
commit db (ok db') = (ok tt, db')
commit db (err e) = (err e, db)

-- A transaction that commits and then reports an error all the same.
unfoldable pub commit_with : Error → Database → Result Database → Outcome (Unit {0})
commit_with report db (ok db') = (err report, db')
commit_with report db (err e) = (err e, db)

unfoldable pub is_null {ℓ} : {A : Type ℓ} → Option A → Bool
is_null none = true
is_null (some a) = false

unfoldable pub is_active : DeviceStatus → Bool
is_active active = true
is_active revoked = false

unfoldable pub is_access : CredentialType → Bool
is_access access = true
is_access refresh = false

unfoldable pub is_refresh : CredentialType → Bool
is_refresh refresh = true
is_refresh access = false
