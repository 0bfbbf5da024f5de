-- ===== src/App/Status.antt =====
-- `listFamilyMembers` and `familyStatus` of internal/app/schedule.go.
pub mod Members
use family_dashboard.Common.{◌+◌, Option, none, some, List, [], Text, text_eq, map, if◌then◌else◌}
use family_dashboard.Time.{Time}
use family_dashboard.Schedule.{Item, View, Audience, active_status}
use family_dashboard.Database.State.{Database, Result, ok, err}
use family_dashboard.Database.Items.{FamilyMember, family_members, schedules_between}
use family_dashboard.App.{
  Platform, Config, Request, Answer, granted, denied, internal_error, invalid_time,
}
use family_dashboard.App.Access.{authenticated_device}
use family_dashboard.App.Handlers.{for_device, audience_for}

-- `listFamilyMembers`.
unfoldable pub list_family_members :
    Platform → Config → Request → Time → Database → Answer (List FamilyMember) × Database
unfolding for_device
list_family_members lib config r now db =
    for_device (authenticated_device lib config r now db)
      λ device left. (granted (family_members left), left)

-- `memberStatus`; no status is none.
pub record MemberStatus : Type 0 where
  pub member : FamilyMember
  pub status : Option View

unfoldable pub statuses : Audience → Time → List FamilyMember → List Item → List MemberStatus
unfolding active_status
statuses audience at members items =
    map (λ (m : FamilyMember). record { member = m; status = active_status items m.id at audience })
      members

unfoldable pub status_answer :
    Audience → Time → List FamilyMember → Result (List Item) → Answer (List MemberStatus)
unfolding statuses
status_answer audience at members (ok items) = granted (statuses audience at members items)
status_answer audience at members (err e) = denied internal_error

unfoldable pub status_at : Audience → Option Time → Database → Answer (List MemberStatus)
unfolding status_answer
status_at audience none db = denied invalid_time
status_at audience (some at) db =
    status_answer audience at (family_members db) (schedules_between at (at + 1) [] db)

-- `familyStatus`; without a time in the query the clock is read, as `later`.
unfoldable pub family_status :
    Platform
    → Config
    → Request
    → Text
    → Time
    → Time
    → Database
    → Answer (List MemberStatus) × Database
unfolding for_device status_at audience_for
family_status lib config r raw_at now later db =
    for_device (authenticated_device lib config r now db) λ device left. (
      status_at (audience_for device.device_type)
          (if text_eq raw_at [] then some later else lib.parse_rfc3339 raw_at) left,
      left,
    )
