-- ===== src/App/Handlers.antt =====
-- The handlers of internal/app/schedule.go. A body stands as what the JSON decoder makes of it.
pub mod Disclosure
pub mod Ranges
pub mod Writes
use family_dashboard.Common.{
  ℕ, ◌+◌, ◌*◌, Bool, true, false, not, ◌&&◌, ◌||◌, Option, none, some, List, [], ◌∷◌, ltb,
  if◌then◌else◌, Text, trim_space, text_eq, map, length, ◌==◌,
}
use family_dashboard.Time.{Time, hour, zero_time}
use family_dashboard.Schedule.{
  Item, View, Visibility, Audience, parent, shared, tv, empty_view, project, validate,
  active_status, ScheduleError, invalid_time_range, participants_required,
}
use family_dashboard.Database.State.{
  Database, DeviceType, trusted_pc, parent_mobile, shared_tablet, Result, ok, err, Outcome,
  schedule_not_found, schedule_conflict, invalid_participant,
}
use family_dashboard.Database.Setup.{Device}
use family_dashboard.Database.Schedules
use family_dashboard.Database.Items
use family_dashboard.App.{
  Platform, Config, Request, Denial, Answer, granted, denied, not_found, version_conflict,
  wrong_participant, version_required, internal_error, invalid_range, range_too_large,
  invalid_request, invalid_time, invalid_schedule, bad_time_range, schedule_participants_required,
}
use family_dashboard.App.Access.{authenticated_device, require_content_admin}

-- `scheduleRequest`; a negative version stands as 0, which no version is.
pub record ScheduleRequest : Type 0 where
  pub title : Text
  pub location_name : Text
  pub notes : Text
  pub visibility : Visibility
  pub starts_at : Text
  pub ends_at : Text
  pub participants : List Text
  pub version : ℕ
  pub confirm_overlap : Bool

-- What a write answers when it is not refused: the schedule, or the warning of overlaps.
pub data Written : Type 0 where
  written : View → Written
  overlap_warning : List View → Written

-- `maxScheduleRange`.
abbrev pub max_schedule_range : ℕ
max_schedule_range = 62 * 24 * hour

-- `audienceForDevice`.
unfoldable pub audience_for : DeviceType → Audience
audience_for trusted_pc = parent
audience_for parent_mobile = parent
audience_for shared_tablet = shared
audience_for kind = tv

-- `projectSchedules`.
unfoldable pub project_schedules : List Item → Audience → List View
unfolding project
project_schedules [] audience = []
project_schedules (item ∷ items) audience =
    let rest = project_schedules items audience in
    elim (project item audience) [ none ↦ rest | some view ↦ view ∷ rest ]

unfoldable pub for_device {ℓ} :
    {A : Type ℓ}
    → Answer Device × Database
    → (Device → Database → Answer A × Database)
    → Answer A × Database
for_device (granted device, db) next = next device db
for_device (denied why, db) next = (denied why, db)

-- The answer of `getSchedule` to what the database returned.
unfoldable pub item_answer : Audience → Result Item → Answer View
unfolding project
item_answer audience (ok item) = elim (project item audience) [
  | none ↦ denied not_found
  | some view ↦ granted view
]
item_answer audience (err schedule_not_found) = denied not_found
item_answer audience (err e) = denied internal_error

-- `getSchedule`.
unfoldable pub get_schedule :
    Platform → Config → Request → Text → Time → Database → Answer View × Database
unfolding for_device item_answer audience_for
get_schedule lib config r id now db =
    for_device (authenticated_device lib config r now db) λ device left.
      (item_answer (audience_for device.device_type) (Items.schedule_by_id id left), left)

-- `parseScheduleRange`.
unfoldable pub parse_schedule_range : Platform → Text → Text → Answer (Time × Time)
parse_schedule_range lib raw_from raw_to = elim (lib.parse_rfc3339 raw_from) [
  | none ↦ denied invalid_range
  | some from ↦ elim (lib.parse_rfc3339 raw_to) [
    | none ↦ denied invalid_range
    | some to ↦
        if not (ltb from to)
        then denied invalid_range
        else if ltb (from + max_schedule_range) to
        then denied range_too_large
        else granted (from, to)
  ]
]

unfoldable pub list_answer : Audience → Result (List Item) → Answer (List View)
unfolding project_schedules
list_answer audience (ok items) = granted (project_schedules items audience)
list_answer audience (err e) = denied internal_error

unfoldable pub occurrences : Audience → Answer (Time × Time) → Text → Database → Answer (List View)
unfolding list_answer
occurrences audience (granted (from, to)) member db =
    list_answer audience (Items.schedules_between from to member db)
occurrences audience (denied why) member db = denied why

-- `listScheduleOccurrences`.
unfoldable pub list_schedule_occurrences :
    Platform
    → Config
    → Request
    → Text
    → Text
    → Text
    → Time
    → Database
    → Answer (List View) × Database
unfolding for_device occurrences parse_schedule_range audience_for
list_schedule_occurrences lib config r raw_from raw_to member now db =
    for_device (authenticated_device lib config r now db) λ device left. (
      occurrences (audience_for device.device_type) (parse_schedule_range lib raw_from raw_to)
          member left,
      left,
    )

-- The error codes of a body that does not validate.
unfoldable pub refusal : ScheduleError → Denial
refusal invalid_time_range = bad_time_range
refusal participants_required = schedule_participants_required
refusal e = invalid_schedule

unfoldable pub item_of_request : ScheduleRequest → Time → Time → Item
item_of_request q starts ends = record {
  id = [];
  title = trim_space q.title;
  location_name = trim_space q.location_name;
  notes = trim_space q.notes;
  visibility = q.visibility;
  starts_at = starts;
  ends_at = ends;
  participants = q.participants;
  version = q.version;
  created_at = zero_time;
  updated_at = zero_time;
}

unfoldable pub validated : Item → Answer Item
unfolding refusal validate
validated item = elim (validate item) [ none ↦ granted item | some e ↦ denied (refusal e) ]

unfoldable pub item_with_times : ScheduleRequest → Option Time → Option Time → Answer Item
unfolding item_of_request validated
item_with_times q (some starts) (some ends) = validated (item_of_request q starts ends)
item_with_times q _ _ = denied invalid_time

unfoldable pub with_confirmation : Bool → Answer Item → Answer (Item × Bool)
with_confirmation confirmed (denied why) = denied why
with_confirmation confirmed (granted item) = granted (item, confirmed)

-- `decodeScheduleRequest`; `none` is a body that is not one JSON value of the expected shape.
unfoldable pub decode_schedule_request : Platform → Option ScheduleRequest → Answer (Item × Bool)
unfolding item_with_times with_confirmation
decode_schedule_request lib none = denied invalid_request
decode_schedule_request lib (some q) =
    with_confirmation q.confirm_overlap
      (item_with_times q (lib.parse_rfc3339 q.starts_at) (lib.parse_rfc3339 q.ends_at))

unfoldable pub view_of : Item → View
unfolding project
view_of item = elim (project item parent) [ none ↦ empty_view | some view ↦ view ]

-- The answer of a write to what the database returned.
unfoldable pub write_answer : Outcome Item → Answer Written × Database
unfolding view_of
write_answer (ok item, db) = (granted (written (view_of item)), db)
write_answer (err schedule_not_found, db) = (denied not_found, db)
write_answer (err schedule_conflict, db) = (denied version_conflict, db)
write_answer (err invalid_participant, db) = (denied wrong_participant, db)
write_answer (err e, db) = (denied internal_error, db)

-- The check for overlaps that both writes make first, and then the write.
unfoldable pub unless_overlap :
    Bool → Result (List Item) → Database → Outcome Item → Answer Written × Database
unfolding write_answer project_schedules
unless_overlap confirmed (err e) db write = (denied internal_error, db)
unless_overlap confirmed (ok overlaps) db write =
    if not (length overlaps == 0) && not confirmed
    then (granted (overlap_warning (project_schedules overlaps parent)), db)
    else write_answer write

unfoldable pub create_decoded :
    Text → Time → Device → Answer (Item × Bool) → Database → Answer Written × Database
unfolding unless_overlap
create_decoded id now device (denied why) db = (denied why, db)
create_decoded id now device (granted (decoded, confirmed)) db =
    let item = record decoded { id = id } in
    unless_overlap confirmed (Items.overlapping_schedules item db) db
      (Schedules.create_schedule item device.id now db)

-- `createSchedule`; `id` is the token that is drawn, the times are the readings of the clock.
unfoldable pub create_schedule :
    Platform
    → Config
    → Request
    → Option ScheduleRequest
    → Text
    → Time
    → Time
    → Time
    → Database
    → Answer Written × Database
unfolding for_device create_decoded decode_schedule_request
create_schedule lib config r body id now later last db =
    for_device (require_content_admin lib config r now later db)
      λ device left. create_decoded id last device (decode_schedule_request lib body) left

unfoldable pub update_decoded :
    Text → Time → Device → Answer (Item × Bool) → Database → Answer Written × Database
unfolding unless_overlap
update_decoded id now device (denied why) db = (denied why, db)
update_decoded id now device (granted (decoded, confirmed)) db =
    let item = record decoded { id = id } in
    if ltb item.version 1
    then (denied version_required, db)
    else unless_overlap confirmed (Items.overlapping_schedules item db) db
        (Schedules.update_schedule item device.id now db)

-- `updateSchedule`; `id` is that of the path.
unfoldable pub update_schedule :
    Platform
    → Config
    → Request
    → Option ScheduleRequest
    → Text
    → Time
    → Time
    → Time
    → Database
    → Answer Written × Database
unfolding for_device update_decoded decode_schedule_request
update_schedule lib config r body id now later last db =
    for_device (require_content_admin lib config r now later db)
      λ device left. update_decoded id last device (decode_schedule_request lib body) left
