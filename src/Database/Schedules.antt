-- ===== src/Database/Schedules.antt =====
-- internal/database/schedule.go: how schedules and their participants are written.
pub mod Versions
pub mod Queries
pub mod Saved
pub mod Ranges
pub mod Members
pub mod Overlapping
pub mod Between
use family_dashboard.Common.{
  ℕ, ◌+◌, Bool, true, false, not, ◌&&◌, ◌||◌, Option, none, some, List, [], ◌∷◌, ◌++◌, leb, ◌==◌,
  if◌then◌else◌, Text, length, text_eq, text_lt, trim_space, sql_length, find_row, any_row,
  count_rows, update_rows, select_rows, delete_rows, sort_rows, map,
}
use family_dashboard.Time.{Time, TimeText, database_time, time_text_lt}
use family_dashboard.Schedule.{Item, Visibility, contains, known_visibility}
use family_dashboard.Database.State.{
  Database, MemberRow, ScheduleRow, ParticipantRow, Role, Result, ok, err, ◌>>=◌, Outcome, is_null,
  invalid_participant, schedule_not_found, schedule_conflict, constraint,
}
use family_dashboard.Database.Statements.{has_device, checked}
use family_dashboard.Database.Devices.{parse_time}
use family_dashboard.Database.Items.{
  FamilyMember, family_members, has_participant, is_between, is_current, item_of, items_of,
  member_of, null_text, nullable, overlapping_schedules, schedule_before, schedule_by_id,
  schedule_participants, schedules_between, unique, unique_after,
}

-- `validateParticipants`: nobody, or somebody who is no active family member, is refused.
unfoldable pub participants_valid : List Text → Database → Bool
unfolding unique contains
participants_valid participants db =
    let chosen = unique participants in
    not (length chosen == 0)
    && count_rows (λ (m : MemberRow). m.active && contains m.id chosen) db.family_members
      == length chosen

unfoldable pub optional_fits : ℕ → Option Text → Bool
optional_fits limit none = true
optional_fits limit (some t) = leb (sql_length t) limit

-- The CHECK constraints of a row of schedules.
unfoldable pub schedule_fits : ScheduleRow → Bool
unfolding optional_fits known_visibility time_text_lt
schedule_fits s =
    leb 1 (sql_length s.title)
    && leb (sql_length s.title) 200
    && optional_fits 200 s.location_name
    && optional_fits 2000 s.notes
    && known_visibility s.visibility
    && leb 1 s.version
    && time_text_lt s.starts_at s.ends_at

unfoldable pub insert_schedule : ScheduleRow → Database → Result Database
unfolding checked has_device schedule_fits
insert_schedule s db =
    checked
      (not (any_row (λ (e : ScheduleRow). text_eq e.id s.id) db.schedules)
        && schedule_fits s
        && has_device s.created_by_device_id db
        && has_device s.updated_by_device_id db)
      (record db { schedules = db.schedules ++ s ∷ [] })

unfoldable pub insert_participant : Text → Text → Database → Result Database
unfolding checked
insert_participant schedule member db =
    checked
      (not (
          any_row
            (λ (p : ParticipantRow).
              text_eq p.schedule_id schedule && text_eq p.family_member_id member)
            db.schedule_participants)
        && any_row (λ (s : ScheduleRow). text_eq s.id schedule) db.schedules
        && any_row (λ (m : MemberRow). text_eq m.id member) db.family_members)
      (record db {
        schedule_participants =
            db.schedule_participants
            ++ record { schedule_id = schedule; family_member_id = member } ∷ [];
      })

unfoldable pub insert_participants : Text → List Text → Database → Result Database
unfolding insert_participant
insert_participants schedule [] db = ok db
insert_participants schedule (v ∷ vs) db =
    insert_participant schedule v db >>= insert_participants schedule vs

abbrev pub new_schedule : Item → Text → Time → ScheduleRow
new_schedule item device_id now = record {
  id = item.id;
  title = trim_space item.title;
  location_name = nullable item.location_name;
  notes = nullable item.notes;
  visibility = item.visibility;
  starts_at = database_time item.starts_at;
  ends_at = database_time item.ends_at;
  created_by_device_id = device_id;
  updated_by_device_id = device_id;
  version = 1;
  created_at = database_time now;
  updated_at = database_time now;
  deleted_at = none;
}

-- A commit followed by the read of the schedule that was written.
unfoldable pub commit_schedule : Text → Database → Result Database → Outcome Item
unfolding schedule_by_id
commit_schedule id db (ok db') = (schedule_by_id id db', db')
commit_schedule id db (err e) = (err e, db)

-- `CreateSchedule`.
unfoldable pub create_schedule : Item → Text → Time → Database → Outcome Item
unfolding participants_valid insert_schedule insert_participants commit_schedule
create_schedule item device_id now db =
    if participants_valid item.participants db
    then commit_schedule item.id db (
        insert_schedule (new_schedule item device_id now) db
        >>= insert_participants item.id (unique item.participants))
    else (err invalid_participant, db)

-- The condition of the UPDATE: the id, and the version that the client saw.
unfoldable pub is_version : Text → ℕ → ScheduleRow → Bool
unfolding is_current
is_version id version s = text_eq s.id id && s.version == version && is_null s.deleted_at

unfoldable pub updated_schedule : Item → Text → Time → ScheduleRow → ScheduleRow
updated_schedule item device_id now s = record s {
  title = trim_space item.title;
  location_name = nullable item.location_name;
  notes = nullable item.notes;
  visibility = item.visibility;
  starts_at = database_time item.starts_at;
  ends_at = database_time item.ends_at;
  version = s.version + 1;
  updated_at = database_time now;
  updated_by_device_id = device_id;
}

unfoldable pub update_row : Item → Text → Time → Database → Database
unfolding is_version updated_schedule
update_row item device_id now db = record db {
  schedules =
      update_rows (is_version item.id item.version) (updated_schedule item device_id now)
        db.schedules;
}

-- The constraints of the updated row, on the only row that the UPDATE touches.
unfoldable pub update_allowed : Item → Text → Time → Database → Bool
unfolding schedule_fits updated_schedule is_version has_device
update_allowed item device_id now db =
    elim (find_row (is_version item.id item.version) db.schedules) [
      | none ↦ true
      | some s ↦ schedule_fits (updated_schedule item device_id now s) && has_device device_id db
    ]

unfoldable pub drop_participants : Text → Database → Database
drop_participants schedule db = record db {
  schedule_participants =
      delete_rows (λ (p : ParticipantRow). text_eq p.schedule_id schedule) db.schedule_participants;
}

unfoldable pub update_statements : Item → Text → Time → Database → Result Database
unfolding update_row update_allowed is_version is_current drop_participants insert_participants
update_statements item device_id now db =
    if not (update_allowed item device_id now db)
    then err constraint
    else if count_rows (is_version item.id item.version) db.schedules == 1
    then insert_participants item.id (unique item.participants)
        (drop_participants item.id (update_row item device_id now db))
    else if count_rows (is_current item.id) db.schedules == 0
    then err schedule_not_found
    else err schedule_conflict

-- `UpdateSchedule`.
unfoldable pub update_schedule : Item → Text → Time → Database → Outcome Item
unfolding participants_valid update_statements commit_schedule
update_schedule item device_id now db =
    if participants_valid item.participants db
    then commit_schedule item.id db (update_statements item device_id now db)
    else (err invalid_participant, db)
