-- ===== src/Database/Items.antt =====
-- internal/database/schedule.go: family members, the reads of schedules and the range queries.
use family_dashboard.Common.{
  Bool, not, ◌&&◌, ◌||◌, Option, none, some, List, [], ◌∷◌, ◌==◌, if◌then◌else◌, Text, length,
  text_eq, text_lt, trim_space, find_row, any_row, select_rows, sort_rows, map,
}
use family_dashboard.Time.{Time, TimeText, database_time, time_text_lt}
use family_dashboard.Schedule.{Item, contains}
use family_dashboard.Database.State.{
  Database, MemberRow, ScheduleRow, ParticipantRow, Role, Result, ok, err, ◌>>=◌, is_null,
  schedule_not_found,
}
use family_dashboard.Database.Devices.{parse_time}

pub record FamilyMember : Type 0 where
  pub id : Text
  pub slug : Text
  pub display_name : Text
  pub role : Role

abbrev pub member_of : MemberRow → FamilyMember
member_of m = record { id = m.id; slug = m.slug; display_name = m.display_name; role = m.role }

-- `FamilyMembers`.
unfoldable pub family_members : Database → List FamilyMember
family_members db = map member_of (
    sort_rows (λ (a b : MemberRow). text_lt a.id b.id)
      (select_rows (λ (m : MemberRow). m.active) db.family_members))

unfoldable pub unique_after : List Text → List Text → List Text
unfolding contains
unique_after seen [] = []
unique_after seen (v ∷ vs) =
    let skipped = unique_after seen vs in
    let kept = v ∷ unique_after (v ∷ seen) vs in
    if text_eq v [] then skipped else if contains v seen then skipped else kept

-- `unique`.
unfoldable pub unique : List Text → List Text
unfolding unique_after
unique values = unique_after [] values

-- `nullable`.
unfoldable pub nullable : Text → Option Text
nullable value = if text_eq (trim_space value) [] then none else some (trim_space value)

-- `scheduleParticipants`.
unfoldable pub schedule_participants : Text → Database → List Text
schedule_participants schedule db =
    map (λ (p : ParticipantRow). p.family_member_id)
      (sort_rows (λ (a b : ParticipantRow). text_lt a.family_member_id b.family_member_id)
        (select_rows (λ (p : ParticipantRow). text_eq p.schedule_id schedule)
          db.schedule_participants))

-- The value of a sql.NullString: empty for NULL.
unfoldable pub null_text : Option Text → Text
null_text none = []
null_text (some t) = t

unfoldable pub item_of : Database → ScheduleRow → Result Item
unfolding schedule_participants null_text parse_time
item_of db s = do
  starts ← parse_time s.starts_at
  ends ← parse_time s.ends_at
  created ← parse_time s.created_at
  updated ← parse_time s.updated_at
  ok (record {
    id = s.id;
    title = s.title;
    location_name = null_text s.location_name;
    notes = null_text s.notes;
    visibility = s.visibility;
    starts_at = starts;
    ends_at = ends;
    participants = schedule_participants s.id db;
    version = s.version;
    created_at = created;
    updated_at = updated;
  })

-- `querySchedules`, on the rows that the query chose.
unfoldable pub items_of : Database → List ScheduleRow → Result (List Item)
unfolding item_of
items_of db [] = ok []
items_of db (s ∷ rows) =
    let rest = items_of db rows in item_of db s >>= λ i. rest >>= λ is. ok (i ∷ is)

unfoldable pub is_current : Text → ScheduleRow → Bool
unfolding is_null
is_current id s = text_eq s.id id && is_null s.deleted_at

-- `ScheduleByID`.
unfoldable pub schedule_by_id : Text → Database → Result Item
unfolding is_current item_of
schedule_by_id id db = elim (find_row (is_current id) db.schedules) [
  | none ↦ err schedule_not_found
  | some s ↦ item_of db s
]

-- `ORDER BY s.starts_at, s.id`.
unfoldable pub schedule_before : ScheduleRow → ScheduleRow → Bool
unfolding time_text_lt
schedule_before a b =
    time_text_lt a.starts_at b.starts_at
    || (not (time_text_lt b.starts_at a.starts_at) && text_lt a.id b.id)

-- A row of the JOIN with the participants that meets the condition; DISTINCT keeps each schedule
-- once, since its id is the primary key.
unfoldable pub has_participant : (Text → Bool) → Text → Database → Bool
has_participant which schedule db =
    any_row (λ (p : ParticipantRow). text_eq p.schedule_id schedule && which p.family_member_id)
      db.schedule_participants

unfoldable pub is_between : TimeText → TimeText → ScheduleRow → Bool
unfolding is_null time_text_lt
is_between from to s =
    is_null s.deleted_at && time_text_lt from s.ends_at && time_text_lt s.starts_at to

-- `SchedulesBetween`; an empty member asks for everybody's.
unfoldable pub schedules_between : Time → Time → Text → Database → Result (List Item)
unfolding schedule_before has_participant is_between items_of
schedules_between from to member db = items_of db (
    sort_rows schedule_before (
      select_rows
        (λ (s : ScheduleRow).
          is_between (database_time from) (database_time to) s
          && has_participant (λ m. text_eq member [] || text_eq m member) s.id db)
        db.schedules))

-- `OverlappingSchedules`.
unfoldable pub overlapping_schedules : Item → Database → Result (List Item)
unfolding schedule_before has_participant is_between items_of unique contains
overlapping_schedules item db =
    if length item.participants == 0
    then ok []
    else items_of db (
        sort_rows schedule_before (
          select_rows
            (λ (s : ScheduleRow).
              not (text_eq s.id item.id)
              && is_between (database_time item.starts_at) (database_time item.ends_at) s
              && has_participant (λ m. contains m (unique item.participants)) s.id db)
            db.schedules))
