-- ===== src/Database/Schedules/Saved.antt =====
-- What CreateSchedule of internal/database/schedule.go stores, read back.
use family_dashboard.Database.Schedules.Members.{contains-unique, AllDistinct-unique}
use family_dashboard.Schedule.Participants.{contains→Among, Among→contains, count_rows-AllDistinct}
use mathlib.Core.List.{append_assoc, append-nil}
use family_dashboard.Common.{
  ◌≡◌, ◌∙◌, ap, inl, inr, true, false, some, List, [], ◌∷◌, ◌++◌, map, arith, Text, text_eq,
  text_eq_refl, text_eq→eq, text_lt, trim_space, Among, AllRows, any_row, any_row-AllRows,
  AllRows-mono, find_row, find_row-append, find_row-eq_none, select_rows, sort_rows,
  select_rows-append_new, Bool-cases, ◌<◌, ◌≢◌, ◌&&◌, not, if◌then◌else◌, Bool, count_rows,
  count_rows-map, count_rows-sort_rows, count_rows-Among,
}
use family_dashboard.Time.{Time, year_10000}
use family_dashboard.Time.RoundTrip.{parse-database_time_early}
use family_dashboard.Schedule.{Item, contains}
use family_dashboard.Database.State.{
  Database, ScheduleRow, ParticipantRow, ok, ◌>>=◌, Result-cases, is_null,
}
use family_dashboard.Database.Devices.{parse_time}
use family_dashboard.Database.Schedules.{
  create_schedule, insert_schedule, insert_participant, insert_participants, new_schedule,
  participants_valid,
}
use family_dashboard.Database.Items.{
  nullable, null_text, item_of, is_current, schedule_by_id, schedule_participants, unique,
}
use family_dashboard.Database.Schedules.Versions.{insert_participants-schedules, commit_schedule-ok}

abbrev participant : Text → Text → ParticipantRow
participant schedule member = record { schedule_id = schedule; family_member_id = member }

insert_participants-rows :
    (schedule : Text) (vs : List Text) (db db' : Database)
    → insert_participants schedule vs db ≡ ok db'
    → db'.schedule_participants ≡ db.schedule_participants ++ map (participant schedule) vs
unfolding insert_participants insert_participant
insert_participants-rows schedule [] db db' h = ground (arith, append-nil db.schedule_participants)
insert_participants-rows schedule (v ∷ vs) db db' h =
    elim (Result-cases (insert_participant schedule v db)) [
      | inr (x, e) ↦ absurd (ground arith)
      | inl (db1, e) ↦
          insert_participants-rows schedule vs db1 db' (ground arith)
          ∙ ap (λ (rows : List ParticipantRow). rows ++ map (participant schedule) vs)
              (inserted-row schedule v db db1 e)
          ∙ append_assoc db.schedule_participants (participant schedule v ∷ [])
              (map (participant schedule) vs)
    ]
  where
    inserted-row :
        (schedule v : Text) (db db1 : Database)
        → insert_participant schedule v db ≡ ok db1
        → db1.schedule_participants ≡ db.schedule_participants ++ participant schedule v ∷ []
    inserted-row schedule v db db1 e = unfold insert_participant in ground arith

null_text-nullable : (t : Text) → null_text (nullable t) ≡ trim_space t
unfolding null_text nullable
null_text-nullable t = elim (Bool-cases (text_eq (trim_space t) [])) [
  | inl e ↦ ground (arith, text_eq→eq (trim_space t) [])
  | inr e ↦ ground arith
]

-- The item that is read back from the row of a new schedule.
abbrev pub saved_item : Item → Time → Database → Item
saved_item item now db = record {
  id = item.id;
  title = trim_space item.title;
  location_name = trim_space item.location_name;
  notes = trim_space item.notes;
  visibility = item.visibility;
  starts_at = item.starts_at;
  ends_at = item.ends_at;
  participants = schedule_participants item.id db;
  version = 1;
  created_at = now;
  updated_at = now;
}

-- The instants of an item that are stored are before year 10000.
pub record IsReadable (item : Item) (now : Time) : Type 0 where
  pub starts : item.starts_at < year_10000
  pub ends : item.ends_at < year_10000
  pub clock : now < year_10000

item_of-new_schedule :
    (item : Item) (device_id : Text) (now : Time) (db : Database)
    → IsReadable item now
    → item_of db (new_schedule item device_id now) ≡ ok (saved_item item now db)
unfolding item_of parse_time
item_of-new_schedule item device_id now db near = ground (
  arith,
  parse-database_time_early item.starts_at near.starts,
  parse-database_time_early item.ends_at near.ends,
  parse-database_time_early now near.clock,
  null_text-nullable item.location_name,
  null_text-nullable item.notes,
)

-- The rows of a creation that ran.
record Created (item : Item) (device_id : Text) (now : Time) (db db' : Database) : Type 0 where
  unused : any_row (λ (e : ScheduleRow). text_eq e.id item.id) db.schedules ≡ false
  schedules : db'.schedules ≡ db.schedules ++ new_schedule item device_id now ∷ []
  participants :
      db'.schedule_participants
      ≡ db.schedule_participants ++ map (participant item.id) (unique item.participants)

creation-Created :
    (item : Item) (device_id : Text) (now : Time) (db db' : Database)
    → (insert_schedule (new_schedule item device_id now) db
        >>= insert_participants item.id (unique item.participants))
      ≡ ok db'
    → Created item device_id now db db'
unfolding insert_schedule
creation-Created item device_id now db db' h =
    elim (Result-cases (insert_schedule (new_schedule item device_id now) db)) [
      | inr (x, e) ↦ absurd (ground arith)
      | inl (db1, e) ↦ record {
        unused = ground arith;
        schedules =
            insert_participants-schedules item.id (unique item.participants) db1 db' (ground arith)
            ∙ ground arith;
        participants =
            insert_participants-rows item.id (unique item.participants) db1 db' (ground arith)
            ∙ ground arith;
      }
    ]

Created-found :
    (item : Item) (device_id : Text) (now : Time) (db db' : Database)
    → Created item device_id now db db'
    → find_row (is_current item.id) db'.schedules ≡ some (new_schedule item device_id now)
unfolding find_row
Created-found item device_id now db db' c =
    ap (find_row (is_current item.id)) c.schedules
    ∙ find_row-append (is_current item.id) db.schedules (new_schedule item device_id now ∷ []) (
        find_row-eq_none (is_current item.id) db.schedules (
          AllRows-mono (λ (s : ScheduleRow). text_eq s.id item.id ≡ false)
            (λ (s : ScheduleRow). is_current item.id s ≡ false) db.schedules
            (λ s h. unfold is_current in ground arith)
            (any_row-AllRows (λ (s : ScheduleRow). text_eq s.id item.id) db.schedules c.unused)))
    ∙ unfold is_current is_null in ground (arith, text_eq_refl item.id)

own-rows :
    (schedule : Text) (vs : List Text)
    → AllRows
        (λ (p : ParticipantRow). text_eq p.schedule_id schedule ≡ true)
        (map (participant schedule) vs)
own-rows schedule [] = tt
own-rows schedule (v ∷ vs) = (text_eq_refl schedule, own-rows schedule vs)

-- How often a member takes part in the schedule that was created.
Created-participants :
    (item : Item) (device_id : Text) (now : Time) (db db' : Database) (m : Text)
    → any_row (λ (p : ParticipantRow). text_eq p.schedule_id item.id) db.schedule_participants
      ≡ false
    → Created item device_id now db db'
    → count_rows (λ v. text_eq v m) (schedule_participants item.id db')
      ≡ (if contains m item.participants && not (text_eq m []) then 1 else 0)
unfolding schedule_participants
Created-participants item device_id now db db' m free c =
    let before = λ (a b : ParticipantRow). text_lt a.family_member_id b.family_member_id in
    let own = λ (p : ParticipantRow). text_eq p.schedule_id item.id in
    let is_m = λ (p : ParticipantRow). text_eq p.family_member_id m in
    let rows = map (participant item.id) (unique item.participants) in
    let chosen : select_rows own db'.schedule_participants ≡ rows =
      ap (select_rows own) c.participants
      ∙ select_rows-append_new own db.schedule_participants rows free
          (own-rows item.id (unique item.participants)) in
    let found = contains-unique m item.participants in
    rw chosen (
      count_rows-map (λ (p : ParticipantRow). p.family_member_id) (λ v. text_eq v m)
        (sort_rows before rows)
      ∙ count_rows-sort_rows is_m before rows
      ∙ count_rows-map (participant item.id) is_m (unique item.participants)
      ∙ count_rows-AllDistinct m (unique item.participants) (AllDistinct-unique item.participants)
      ∙ ap (λ (b : Bool). if b then 1 else 0) found)

-- When `CreateSchedule` succeeds, for an id under which no participant is stored yet and instants
-- before year 10000, it returns the item with its texts trimmed, its times as they were given and
-- version 1, and `ScheduleByID` reads the same item. Its participants are those that were given:
-- each of them that is not the empty text stands there once, and nobody else.
pub create_schedule-saved :
    (item saved : Item) (device_id : Text) (now : Time) (db db' : Database)
    → any_row (λ (p : ParticipantRow). text_eq p.schedule_id item.id) db.schedule_participants
      ≡ false
    → IsReadable item now
    → create_schedule item device_id now db ≡ (ok saved, db')
    → (saved ≡ saved_item item now db')
      × (schedule_by_id item.id db' ≡ ok saved)
      × ((m : Text)
          → Among m item.participants
          → m ≢ []
          → count_rows (λ v. text_eq v m) saved.participants ≡ 1)
      × ((m : Text) → Among m saved.participants → Among m item.participants × (m ≢ []))
unfolding create_schedule schedule_by_id
create_schedule-saved item saved device_id now db db' free near h =
    elim (Bool-cases (participants_valid item.participants db)) [
      | inr f ↦ absurd (ground arith)
      | inl t ↦
          let (ran, read) =
            commit_schedule-ok item.id db db'
              (insert_schedule (new_schedule item device_id now) db
                >>= insert_participants item.id (unique item.participants))
              saved (ground arith) in
          let c = creation-Created item device_id now db db' ran in
          let same : saved ≡ saved_item item now db' = ground (
            arith,
            Created-found item device_id now db db' c,
            item_of-new_schedule item device_id now db' near,
          ) in
          let count = λ (m : Text). Created-participants item device_id now db db' m free c in
          let members : saved.participants ≡ schedule_participants item.id db' =
            ap (λ (i : Item). i.participants) same in
          (
            same,
            read,
            (λ m listed named.
                once m item.participants saved.participants listed named (rw members (count m))),
            (λ m listed.
                given m item.participants saved.participants listed (rw members (count m))),
          )
    ]
  where
    once :
        (m : Text) (xs ys : List Text)
        → Among m xs
        → m ≢ []
        → count_rows (λ v. text_eq v m) ys ≡ (if contains m xs && not (text_eq m []) then 1 else 0)
        → count_rows (λ v. text_eq v m) ys ≡ 1
    once m xs ys listed named e = elim (Bool-cases (text_eq m [])) [
      | inl t ↦ absurd (named (text_eq→eq m [] t))
      | inr f ↦ ground (arith, Among→contains m xs listed)
    ]

    given :
        (m : Text) (xs ys : List Text)
        → Among m ys
        → count_rows (λ v. text_eq v m) ys ≡ (if contains m xs && not (text_eq m []) then 1 else 0)
        → Among m xs × (m ≢ [])
    given m xs ys listed e =
        let some_one = count_rows-Among (λ v. text_eq v m) ys m listed (text_eq_refl m) in
        (contains→Among m xs (ground arith), λ empty. absurd (ground (arith, text_eq_refl m)))
