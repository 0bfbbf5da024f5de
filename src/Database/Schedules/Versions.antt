-- ===== src/Database/Schedules/Versions.antt =====
-- UpdateSchedule of internal/database/schedule.go and the version that an update names.
use family_dashboard.Common.{
  ◌≤◌, ◌≡◌, ◌∙◌, sym, ap, subst, inl, inr, refl, true, false, List, [], ◌∷◌, arith, ◌==◌, AllRows,
  AllRows-mono, AllRows-update_rows, Text, find_row-eq_none, count_rows, count_rows-eq_zero,
  count_rows-update_rows, Bool-cases, if◌then◌else◌,
}
use family_dashboard.Time.{Time}
use family_dashboard.Schedule.{Item}
use family_dashboard.Database.State.{
  Database, ScheduleRow, Result, ok, err, ◌>>=◌, schedule_conflict, invalid_participant,
}
use family_dashboard.Database.Statements.{checked}
use family_dashboard.Database.Schedules.{
  insert_participant, insert_participants, update_schedule, update_statements, update_row,
  updated_schedule, update_allowed, is_version, drop_participants, participants_valid,
  commit_schedule,
}
use family_dashboard.Database.Items.{is_current, schedule_by_id, unique}

insert_participant-schedules :
    (id v : Text) (db d : Database) → insert_participant id v db ≡ ok d → d.schedules ≡ db.schedules
unfolding insert_participant checked
insert_participant-schedules id v db d h = ground arith

through :
    (r : Result Database) (rows : List ScheduleRow) (k : Database → Result Database)
    (db' : Database)
    → ((d : Database) → r ≡ ok d → d.schedules ≡ rows)
    → ((d : Database) → k d ≡ ok db' → db'.schedules ≡ d.schedules)
    → (r >>= k) ≡ ok db'
    → db'.schedules ≡ rows
through (ok d) rows k db' before after h = after d h ∙ before d refl
through (err e) rows k db' before after h = ground arith

pub insert_participants-schedules :
    (id : Text) (vs : List Text) (db db' : Database)
    → insert_participants id vs db ≡ ok db'
    → db'.schedules ≡ db.schedules
unfolding insert_participants
insert_participants-schedules id [] db db' h = ground arith
insert_participants-schedules id (v ∷ vs) db db' h =
    through (insert_participant id v db) db.schedules (insert_participants id vs) db'
      (λ d e. insert_participant-schedules id v db d e)
      (λ d e. insert_participants-schedules id vs d db' e) h

pub commit_schedule-ok :
    (id : Text) (db db' : Database) (r : Result Database) (item : Item)
    → commit_schedule id db r ≡ (ok item, db')
    → (r ≡ ok db') × (schedule_by_id id db' ≡ ok item)
unfolding commit_schedule
commit_schedule-ok id db db' (ok d) item h = (ground arith, ground arith)
commit_schedule-ok id db db' (err e) item h = ground arith

-- An update whose statements ran has found one row of its version.
update_statements-ran :
    (item : Item) (device : Text) (now : Time) (db db' : Database)
    → update_statements item device now db ≡ ok db'
    → (count_rows (is_version item.id item.version) db.schedules ≡ 1)
      × (db'.schedules ≡ (update_row item device now db).schedules)
unfolding update_statements
update_statements-ran item device now db db' h =
    elim (Bool-cases (update_allowed item device now db)) [
      | inr h0 ↦ ground arith
      | inl h1 ↦
          elim (Bool-cases (count_rows (is_version item.id item.version) db.schedules == 1)) [
            | inr other ↦ elim (Bool-cases (count_rows (is_current item.id) db.schedules == 0)) [
              | inl a ↦ ground arith
              | inr b ↦ ground arith
            ]
            | inl one ↦ (
              ground arith,
              insert_participants-schedules item.id (unique item.participants)
                    (drop_participants item.id (update_row item device now db)) db' (ground arith)
                  ∙ unfold drop_participants in refl,
            )
          ]
    ]

update_schedule-ran :
    (item result : Item) (device : Text) (now : Time) (db db' : Database)
    → update_schedule item device now db ≡ (ok result, db')
    → (count_rows (is_version item.id item.version) db.schedules ≡ 1)
      × (db'.schedules ≡ (update_row item device now db).schedules)
unfolding update_schedule
update_schedule-ran item result device now db db' h =
    elim (Bool-cases (participants_valid item.participants db)) [
      | inr h0 ↦ ground arith
      | inl h1 ↦
          update_statements-ran item device now db db'
            (commit_schedule-ok item.id db db' (update_statements item device now db) result
              (ground arith)).0
    ]

no_old_version :
    (item : Item) (device : Text) (now : Time) (db : Database)
    → AllRows
        (λ (s : ScheduleRow). is_version item.id item.version s ≡ false)
        (update_row item device now db).schedules
unfolding update_row is_version updated_schedule
no_old_version item device now db = AllRows-update_rows _ _ _ db.schedules (λ s. ground arith)

still_current :
    (item : Item) (device : Text) (now : Time) (db : Database)
    → count_rows (is_version item.id item.version) db.schedules
      ≤ count_rows (is_current item.id) (update_row item device now db).schedules
unfolding update_row
still_current item device now db =
    count_rows-update_rows (is_version item.id item.version) (is_current item.id)
      (updated_schedule item device now) db.schedules
      (λ s h. unfold is_version is_current updated_schedule in ground arith)

allowed_of_none :
    (stale : Item) (other : Text) (later : Time) (db : Database)
    → AllRows (λ (s : ScheduleRow). is_version stale.id stale.version s ≡ false) db.schedules
    → update_allowed stale other later db ≡ true
unfolding update_allowed
allowed_of_none stale other later db gone =
    ground (arith, find_row-eq_none (is_version stale.id stale.version) db.schedules gone)

stale_statements :
    (stale : Item) (other : Text) (later : Time) (db : Database)
    → AllRows (λ (s : ScheduleRow). is_version stale.id stale.version s ≡ false) db.schedules
    → 1 ≤ count_rows (is_current stale.id) db.schedules
    → update_statements stale other later db ≡ err schedule_conflict
unfolding update_statements
stale_statements stale other later db gone current =
    elim (Bool-cases (update_allowed stale other later db)) [
      | inr h0 ↦ ground (arith, allowed_of_none stale other later db gone)
      | inl h1 ↦
          ground (arith, count_rows-eq_zero (is_version stale.id stale.version) db.schedules gone)
    ]

stale_gone :
    (item stale : Item) (device : Text) (now : Time) (db : Database)
    → stale.id ≡ item.id
    → stale.version ≡ item.version
    → AllRows
        (λ (s : ScheduleRow). is_version stale.id stale.version s ≡ false)
        (update_row item device now db).schedules
stale_gone item stale device now db i v =
    AllRows-mono _ _ (update_row item device now db).schedules
      (λ s h. ap (λ k. is_version k stale.version s) i ∙ ap (λ k. is_version item.id k s) v ∙ h)
      (no_old_version item device now db)

-- No update is lost. After an update has succeeded, every further one of the same schedule which
-- names the version that the first had named is refused and changes nothing: as a conflict where
-- its participants are active members, and else for its participants.
pub update_schedule-conflict :
    (item stale result : Item) (device other : Text) (now later : Time) (db db' : Database)
    → update_schedule item device now db ≡ (ok result, db')
    → stale.id ≡ item.id
    → stale.version ≡ item.version
    → update_schedule stale other later db' ≡ (
      err (
          if participants_valid stale.participants db'
          then schedule_conflict
          else invalid_participant),
      db',
    )
unfolding update_schedule commit_schedule
update_schedule-conflict item stale result device other now later db db' h i v = ground (
  arith,
  Bool-cases (participants_valid stale.participants db'),
  stale_statements stale other later db'
      (subst (AllRows _) (sym rows) (stale_gone item stale device now db i v))
      (subst (λ k. 1 ≤ count_rows (is_current k) db'.schedules) (sym i)
        (subst (λ rs. 1 ≤ count_rows (is_current item.id) rs) (sym rows)
          (omega (arith, ran.0, still_current item device now db)))),
)
  where
    ran :
        (count_rows (is_version item.id item.version) db.schedules ≡ 1)
        × (db'.schedules ≡ (update_row item device now db).schedules)
    ran = update_schedule-ran item result device now db db' h

    rows : db'.schedules ≡ (update_row item device now db).schedules
    rows = ran.1
