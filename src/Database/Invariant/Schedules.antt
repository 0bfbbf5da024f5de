-- ===== src/Database/Invariant/Schedules.antt =====
-- The writes of schedules keep a database well formed.
use family_dashboard.Common.{
  ◌≡◌, subst, inl, inr, refl, List, [], ◌∷◌, arith, Text, count_rows, ◌==◌, Bool-cases,
}
use family_dashboard.Time.{Time}
use family_dashboard.Schedule.{Item}
use family_dashboard.Database.State.{Database, ScheduleRow, Result, ok, err, ◌>>=◌, Result-cases}
use family_dashboard.Database.Schedules.{
  insert_schedule, insert_participants, insert_participant, new_schedule, commit_schedule,
  update_statements, update_allowed, is_version, participants_valid, update_row, drop_participants,
  create_schedule, update_schedule,
}
use family_dashboard.Database.Items.{is_current, unique}
use family_dashboard.Database.Invariant.{WellFormed}
use family_dashboard.Database.Invariant.Tables.{Same-WellFormed}

commit_schedule-kept :
    (id : Text) (db : Database) (result : Result Database)
    → WellFormed db
    → ((db' : Database) → result ≡ ok db' → WellFormed db')
    → WellFormed (commit_schedule id db result).1
unfolding commit_schedule
commit_schedule-kept id db (ok db') w h = h db' refl
commit_schedule-kept id db (err e) w h = w

insert_participant-WellFormed :
    (schedule member : Text) (db db' : Database)
    → WellFormed db
    → insert_participant schedule member db ≡ ok db'
    → WellFormed db'
unfolding insert_participant
insert_participant-WellFormed schedule member db db' w h =
    Same-WellFormed db db' (ground arith) (ground arith) (ground arith) (ground arith)
      (ground arith) w

insert_participants-WellFormed :
    (schedule : Text) (members : List Text) (db db' : Database)
    → WellFormed db
    → insert_participants schedule members db ≡ ok db'
    → WellFormed db'
unfolding insert_participants
insert_participants-WellFormed schedule [] db db' w h = subst WellFormed (ground arith) w
insert_participants-WellFormed schedule (m ∷ ms) db db' w h =
    elim (Result-cases (insert_participant schedule m db)) [
      | inl (db1, e) ↦
          insert_participants-WellFormed schedule ms db1 db'
            (insert_participant-WellFormed schedule m db db1 w e) (ground arith)
      | inr (x, e) ↦ absurd (ground arith)
    ]

creation-WellFormed :
    (s : ScheduleRow) (members : List Text) (db db' : Database)
    → WellFormed db
    → (insert_schedule s db >>= insert_participants s.id members) ≡ ok db'
    → WellFormed db'
unfolding insert_schedule
creation-WellFormed s members db db' w h = elim (Result-cases (insert_schedule s db)) [
  | inr (x, e) ↦ absurd (ground arith)
  | inl (db1, e) ↦
      insert_participants-WellFormed s.id members db1 db'
        (Same-WellFormed db db1 (ground arith) (ground arith) (ground arith) (ground arith)
          (ground arith) w)
        (ground arith)
]

pub create_schedule-WellFormed :
    (item : Item) (device_id : Text) (now : Time) (db : Database)
    → WellFormed db
    → WellFormed (create_schedule item device_id now db).1
unfolding create_schedule
create_schedule-WellFormed item device_id now db w =
    elim (Bool-cases (participants_valid item.participants db)) [
      | inr f ↦ rw (create_schedule, f) w
      | inl t ↦
          rw (create_schedule, t)
            (commit_schedule-kept item.id db _ w λ db' h.
              creation-WellFormed (new_schedule item device_id now) (unique item.participants) db
                db' w h)
    ]

update_statements-WellFormed :
    (item : Item) (device_id : Text) (now : Time) (db db' : Database)
    → WellFormed db
    → update_statements item device_id now db ≡ ok db'
    → WellFormed db'
unfolding update_statements update_row drop_participants
update_statements-WellFormed item device_id now db db' w h =
    elim (Bool-cases (update_allowed item device_id now db)) [
      | inr f ↦ absurd (ground arith)
      | inl t ↦ elim (Bool-cases (count_rows (is_version item.id item.version) db.schedules == 1)) [
        | inr f ↦
            absurd (ground (arith, Bool-cases (count_rows (is_current item.id) db.schedules == 0)))
        | inl one ↦
            insert_participants-WellFormed item.id (unique item.participants)
              (drop_participants item.id (update_row item device_id now db)) db'
              (Same-WellFormed db (drop_participants item.id (update_row item device_id now db))
                refl refl refl refl refl w)
              (ground arith)
      ]
    ]

pub update_schedule-WellFormed :
    (item : Item) (device_id : Text) (now : Time) (db : Database)
    → WellFormed db
    → WellFormed (update_schedule item device_id now db).1
unfolding update_schedule
update_schedule-WellFormed item device_id now db w =
    elim (Bool-cases (participants_valid item.participants db)) [
      | inr f ↦ rw (update_schedule, f) w
      | inl t ↦
          rw (update_schedule, t)
            (commit_schedule-kept item.id db _ w
              λ db' h. update_statements-WellFormed item device_id now db db' w h)
    ]
