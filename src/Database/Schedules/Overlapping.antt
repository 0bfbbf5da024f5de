-- ===== src/Database/Schedules/Overlapping.antt =====
-- `OverlappingSchedules` of internal/database/schedule.go against `Overlap` of
-- internal/schedule/schedule.go.
use family_dashboard.Common.{
  ◌%◌, ◌≡◌, ◌↔◌, ◌∙◌, ap, inl, inr, sym, Bool, true, false, not, ◌&&◌, List, arith, length, ◌==◌,
  text_eq, any_row, Among, AllRows, AllRows-Among, Bool-cases, ◌<◌,
}
use family_dashboard.Time.{Time, database_time, second, year_10000}
use family_dashboard.Time.RoundTrip.{parse-database_time_early}
use family_dashboard.Schedule.{Item, contains, overlap}
use family_dashboard.Database.State.{Database, ScheduleRow, ok, Result-cases, is_null}
use family_dashboard.Database.Devices.{parse_time}
use family_dashboard.Database.Items.{
  item_of, is_between, has_participant, overlapping_schedules, unique, schedule_participants,
}
use family_dashboard.Database.Schedules.Queries.{is_between-whole_seconds}
use family_dashboard.Database.Schedules.Ranges.{chosen-exact}
use family_dashboard.Database.Schedules.Members.{IsNamed, has_participant-shared, unshared}

-- Times that are stored at whole seconds.
pub record IsWhole (s : ScheduleRow) : Type 0 where
  pub starts : Time
  pub ends : Time
  pub starts_stored : s.starts_at ≡ database_time starts
  pub ends_stored : s.ends_at ≡ database_time ends
  pub starts_whole : starts % second ≡ 0
  pub ends_whole : ends % second ≡ 0
  pub starts_readable : starts < year_10000
  pub ends_readable : ends < year_10000

pub item_of-parts :
    (db : Database) (s : ScheduleRow) (z : Item) (w : IsWhole s)
    → item_of db s ≡ ok z
    → (z.id ≡ s.id)
      × (z.starts_at ≡ w.starts)
      × (z.ends_at ≡ w.ends)
      × (z.participants ≡ schedule_participants s.id db)
unfolding item_of parse_time
item_of-parts db s z w h = elim (Result-cases (parse_time s.created_at)) [
  | inr (x, e) ↦ absurd (
      ground (
        arith,
        w.starts_stored,
        w.ends_stored,
        parse-database_time_early w.starts w.starts_readable,
        parse-database_time_early w.ends w.ends_readable,
      ))
  | inl (created, e) ↦ elim (Result-cases (parse_time s.updated_at)) [
    | inr (x, f) ↦ absurd (
        ground (
          arith,
          w.starts_stored,
          w.ends_stored,
          parse-database_time_early w.starts w.starts_readable,
          parse-database_time_early w.ends w.ends_readable,
        ))
    | inl (updated, f) ↦ ground (
      arith,
      w.starts_stored,
      w.ends_stored,
      parse-database_time_early w.starts w.starts_readable,
      parse-database_time_early w.ends w.ends_readable,
    )
  ]
]

-- A row that the query chooses.
abbrev is_overlapping : Item → Database → ScheduleRow → Bool
is_overlapping item db s =
    not (text_eq s.id item.id)
    && is_between (database_time item.starts_at) (database_time item.ends_at) s
    && has_participant (λ m. contains m (unique item.participants)) s.id db

is_overlapping-overlap :
    (item : Item) (db : Database) (s : ScheduleRow) (z : Item)
    → IsWhole s
    → item.starts_at % second ≡ 0
    → item.ends_at % second ≡ 0
    → item.starts_at < year_10000
    → item.ends_at < year_10000
    → AllRows IsNamed item.participants
    → item_of db s ≡ ok z
    → (is_overlapping item db s ≡ true)
      ↔ ((is_null s.deleted_at ≡ true) × (text_eq z.id item.id ≡ false) × (overlap item z ≡ true))
unfolding overlap
is_overlapping-overlap item db s z w from to near_from near_to named read =
    let (id, starts, ends, members) = item_of-parts db s z w read in
    let between =
      is_between-whole_seconds item.starts_at item.ends_at w.starts w.ends s from to w.starts_whole
        w.ends_whole near_from near_to w.starts_readable w.ends_readable w.starts_stored
        w.ends_stored in
    let (share, shared) = has_participant-shared item.participants s.id db named in
    (
      (λ h. (
        ground
            (arith, between, Bool-cases (text_eq s.id item.id), Bool-cases (is_null s.deleted_at)),
        ground (arith, id, Bool-cases (text_eq s.id item.id)),
        (let joined : has_participant (λ m. contains m (unique item.participants)) s.id db ≡ true =
              ground (arith, Bool-cases (text_eq s.id item.id)) in
            let met : any_row (λ m. contains m item.participants) z.participants ≡ true =
              ap (any_row (λ m. contains m item.participants)) members ∙ share joined in
            ground (
              arith,
              between,
              starts,
              ends,
              met,
              Bool-cases (text_eq s.id item.id),
              Bool-cases (is_null s.deleted_at),
            )),
      )),
      (λ (kept, other, o).
          let met : any_row (λ m. contains m item.participants) z.participants ≡ true =
            ground arith in
          let joined =
            shared (sym (ap (any_row (λ m. contains m item.participants)) members) ∙ met) in
          ground (arith, between, starts, ends, id, kept, other, joined)),
    )

-- Where all times are at whole seconds before year 10000 and the item names its participants, the
-- query returns exactly the other schedules that are not deleted and that `Overlap` finds to
-- overlap the item.
pub overlapping_schedules-overlap :
    (item : Item) (db : Database) (items : List Item) (z : Item)
    → AllRows IsWhole db.schedules
    → item.starts_at % second ≡ 0
    → item.ends_at % second ≡ 0
    → item.starts_at < year_10000
    → item.ends_at < year_10000
    → AllRows IsNamed item.participants
    → overlapping_schedules item db ≡ ok items
    → Among z items ↔ (
        (s : ScheduleRow) × Among s db.schedules
        × (item_of db s ≡ ok z)
        × (is_null s.deleted_at ≡ true)
        × (text_eq z.id item.id ≡ false)
        × (overlap item z ≡ true))
unfolding overlapping_schedules overlap
overlapping_schedules-overlap item db items z whole from to near_from near_to named h =
    elim (Bool-cases (length item.participants == 0)) [
      | inl empty ↦
          let nobody = unshared item.participants z.participants empty in
          (λ m. absurd (ground arith), λ (s, among, e, kept, other, o). absurd (ground arith))
      | inr some_members ↦
          let (read, build) = chosen-exact (is_overlapping item db) db items z (ground arith) in
          (
            (λ m.
                let (s, among, holds, e) = read m in
                let w = AllRows-Among IsWhole db.schedules s whole among in
                let (kept, other, o) =
                  (is_overlapping-overlap item db s z w from to near_from near_to named e).0
                    holds in
                (s, among, e, kept, other, o)),
            (λ (s, among, e, kept, other, o).
                let w = AllRows-Among IsWhole db.schedules s whole among in
                build (
                  s,
                  among,
                  (is_overlapping-overlap item db s z w from to near_from near_to named e).1
                      (kept, other, o),
                  e,
                )),
          )
    ]
