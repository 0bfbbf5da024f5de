-- ===== src/Database/Schedules/Between.antt =====
-- `SchedulesBetween` of internal/database/schedule.go in terms of instants and members.
use family_dashboard.Common.{
  ◌<◌, ◌%◌, ◌≡◌, ◌↔◌, ◌⊎◌, sym, subst, inl, inr, refl, Bool, true, ◌&&◌, ◌||◌, none, List, [],
  arith, Text, text_eq, text_eq_iff, text_eq→eq, Among, AllRows, AllRows-Among, ltb, Bool-cases,
  Option-cases,
}
use family_dashboard.Time.{Time, database_time, second, year_10000}
use family_dashboard.Schedule.{Item}
use family_dashboard.Database.State.{Database, ScheduleRow, ParticipantRow, ok, is_null}
use family_dashboard.Database.Items.{
  item_of, is_between, has_participant, schedules_between, schedule_participants,
}
use family_dashboard.Database.Schedules.Queries.{is_between-whole_seconds}
use family_dashboard.Database.Schedules.Ranges.{chosen-exact}
use family_dashboard.Database.Schedules.Members.{any_row-holds, members-Among}
use family_dashboard.Database.Schedules.Overlapping.{IsWhole, item_of-parts}

-- A participant that the query asks for: anybody, or the member.
abbrev pub TakesPart : Text → Item → Type 0
TakesPart member z = (m : Text) × Among m z.participants × ((member ≡ []) ⊎ (m ≡ member))

has_participant-TakesPart :
    (member : Text) (db : Database) (s : ScheduleRow) (z : Item)
    → z.participants ≡ schedule_participants s.id db
    → (has_participant (λ m. text_eq member [] || text_eq m member) s.id db ≡ true)
      ↔ TakesPart member z
unfolding has_participant
has_participant-TakesPart member db s z members =
    let joined = λ (p : ParticipantRow).
      text_eq p.schedule_id s.id && (text_eq member [] || text_eq p.family_member_id member) in
    (
      (λ h.
          let (p, among, e) = (any_row-holds joined db.schedule_participants).0 h in
          (
            p.family_member_id,
            subst (Among p.family_member_id) (sym members)
                ((members-Among p.family_member_id s.id db).1 (p, among, ground arith, refl)),
            elim (Bool-cases (text_eq member [])) [
              | inl t ↦ inl (text_eq→eq member [] t)
              | inr f ↦ inr (
                  text_eq→eq p.family_member_id member
                    (ground (arith, Bool-cases (text_eq p.schedule_id s.id))))
            ],
          )),
      (λ (m, among, wanted).
          let (p, stored, own, same) =
            (members-Among m s.id db).0 (subst (Among m) members among) in
          (any_row-holds joined db.schedule_participants).1 (
            p,
            stored,
            elim wanted [
              | inl empty ↦ ground (arith, text_eq_iff member [])
              | inr is ↦ ground (arith, text_eq_iff p.family_member_id member)
            ],
          )),
    )

-- A row that the query asks for.
abbrev is_wanted : Time → Time → Text → Database → ScheduleRow → Bool
is_wanted from to member db s =
    is_between (database_time from) (database_time to) s
    && has_participant (λ m. text_eq member [] || text_eq m member) s.id db

is_wanted_iff :
    (from to : Time) (member : Text) (db : Database) (s : ScheduleRow) (z : Item)
    → IsWhole s
    → from % second ≡ 0
    → to % second ≡ 0
    → from < year_10000
    → to < year_10000
    → item_of db s ≡ ok z
    → (is_wanted from to member db s ≡ true)
      ↔ ((s.deleted_at ≡ none) × (from < z.ends_at) × (z.starts_at < to) × TakesPart member z)
unfolding is_null
is_wanted_iff from to member db s z w f t near_from near_to read =
    let (id, starts, ends, members) = item_of-parts db s z w read in
    let between =
      is_between-whole_seconds from to w.starts w.ends s f t w.starts_whole w.ends_whole near_from
        near_to w.starts_readable w.ends_readable w.starts_stored w.ends_stored in
    let (joined, joins) = has_participant-TakesPart member db s z members in
    let met = Bool-cases (is_between (database_time from) (database_time to) s) in
    (
      (λ h. (
        (elim (Option-cases s.deleted_at) [
          | inl e ↦ e
          | inr (at, e) ↦ absurd (ground (arith, between))
        ]),
        ground (arith, between, ends, met, Bool-cases (is_null s.deleted_at)),
        ground (
          arith,
          between,
          starts,
          met,
          Bool-cases (is_null s.deleted_at),
          Bool-cases (ltb from w.ends),
        ),
        joined (ground (arith, met)),
      )),
      (λ (kept, after, before, part). ground (arith, between, starts, ends, joins part)),
    )

-- Where all times are at whole seconds before year 10000, a successful `SchedulesBetween` returns
-- exactly the items of the rows that are not deleted, end after the start of the range, start
-- before its end and have the member as a participant, or anybody where no member is given.
pub schedules_between-exact :
    (from to : Time) (member : Text) (db : Database) (items : List Item) (z : Item)
    → AllRows IsWhole db.schedules
    → from % second ≡ 0
    → to % second ≡ 0
    → from < year_10000
    → to < year_10000
    → schedules_between from to member db ≡ ok items
    → Among z items ↔ (
        (s : ScheduleRow) × Among s db.schedules
        × (item_of db s ≡ ok z)
        × (s.deleted_at ≡ none)
        × (from < z.ends_at)
        × (z.starts_at < to)
        × TakesPart member z)
unfolding schedules_between
schedules_between-exact from to member db items z whole f t near_from near_to h =
    let (read, build) = chosen-exact (is_wanted from to member db) db items z h in
    (
      (λ m.
          let (s, among, holds, e) = read m in
          let w = AllRows-Among IsWhole db.schedules s whole among in
          let (kept, after, before, part) =
            (is_wanted_iff from to member db s z w f t near_from near_to e).0 holds in
          (s, among, e, kept, after, before, part)),
      (λ (s, among, e, kept, after, before, part).
          let w = AllRows-Among IsWhole db.schedules s whole among in
          build (
            s,
            among,
            (is_wanted_iff from to member db s z w f t near_from near_to e).1
                (kept, after, before, part),
            e,
          )),
    )
