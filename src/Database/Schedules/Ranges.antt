-- ===== src/Database/Schedules/Ranges.antt =====
-- What the range queries of internal/database/schedule.go return.
use family_dashboard.Common.{
  ◌≡◌, ◌↔◌, ◌∙◌, ap, inl, inr, refl, sym, Bool, true, List, [], ◌∷◌, arith, Among, select_rows,
  sort_rows, Among-sort_rows, Among-select_rows, select_rows-Among,
}
use family_dashboard.Schedule.{Item}
use family_dashboard.Database.State.{Database, ScheduleRow, ok, Result-cases}
use family_dashboard.Database.Items.{item_of, items_of, schedule_before}

items_of-Among :
    (db : Database) (rows : List ScheduleRow) (items : List Item) (z : Item)
    → items_of db rows ≡ ok items
    → Among z items ↔ ((s : ScheduleRow) × Among s rows × (item_of db s ≡ ok z))
unfolding items_of
items_of-Among db [] items z h = (λ m. absurd (ground arith), λ (s, m, e). absurd m)
items_of-Among db (r ∷ rows) items z h = elim (Result-cases (item_of db r)) [
  | inr (x, e) ↦ absurd (ground arith)
  | inl (i, e) ↦ elim (Result-cases (items_of db rows)) [
    | inr (x, f) ↦ absurd (ground arith)
    | inl (rest, f) ↦
        let (to, from) = items_of-Among db rows rest z f in
        let shape : items ≡ i ∷ rest = ground arith in
        rw shape (
          (λ m. elim m [
            | inl s ↦ (r, inl refl, e ∙ ap ok (sym s))
            | inr k ↦ let (s, among, g) = to k in (s, inr among, g)
          ]),
          (λ (s, among, g). elim among [
            | inl same ↦ inl (ground arith)
            | inr k ↦ inr (from (s, k, g))
          ]),
        )
  ]
]

-- The items of the rows that a query chooses and sorts.
pub chosen-exact :
    (wanted : ScheduleRow → Bool) (db : Database) (items : List Item) (z : Item)
    → items_of db (sort_rows schedule_before (select_rows wanted db.schedules)) ≡ ok items
    → Among z items
      ↔ ((s : ScheduleRow) × Among s db.schedules × (wanted s ≡ true) × (item_of db s ≡ ok z))
chosen-exact wanted db items z h =
    let chosen = select_rows wanted db.schedules in
    let (read, build) = items_of-Among db (sort_rows schedule_before chosen) items z h in
    (
      (λ m.
          let (s, among, e) = read m in
          let (stored, holds) =
            Among-select_rows wanted s db.schedules
              ((Among-sort_rows schedule_before s chosen).0 among) in
          (s, stored, holds, e)),
      (λ (s, stored, holds, e). build (
        s,
        (Among-sort_rows schedule_before s chosen).1
            (select_rows-Among wanted s db.schedules holds stored),
        e,
      )),
    )
