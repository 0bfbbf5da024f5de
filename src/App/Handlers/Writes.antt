-- ===== src/App/Handlers/Writes.antt =====
-- When the writing handlers of internal/app/schedule.go write.
use family_dashboard.Common.{
  ◌≡◌, ◌≤◌, ◌⊎◌, inl, inr, refl, Bool, true, false, Option, none, some, List, [], ◌∷◌, arith, Text,
  Option-cases, Bool-cases, ltb,
}
use family_dashboard.Time.{Time}
use family_dashboard.Schedule.{Item, View, validate}
use family_dashboard.Database.State.{
  Database, Result, ok, err, Outcome, schedule_not_found, schedule_conflict, invalid_participant,
}
use family_dashboard.Database.Setup.{Device}
use family_dashboard.Database.Schedules
use family_dashboard.Database.Items
use family_dashboard.App.{Platform, Config, Request, Answer, granted, denied}
use family_dashboard.App.Access.{require_content_admin}
use family_dashboard.App.Handlers.{
  ScheduleRequest, written, for_device, with_confirmation, validated, item_with_times,
  decode_schedule_request, view_of, write_answer, unless_overlap, create_decoded, create_schedule,
  update_decoded, update_schedule,
}

write_answer-written :
    (o : Outcome Item) (view : View) (db' : Database)
    → write_answer o ≡ (granted (written view), db')
    → (result : Item) × (o ≡ (ok result, db')) × (view ≡ view_of result)
unfolding write_answer
write_answer-written (ok item, db) view db' h = (item, ground arith, ground arith)
write_answer-written (err schedule_not_found, db) view db' h = absurd (ground arith)
write_answer-written (err schedule_conflict, db) view db' h = absurd (ground arith)
write_answer-written (err invalid_participant, db) view db' h = absurd (ground arith)
write_answer-written (err e, db) view db' h = absurd (ground arith)

unless_overlap-written :
    (confirmed : Bool) (found : Result (List Item)) (db : Database) (o : Outcome Item) (view : View)
    (db' : Database)
    → unless_overlap confirmed found db o ≡ (granted (written view), db')
    → ((confirmed ≡ true) ⊎ (found ≡ ok []))
      × ((result : Item) × (o ≡ (ok result, db')) × (view ≡ view_of result))
unfolding unless_overlap
unless_overlap-written confirmed (err e) db o view db' h = absurd (ground arith)
unless_overlap-written true (ok items) db o view db' h =
    (inl refl, write_answer-written o view db' (ground arith))
unless_overlap-written false (ok []) db o view db' h =
    (inr refl, write_answer-written o view db' (ground arith))
unless_overlap-written false (ok (item ∷ items)) db o view db' h = absurd (ground arith)

validated-granted : (item decoded : Item) → validated decoded ≡ granted item → validate item ≡ none
unfolding validated
validated-granted item decoded h = elim (Option-cases (validate decoded)) [
  | inl e ↦ ground arith
  | inr (x, e) ↦ absurd (ground arith)
]

item_with_times-validated :
    (q : ScheduleRequest) (starts ends : Option Time) (item : Item)
    → item_with_times q starts ends ≡ granted item
    → validate item ≡ none
unfolding item_with_times
item_with_times-validated q (some starts) (some ends) item h = validated-granted item _ h
item_with_times-validated q none ends item h = absurd (ground arith)
item_with_times-validated q (some starts) none item h = absurd (ground arith)

with_confirmation-granted :
    (c confirmed : Bool) (a : Answer Item) (item : Item)
    → with_confirmation c a ≡ granted (item, confirmed)
    → a ≡ granted item
unfolding with_confirmation
with_confirmation-granted c confirmed (granted i) item h = ground arith
with_confirmation-granted c confirmed (denied why) item h = absurd (ground arith)

decode_schedule_request-validated :
    (lib : Platform) (body : Option ScheduleRequest) (item : Item) (confirmed : Bool)
    → decode_schedule_request lib body ≡ granted (item, confirmed)
    → validate item ≡ none
unfolding decode_schedule_request
decode_schedule_request-validated lib none item confirmed h = absurd (ground arith)
decode_schedule_request-validated lib (some q) item confirmed h =
    item_with_times-validated q (lib.parse_rfc3339 q.starts_at) (lib.parse_rfc3339 q.ends_at) item
      (with_confirmation-granted q.confirm_overlap confirmed _ item h)

pub for_device-granted {ℓ} :
    {A : Type ℓ} (first : Answer Device × Database) (next : Device → Database → Answer A × Database)
    (a : A) (db' : Database)
    → for_device first next ≡ (granted a, db')
    → (found : Device) × (first ≡ (granted found, first.1))
      × (next found first.1 ≡ (granted a, db'))
unfolding for_device
for_device-granted (granted found, db) next a db' h = (found, refl, h)
for_device-granted (denied why, db) next a db' h = absurd (ground arith)

-- The item that a request describes: it is valid and, unless the client confirmed the overlap,
-- no other schedule of its participants overlaps it.
pub record IsAccepted (lib : Platform) (body : Option ScheduleRequest) (id : Text) (db : Database)
    (item : Item) : Type 0 where
  pub confirmed : Bool
  pub decoded : Item
  pub read : decode_schedule_request lib body ≡ granted (decoded, confirmed)
  pub valid : validate decoded ≡ none
  pub named : item ≡ record decoded { id = id }
  pub clear : (confirmed ≡ true) ⊎ (Items.overlapping_schedules item db ≡ ok [])

create_decoded-written :
    (lib : Platform) (body : Option ScheduleRequest) (id : Text) (now : Time) (device : Device)
    (a : Answer (Item × Bool)) (db db' : Database) (view : View)
    → decode_schedule_request lib body ≡ a
    → create_decoded id now device a db ≡ (granted (written view), db')
    → (item result : Item) × IsAccepted lib body id db item
      × (Schedules.create_schedule item device.id now db ≡ (ok result, db'))
      × (view ≡ view_of result)
unfolding create_decoded
create_decoded-written lib body id now device (denied why) db db' view e h = absurd (ground arith)
create_decoded-written lib body id now device (granted (decoded, confirmed)) db db' view e h =
    let item : Item = record decoded { id = id } in
    let (clear, (result, ran, shown)) =
      unless_overlap-written confirmed (Items.overlapping_schedules item db) db
        (Schedules.create_schedule item device.id now db) view db' h in
    (
      item,
      result,
      record {
        confirmed = confirmed;
        decoded = decoded;
        read = e;
        valid = decode_schedule_request-validated lib body decoded confirmed e;
        named = refl;
        clear = clear;
      },
      ran,
      shown,
    )

-- `createSchedule` answers with a schedule only when the device passed the guard for content, the
-- body described a valid item, no overlap was left unconfirmed, and the database created the item
-- under the new id; the view is that of the schedule as it was read back.
pub create_schedule-written :
    (lib : Platform) (config : Config) (r : Request) (body : Option ScheduleRequest) (id : Text)
    (now later last : Time) (db db' : Database) (view : View)
    → create_schedule lib config r body id now later last db ≡ (granted (written view), db')
    → (device : Device) × (left : Database) × (item result : Item) × (require_content_admin lib
          config r now later db
        ≡ (granted device, left))
      × IsAccepted lib body id left item
      × (Schedules.create_schedule item device.id last left ≡ (ok result, db'))
      × (view ≡ view_of result)
unfolding create_schedule
create_schedule-written lib config r body id now later last db db' view h =
    let (device, first, next) =
      for_device-granted (require_content_admin lib config r now later db) _ (written view) db' h in
    let left : Database = (require_content_admin lib config r now later db).1 in
    let (item, result, accepted, ran, shown) =
      create_decoded-written lib body id last device (decode_schedule_request lib body) left db'
        view refl next in
    (device, left, item, result, first, accepted, ran, shown)

update_decoded-written :
    (lib : Platform) (body : Option ScheduleRequest) (id : Text) (now : Time) (device : Device)
    (a : Answer (Item × Bool)) (db db' : Database) (view : View)
    → decode_schedule_request lib body ≡ a
    → update_decoded id now device a db ≡ (granted (written view), db')
    → (item result : Item) × IsAccepted lib body id db item
      × (1 ≤ item.version)
      × (Schedules.update_schedule item device.id now db ≡ (ok result, db'))
      × (view ≡ view_of result)
unfolding update_decoded
update_decoded-written lib body id now device (denied why) db db' view e h = absurd (ground arith)
update_decoded-written lib body id now device (granted (decoded, confirmed)) db db' view e h =
    elim (Bool-cases (ltb decoded.version 1)) [
      | inl low ↦ absurd (ground arith)
      | inr high ↦
          let item : Item = record decoded { id = id } in
          let (clear, (result, ran, shown)) =
            unless_overlap-written confirmed (Items.overlapping_schedules item db) db
              (Schedules.update_schedule item device.id now db) view db' (ground arith) in
          (
            item,
            result,
            record {
              confirmed = confirmed;
              decoded = decoded;
              read = e;
              valid = decode_schedule_request-validated lib body decoded confirmed e;
              named = refl;
              clear = clear;
            },
            ground arith,
            ran,
            shown,
          )
    ]

-- `updateSchedule` answers with a schedule only when the device passed the guard for content, the
-- body described a valid item with a version, no overlap was left unconfirmed, and the database
-- updated the schedule of the path; the view is that of the schedule as it was read back.
pub update_schedule-written :
    (lib : Platform) (config : Config) (r : Request) (body : Option ScheduleRequest) (id : Text)
    (now later last : Time) (db db' : Database) (view : View)
    → update_schedule lib config r body id now later last db ≡ (granted (written view), db')
    → (device : Device) × (left : Database) × (item result : Item) × (require_content_admin lib
          config r now later db
        ≡ (granted device, left))
      × IsAccepted lib body id left item
      × (1 ≤ item.version)
      × (Schedules.update_schedule item device.id last left ≡ (ok result, db'))
      × (view ≡ view_of result)
unfolding update_schedule
update_schedule-written lib config r body id now later last db db' view h =
    let (device, first, next) =
      for_device-granted (require_content_admin lib config r now later db) _ (written view) db' h in
    let left : Database = (require_content_admin lib config r now later db).1 in
    let (item, result, accepted, high, ran, shown) =
      update_decoded-written lib body id last device (decode_schedule_request lib body) left db'
        view refl next in
    (device, left, item, result, first, accepted, high, ran, shown)
