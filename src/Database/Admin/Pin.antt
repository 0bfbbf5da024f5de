-- ===== src/Database/Admin/Pin.antt =====
-- RecordPINFailure and PINChallenge of internal/database/admin.go.
use family_dashboard.Common.{
  ℕ, suc, ◌+◌, ◌*◌, ◌<◌, ◌≡◌, ◌∙◌, ap, inl, inr, refl, Bool, true, not, ◌&&◌, Option, none, some,
  [], ◌∷◌, arith, ◌==◌, find_row, find_row-append, find_row-update_rows, text_eq, text_eq_refl,
  Text, if◌then◌else◌, Bool-cases, ltb, leb,
}
use family_dashboard.Time.{Time, TimeText, database_time, minute, year_10000}
use family_dashboard.Time.RoundTrip.{parse-database_time_early}
use family_dashboard.Database.State.{Database, PinRow, Result, ok, err, is_null, pin_blocked}
use family_dashboard.Database.Statements.{insert_event}
use family_dashboard.Database.Admin.{
  pin_row, pin_challenge, record_pin_failure, failed_row, upsert_pin, failure_event, commit_result,
  blocked_until,
}

abbrev first_failure : Text → Time → PinRow
first_failure device_id now = record {
  device_id = device_id;
  failed_count = 1;
  blocked_until = none;
  updated_at = database_time now;
}

-- The row after a failure.
abbrev after_failure : Text → Time → Option PinRow → PinRow
after_failure device_id now none = first_failure device_id now
after_failure device_id now (some p) = failed_row now p

pub pin_row-upsert_new :
    (fresh : PinRow) (again : PinRow → PinRow) (db db' : Database)
    → pin_row fresh.device_id db ≡ none
    → upsert_pin fresh again db ≡ ok db'
    → (pin_row fresh.device_id db' ≡ some fresh) × (db'.security_state ≡ db.security_state)
unfolding pin_row upsert_pin find_row
pin_row-upsert_new fresh again db db' e h = (
  ground (
    arith,
    text_eq_refl fresh.device_id,
    find_row-append (λ (p : PinRow). text_eq p.device_id fresh.device_id) db.pin_attempts
        (fresh ∷ []) e,
  ),
  ground arith,
)

pub pin_row-upsert_old :
    (fresh p : PinRow) (again : PinRow → PinRow) (db db' : Database)
    → ((q : PinRow) → (again q).device_id ≡ q.device_id)
    → pin_row fresh.device_id db ≡ some p
    → upsert_pin fresh again db ≡ ok db'
    → (pin_row fresh.device_id db' ≡ some (again p)) × (db'.security_state ≡ db.security_state)
unfolding pin_row upsert_pin
pin_row-upsert_old fresh p again db db' same e h = (
  ground (
    arith,
    find_row-update_rows (λ (q : PinRow). text_eq q.device_id fresh.device_id) again db.pin_attempts
        p (λ q. ap (λ d. text_eq d fresh.device_id) (same q)) e,
  ),
  ground arith,
)

failure_event-pins :
    (device_id : Text) (now : TimeText) (db db' : Database) (b : Bool)
    → failure_event device_id now db ≡ ok (b, db')
    → (db'.pin_attempts ≡ db.pin_attempts)
      × (db'.security_state ≡ db.security_state)
      × (b ≡ not (is_null (blocked_until device_id db)))
unfolding failure_event insert_event
failure_event-pins device_id now db db' b h = ground arith

record_pin_failure-parts :
    (device_id : Text) (now : Time) (db db' : Database) (b : Bool)
    → record_pin_failure device_id now db ≡ (ok b, db')
    → (db1 : Database) × (upsert_pin (first_failure device_id now) (failed_row now) db ≡ ok db1)
      × (failure_event device_id (database_time now) db1 ≡ ok (b, db'))
unfolding record_pin_failure commit_result
record_pin_failure-parts device_id now db db' b h =
    go (upsert_pin (first_failure device_id now) (failed_row now) db) refl
  where
    go :
        (r : Result Database)
        → upsert_pin (first_failure device_id now) (failed_row now) db ≡ r
        → (db1 : Database) × (upsert_pin (first_failure device_id now) (failed_row now) db ≡ ok db1)
          × (failure_event device_id (database_time now) db1 ≡ ok (b, db'))
    go (ok db1) e = (db1, e, ground arith)
    go (err x) e = absurd (ground arith)

upsert-after_failure :
    (device_id : Text) (now : Time) (db db1 : Database) (o : Option PinRow)
    → pin_row device_id db ≡ o
    → upsert_pin (first_failure device_id now) (failed_row now) db ≡ ok db1
    → (pin_row device_id db1 ≡ some (after_failure device_id now o))
      × (db1.security_state ≡ db.security_state)
upsert-after_failure device_id now db db1 none e h =
    pin_row-upsert_new (first_failure device_id now) (failed_row now) db db1 e h
upsert-after_failure device_id now db db1 (some p) e h =
    pin_row-upsert_old (first_failure device_id now) p (failed_row now) db db1
      (λ q. unfold failed_row in refl) e h

-- What a recorded failure leaves.
record_pin_failure-row :
    (device_id : Text) (now : Time) (db db' : Database) (b : Bool)
    → record_pin_failure device_id now db ≡ (ok b, db')
    → let row = after_failure device_id now (pin_row device_id db) in
      (pin_row device_id db' ≡ some row)
      × (b ≡ not (is_null row.blocked_until))
      × (db'.security_state ≡ db.security_state)
unfolding pin_row blocked_until
record_pin_failure-row device_id now db db' b h =
    let (db1, upserted, event) = record_pin_failure-parts device_id now db db' b h in
    let (row, state) =
      upsert-after_failure device_id now db db1 (pin_row device_id db) refl upserted in
    let (pins, state', blocked) =
      failure_event-pins device_id (database_time now) db1 db' b event in
    (ground (arith, pins, row), ground (arith, blocked, row), state' ∙ state)

-- `n` failures count and there is no block; without a row none counts.
abbrev pub CountIs : ℕ → Option PinRow → Type 0
CountIs n none = n ≡ 0
CountIs n (some p) = (p.failed_count ≡ n) × (p.blocked_until ≡ none)

after_failure-count :
    (device_id : Text) (now : Time) (n : ℕ) (o : Option PinRow)
    → CountIs n o
    → ((after_failure device_id now o).failed_count ≡ suc n)
      × ((after_failure device_id now o).blocked_until
          ≡ (if leb 5 (suc n) then some (database_time (now + 5 * minute)) else none))
unfolding failed_row
after_failure-count device_id now n none c = ground arith
after_failure-count device_id now n (some p) c = ground arith

-- `n` failures in a row, each recorded.
pub data Failures (device_id : Text) (start : Database) : ℕ → Database → Type 0 where
  no_failure : Failures device_id start 0 start
  one_more :
      {n : ℕ} {db db' : Database} (now : Time) (b : Bool)
      → Failures device_id start n db
      → record_pin_failure device_id now db ≡ (ok b, db')
      → Failures device_id start (suc n) db'

Failures-count :
    (device_id : Text) (start : Database) {n : ℕ} {db : Database}
    → CountIs 0 (pin_row device_id start)
    → Failures device_id start n db
    → n < 5
    → CountIs n (pin_row device_id db) × (db.security_state ≡ start.security_state)
Failures-count device_id start c no_failure small = (c, refl)
Failures-count device_id start c (one_more {n = m} {db = db1} {db' = db2} now b before h) small =
    let (count, state) = Failures-count device_id start c before (omega arith) in
    let (row, _, kept) = record_pin_failure-row device_id now db1 db2 b h in
    let (counted, blocked) = after_failure-count device_id now m (pin_row device_id db1) count in
    (ground (arith, row, counted, blocked), kept ∙ state)

-- `PINChallenge` with a row that is blocked until a given instant, or with one that is not.
challenge-blocked :
    (device_id hash : Text) (now until : Time) (db : Database) (p : PinRow)
    → db.security_state.setup_complete ≡ true
    → db.security_state.pin_hash ≡ some hash
    → pin_row device_id db ≡ some p
    → p.blocked_until ≡ some (database_time until)
    → until < year_10000
    → pin_challenge device_id now db ≡ (if ltb now until then err pin_blocked else ok hash)
unfolding pin_challenge
challenge-blocked device_id hash now until db p s h e b near =
    ground (arith, parse-database_time_early until near)

challenge-open :
    (device_id hash : Text) (now : Time) (db : Database) (p : PinRow)
    → db.security_state.setup_complete ≡ true
    → db.security_state.pin_hash ≡ some hash
    → pin_row device_id db ≡ some p
    → p.blocked_until ≡ none
    → pin_challenge device_id now db ≡ ok hash
unfolding pin_challenge
challenge-open device_id hash now db p s h e b = ground arith

-- A device without failures may fail four times and is still challenged; the fifth failure in a row
-- blocks it, and then every challenge is refused for five minutes from that failure, and none
-- after them, where those end before year 10000.
pub fifth_failure_blocks :
    (device_id hash : Text) (start db db' : Database) (n : ℕ) (now : Time) (b : Bool)
    → start.security_state.setup_complete ≡ true
    → start.security_state.pin_hash ≡ some hash
    → CountIs 0 (pin_row device_id start)
    → Failures device_id start n db
    → n < 5
    → record_pin_failure device_id now db ≡ (ok b, db')
    → now + 5 * minute < year_10000
    → (b ≡ (n == 4))
      × ((later : Time)
          → pin_challenge device_id later db'
            ≡ (if n == 4 && ltb later (now + 5 * minute) then err pin_blocked else ok hash))
fifth_failure_blocks device_id hash start db db' n now b s h c failures small r near =
    let (count, state) = Failures-count device_id start c failures small in
    let (row, blocked, kept) = record_pin_failure-row device_id now db db' b r in
    let (_, until) = after_failure-count device_id now n (pin_row device_id db) count in
    let p = after_failure device_id now (pin_row device_id db) in
    (
      unfold is_null in ground (arith, until, blocked),
      λ later. elim (Bool-cases (n == 4)) [
        | inl e ↦ ground (
          arith,
          challenge-blocked device_id hash later (now + 5 * minute) db' p
              (ground (arith, state, kept)) (ground (arith, state, kept)) row
              (ground (arith, until)) near,
        )
        | inr e ↦ ground (
          arith,
          challenge-open device_id hash later db' p (ground (arith, state, kept))
              (ground (arith, state, kept)) row (ground (arith, until)),
        )
      ],
    )
