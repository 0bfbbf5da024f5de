-- ===== src/Database/Enrollment/Lifecycle.antt =====
-- The states of an enrollment (internal/database/enrollment.go) and the operations that move it.
use family_dashboard.Common.{
  ◌≡◌, sym, subst, inl, inr, refl, Bool, true, Option, some, List, [], ◌∷◌, ◌++◌, arith, AllRows,
  Text, if◌then◌else◌, update_rows, find_row, Option-cases, Bool-cases,
}
use family_dashboard.Time.{Time, TimeText, database_time}
use family_dashboard.Database.State.{
  Database, EnrollmentRow, EnrollmentStatus, pending, submitted, approved, rejected, expired,
  DeviceType, Owner, Hash, Result, ok, err, ◌>>=◌, commit, device_enrollment, failure,
  administrator_rejected, constraint,
}
use family_dashboard.Database.Statements.{
  insert_enrollment, insert_device, insert_event, insert_credential,
}
use family_dashboard.Database.Setup.{InitialSetup, insert_credentials}
use family_dashboard.Database.Enrollment.{
  approve_enrollment, reject_enrollment, complete_enrollment, decidable, decide, decision_statement,
  completable, consume_claim, completion_statements,
}
use family_dashboard.Database.Requests.{
  new_request, enrollable, create_enrollment, submit_enrollment, submittable, submit_row,
  same_status,
}

-- The moves of a request's status.
abbrev pub StatusStep : EnrollmentStatus → EnrollmentStatus → Type 0
StatusStep pending pending = Unit
StatusStep pending submitted = Unit
StatusStep submitted submitted = Unit
StatusStep submitted approved = Unit
StatusStep submitted rejected = Unit
StatusStep approved approved = Unit
StatusStep rejected rejected = Unit
StatusStep expired expired = Unit
StatusStep _ _ = ⊥

-- A request keeps its id, its type and its expiry; its status moves.
pub record RowStep (a b : EnrollmentRow) : Type 0 where
  pub id : b.id ≡ a.id
  pub requested_type : b.requested_type ≡ a.requested_type
  pub expires_at : b.expires_at ≡ a.expires_at
  pub status : StatusStep a.status b.status

-- The rows move one by one, and what is added is pending.
abbrev pub Evolves : List EnrollmentRow → List EnrollmentRow → Type 0
Evolves [] ys = AllRows (λ (y : EnrollmentRow). y.status ≡ pending) ys
Evolves (x ∷ xs) [] = ⊥
Evolves (x ∷ xs) (y ∷ ys) = RowStep x y × Evolves xs ys

StatusStep-refl : (s : EnrollmentStatus) → StatusStep s s
StatusStep-refl pending = tt
StatusStep-refl submitted = tt
StatusStep-refl approved = tt
StatusStep-refl rejected = tt
StatusStep-refl expired = tt

RowStep-refl : (r : EnrollmentRow) → RowStep r r
RowStep-refl r = record {
  id = refl;
  requested_type = refl;
  expires_at = refl;
  status = StatusStep-refl r.status;
}

Evolves-refl : (xs : List EnrollmentRow) → Evolves xs xs
Evolves-refl [] = tt
Evolves-refl (x ∷ xs) = (RowStep-refl x, Evolves-refl xs)

Evolves-append :
    (xs : List EnrollmentRow) (r : EnrollmentRow) → r.status ≡ pending → Evolves xs (xs ++ r ∷ [])
Evolves-append [] r h = (h, tt)
Evolves-append (x ∷ xs) r h = (RowStep-refl x, Evolves-append xs r h)

Evolves-update_rows :
    (p : EnrollmentRow → Bool) (f : EnrollmentRow → EnrollmentRow) (xs : List EnrollmentRow)
    → ((x : EnrollmentRow) → p x ≡ true → RowStep x (f x))
    → Evolves xs (update_rows p f xs)
unfolding update_rows
Evolves-update_rows p f [] h = tt
Evolves-update_rows p f (x ∷ xs) h = elim (Bool-cases (p x)) [
  | inl e ↦ rw e (h x e, Evolves-update_rows p f xs h)
  | inr e ↦ rw e (RowStep-refl x, Evolves-update_rows p f xs h)
]

abbrev pub EvolvesTo : Database → Database → Type 0
EvolvesTo db db' = Evolves db.enrollment_requests db'.enrollment_requests

Evolves-of :
    (db db' : Database) (rows : List EnrollmentRow)
    → Evolves db.enrollment_requests rows
    → db'.enrollment_requests ≡ rows
    → EvolvesTo db db'
Evolves-of db db' rows e h = subst (Evolves db.enrollment_requests) (sym h) e

-- A transaction that evolves the requests when it commits.
commit-EvolvesTo :
    (db : Database) (r : Result Database)
    → ((db' : Database) → r ≡ ok db' → EvolvesTo db db')
    → EvolvesTo db (commit db r).1
unfolding commit
commit-EvolvesTo db (ok db') h = h db' refl
commit-EvolvesTo db (err e) h = Evolves-refl db.enrollment_requests

pub same_status→eq : (s t : EnrollmentStatus) → same_status s t ≡ true → s ≡ t
unfolding same_status
same_status→eq pending t h = ground arith
same_status→eq submitted t h = ground arith
same_status→eq approved t h = ground arith
same_status→eq rejected t h = ground arith
same_status→eq expired t h = ground arith

submit-RowStep :
    (code_hash claim_hash : Hash) (name : Text) (owner : Option Owner)
    (required : Option DeviceType) (now : TimeText) (r : EnrollmentRow)
    → submittable code_hash owner required now r ≡ true
    → RowStep r (submit_row claim_hash name owner now r)
unfolding submittable submit_row
submit-RowStep code_hash claim_hash name owner required now r h =
    let was : r.status ≡ pending = same_status→eq r.status pending (ground arith) in
    record { id = refl; requested_type = refl; expires_at = refl; status = rw was tt }

decide-EvolvesTo :
    (status : EnrollmentStatus) (id by : Text) (now : TimeText) (db : Database)
    → StatusStep submitted status
    → EvolvesTo db (decide status id by now db)
unfolding decide
decide-EvolvesTo status id by now db move =
    Evolves-update_rows (decidable id now) _ db.enrollment_requests step
  where
    step :
        (x : EnrollmentRow)
        → decidable id now x ≡ true
        → RowStep x
            (record x { status = status; approved_by_device_id = some by; decided_at = some now })
    step x h =
        let was : x.status ≡ submitted =
          same_status→eq x.status submitted (unfold decidable in ground arith) in
        record { id = refl; requested_type = refl; expires_at = refl; status = rw was move }

consume-EvolvesTo :
    (claim tombstone : Hash) (now : TimeText) (db : Database)
    → EvolvesTo db (consume_claim claim tombstone now db)
unfolding consume_claim
consume-EvolvesTo claim tombstone now db =
    Evolves-update_rows (completable claim now) _ db.enrollment_requests λ x h. record {
      id = refl;
      requested_type = refl;
      expires_at = refl;
      status = StatusStep-refl x.status;
    }

pub decision_statement-rows :
    (status : EnrollmentStatus) (id by : Text) (now : TimeText) (db db' : Database)
    → decision_statement status id by now db ≡ ok db'
    → db'.enrollment_requests ≡ (decide status id by now db).enrollment_requests
unfolding decision_statement
decision_statement-rows status id by now db db' h = ground arith

pub rejection-rows :
    (status : EnrollmentStatus) (id by : Text) (now : TimeText) (db db' : Database)
    → (decision_statement status id by now db
        >>= insert_event device_enrollment by failure administrator_rejected now)
      ≡ ok db'
    → db'.enrollment_requests ≡ (decide status id by now db).enrollment_requests
unfolding decision_statement insert_event
rejection-rows status id by now db db' h = ground arith

pub completion-rows :
    (r : EnrollmentRow) (claim tombstone : Hash) (setup : InitialSetup) (owner : Option Owner)
    (now : TimeText) (db db' : Database)
    → completion_statements r claim tombstone setup owner now db ≡ ok db'
    → db'.enrollment_requests ≡ (consume_claim claim tombstone now db).enrollment_requests
unfolding completion_statements insert_device insert_credentials insert_credential insert_event
completion-rows r claim tombstone setup owner now db db' h = ground arith

-- The operations on enrollments, with their arguments.
pub data Call : Type 0 where
  creates : Text → Hash → DeviceType → Time → Time → Call
  submits : Hash → Hash → Text → Option Owner → Option DeviceType → Time → Call
  approves rejects : Text → Text → Time → Call
  completes : Hash → Hash → InitialSetup → Option Owner → Call

-- The database that a call leaves, whether it succeeds or not.
unfoldable pub step : Call → Database → Database
step (creates id hash kind expires now) db = (create_enrollment id hash kind expires now db).1
step (submits code claim name owner required now) db =
    (submit_enrollment code claim name owner required now db).1
step (approves id by now) db = (approve_enrollment id by now db).1
step (rejects id by now) db = (reject_enrollment id by now db).1
step (completes claim tombstone setup owner) db =
    (complete_enrollment claim tombstone setup owner db).1

pub creation-rows :
    (kind : DeviceType) (r : EnrollmentRow) (db db' : Database)
    → (if enrollable kind then insert_enrollment r db else err constraint) ≡ ok db'
    → db'.enrollment_requests ≡ db.enrollment_requests ++ r ∷ []
unfolding insert_enrollment
creation-rows kind r db db' h = ground arith

create-EvolvesTo :
    (id : Text) (hash : Hash) (kind : DeviceType) (expires now : Time) (db : Database)
    → EvolvesTo db (create_enrollment id hash kind expires now db).1
unfolding create_enrollment insert_enrollment
create-EvolvesTo id hash kind expires now db = commit-EvolvesTo db _ λ db' h.
    Evolves-of db db' _
      (Evolves-append db.enrollment_requests (new_request id hash kind expires now) refl)
      (creation-rows kind (new_request id hash kind expires now) db db' h)

submit-EvolvesTo :
    (code claim : Hash) (name : Text) (owner : Option Owner) (required : Option DeviceType)
    (now : Time) (db : Database)
    → EvolvesTo db (submit_enrollment code claim name owner required now db).1
unfolding submit_enrollment
submit-EvolvesTo code claim name owner required now db = ground (
  arith,
  Evolves-refl db.enrollment_requests,
  Evolves-update_rows (submittable code owner required (database_time now))
      (submit_row claim name owner (database_time now)) db.enrollment_requests
      (submit-RowStep code claim name owner required (database_time now)),
)

complete-EvolvesTo :
    (claim tombstone : Hash) (setup : InitialSetup) (owner : Option Owner) (db : Database)
    → EvolvesTo db (complete_enrollment claim tombstone setup owner db).1
unfolding complete_enrollment
complete-EvolvesTo claim tombstone setup owner db =
    let now = database_time setup.now in
    elim (Option-cases (find_row (completable claim now) db.enrollment_requests)) [
      | inl e ↦ rw (e, complete_enrollment) (Evolves-refl db.enrollment_requests)
      | inr (r, e) ↦
          rw (e, complete_enrollment)
            (commit-EvolvesTo db _ λ db' h.
              Evolves-of db db' _ (consume-EvolvesTo claim tombstone now db)
                (completion-rows r claim tombstone setup owner now db db' h))
    ]

-- Whatever operation runs, with whatever arguments and result, each request keeps its id, its type
-- and its expiry, its status stays or moves from pending to submitted or from submitted to
-- approved or rejected, and a new request is pending.
pub step-EvolvesTo : (call : Call) (db : Database) → EvolvesTo db (step call db)
unfolding step approve_enrollment reject_enrollment
step-EvolvesTo (creates id hash kind expires now) db = create-EvolvesTo id hash kind expires now db
step-EvolvesTo (submits code claim name owner required now) db =
    submit-EvolvesTo code claim name owner required now db
step-EvolvesTo (approves id by now) db = commit-EvolvesTo db _ λ db' h.
    Evolves-of db db' _ (decide-EvolvesTo approved id by (database_time now) db tt)
      (decision_statement-rows approved id by (database_time now) db db' h)
step-EvolvesTo (rejects id by now) db = commit-EvolvesTo db _ λ db' h.
    Evolves-of db db' _ (decide-EvolvesTo rejected id by (database_time now) db tt)
      (rejection-rows rejected id by (database_time now) db db' h)
step-EvolvesTo (completes claim tombstone setup owner) db =
    complete-EvolvesTo claim tombstone setup owner db
