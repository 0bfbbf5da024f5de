-- ===== src/Database/Enrollment/Unique.antt =====
-- PRIMARY KEY and UNIQUE of enrollment_requests under the operations of
-- internal/database/enrollment.go.
use family_dashboard.Common.{
  ◌≤◌, ◌≡◌, sym, subst, inl, inr, refl, Bool, false, not, ◌&&◌, ◌||◌, Option, List, [], ◌∷◌, ◌++◌,
  ◌==◌, arith, Text, text_eq, text_eq_iff, text_eq_refl, any_row, count_rows, update_rows, find_row,
  Option-cases, Bool-cases, count_rows_mono, count_rows-update_le, count_rows-update_chosen,
  count_rows-append_fresh,
}
use family_dashboard.Time.{Time, database_time}
use family_dashboard.Database.State.{
  Database, EnrollmentRow, DeviceType, Owner, Hash, ok, err, Result, commit, approved, rejected,
}
use family_dashboard.Database.Statements.{insert_enrollment}
use family_dashboard.Database.Setup.{InitialSetup}
use family_dashboard.Database.Enrollment.{
  approve_enrollment, reject_enrollment, complete_enrollment, completable, consume_claim, decide,
  completion_statements,
}
use family_dashboard.Database.Requests.{
  new_request, create_enrollment, submit_enrollment, submittable, submit_row, hash_free,
}
use family_dashboard.Database.Enrollment.Lifecycle.{
  Call, creates, submits, approves, rejects, completes, step, completion-rows, creation-rows,
  decision_statement-rows, rejection-rows,
}

abbrev pub has_id : Text → EnrollmentRow → Bool
has_id id r = text_eq r.id id

abbrev pub has_code : Hash → EnrollmentRow → Bool
has_code hash r = r.code_hash == hash

-- No two requests share their id, or the hash of their code or claim.
pub record RequestKeys (rs : List EnrollmentRow) : Type 0 where
  pub one_id : (id : Text) → count_rows (has_id id) rs ≤ 1
  pub one_code : (hash : Hash) → count_rows (has_code hash) rs ≤ 1

insertion-RequestKeys :
    (r : EnrollmentRow) (rs : List EnrollmentRow)
    → any_row (λ (e : EnrollmentRow). text_eq e.id r.id || e.code_hash == r.code_hash) rs ≡ false
    → RequestKeys rs
    → RequestKeys (rs ++ r ∷ [])
insertion-RequestKeys r rs free keys = record {
  one_id = λ id.
      count_rows-append_fresh (has_id id)
        (λ (e : EnrollmentRow). text_eq e.id r.id || e.code_hash == r.code_hash) rs r
        (λ h x k. ground (arith, text_eq_iff r.id id, text_eq_iff x.id id, text_eq_refl x.id)) free
        (keys.one_id id);
  one_code = λ hash.
      count_rows-append_fresh (has_code hash)
        (λ (e : EnrollmentRow). text_eq e.id r.id || e.code_hash == r.code_hash) rs r
        (λ h x k. ground arith) free (keys.one_code hash);
}

-- An update of at most one row that changes the code to a free one.
recode-RequestKeys :
    (chosen : EnrollmentRow → Bool) (f : EnrollmentRow → EnrollmentRow) (hash : Hash)
    (rs : List EnrollmentRow)
    → ((r : EnrollmentRow) → (f r).id ≡ r.id)
    → ((r : EnrollmentRow) → (f r).code_hash ≡ hash)
    → count_rows chosen rs ≤ 1
    → any_row (λ (r : EnrollmentRow). r.code_hash == hash && not (chosen r)) rs ≡ false
    → RequestKeys rs
    → RequestKeys (update_rows chosen f rs)
recode-RequestKeys chosen f hash rs same_id new_code few free keys = record {
  one_id = λ id. ground (
    arith,
    keys.one_id id,
    count_rows-update_le (has_id id) chosen f rs (λ x _ h. ground (arith, same_id x)),
  );
  one_code = λ h. elim (Bool-cases (hash == h)) [
    | inl e ↦ ground (arith, count_rows-update_chosen (has_code h) chosen f rs (ground arith))
    | inr e ↦ ground (
      arith,
      keys.one_code h,
      count_rows-update_le (has_code h) chosen f rs (λ x _ k. absurd (ground (arith, new_code x))),
    )
  ];
}

-- An update that changes neither column.
decision-RequestKeys :
    (chosen : EnrollmentRow → Bool) (f : EnrollmentRow → EnrollmentRow) (rs : List EnrollmentRow)
    → ((r : EnrollmentRow) → ((f r).id ≡ r.id) × ((f r).code_hash ≡ r.code_hash))
    → RequestKeys rs
    → RequestKeys (update_rows chosen f rs)
decision-RequestKeys chosen f rs same keys = record {
  one_id = λ id. ground (
    arith,
    keys.one_id id,
    count_rows-update_le (has_id id) chosen f rs (λ x _ h. ground (arith, (same x).0)),
  );
  one_code = λ hash. ground (
    arith,
    keys.one_code hash,
    count_rows-update_le (has_code hash) chosen f rs (λ x _ h. ground (arith, (same x).1)),
  );
}

-- What holds of the requests of every database that a transaction commits.
pub commit-kept {ℓ} :
    (P : Database → Type ℓ) (db : Database) (result : Result Database)
    → P db
    → ((db' : Database) → result ≡ ok db' → P db')
    → P (commit db result).1
unfolding commit
commit-kept P db (ok db') kept h = h db' refl
commit-kept P db (err e) kept h = kept

abbrev pub Keys : Database → Type 0
Keys db = RequestKeys db.enrollment_requests

creation-Keys :
    (id : Text) (hash : Hash) (kind : DeviceType) (expires now : Time) (db : Database)
    → Keys db
    → Keys (create_enrollment id hash kind expires now db).1
unfolding create_enrollment insert_enrollment
creation-Keys id hash kind expires now db keys = commit-kept Keys db _ keys λ db' h.
    subst RequestKeys (sym (creation-rows kind (new_request id hash kind expires now) db db' h)) (
      insertion-RequestKeys (new_request id hash kind expires now) db.enrollment_requests
        (ground arith) keys)

submission-Keys :
    (code claim : Hash) (name : Text) (owner : Option Owner) (required : Option DeviceType)
    (now : Time) (db : Database)
    → Keys db
    → Keys (submit_enrollment code claim name owner required now db).1
unfolding submit_enrollment
submission-Keys code claim name owner required now db keys =
    let chosen = submittable code owner required (database_time now) in
    elim (Option-cases (find_row chosen db.enrollment_requests)) [
      | inl e ↦ rw (e, submit_enrollment) keys
      | inr (r, e) ↦ elim (Bool-cases (hash_free chosen claim db)) [
        | inr f ↦ rw (e, submit_enrollment, f) keys
        | inl free ↦
            rw (e, submit_enrollment, free)
              (recode-RequestKeys chosen (submit_row claim name owner (database_time now)) claim
                db.enrollment_requests (λ x. unfold submit_row in refl)
                (λ x. unfold submit_row in refl)
                (ground (
                  arith,
                  keys.one_code code,
                  count_rows_mono chosen (has_code code) db.enrollment_requests
                      (λ x h. unfold submittable in ground arith),
                ))
                (unfold hash_free in ground arith) keys)
      ]
    ]

completion-Keys :
    (claim tombstone : Hash) (setup : InitialSetup) (owner : Option Owner) (db : Database)
    → Keys db
    → Keys (complete_enrollment claim tombstone setup owner db).1
unfolding complete_enrollment
completion-Keys claim tombstone setup owner db keys =
    let now = database_time setup.now in
    elim (Option-cases (find_row (completable claim now) db.enrollment_requests)) [
      | inl e ↦ rw (e, complete_enrollment) keys
      | inr (r, e) ↦
          rw (e, complete_enrollment)
            (commit-kept Keys db _ keys λ db' h.
              subst RequestKeys (sym (completion-rows r claim tombstone setup owner now db db' h)) (
                unfold consume_claim in
                recode-RequestKeys (completable claim now)
                  (λ (x : EnrollmentRow). record x { code_hash = tombstone }) tombstone
                  db.enrollment_requests (λ x. refl) (λ x. refl)
                  (ground (
                    arith,
                    keys.one_code claim,
                    count_rows_mono (completable claim now) (has_code claim) db.enrollment_requests
                        (λ x h. unfold completable in ground arith),
                  ))
                  (unfold completion_statements hash_free in ground arith) keys))
    ]

-- The keys of the requests stay unique through every operation on them.
pub step-Keys : (call : Call) (db : Database) → Keys db → Keys (step call db)
unfolding step approve_enrollment reject_enrollment
step-Keys (creates id hash kind expires now) db keys =
    creation-Keys id hash kind expires now db keys
step-Keys (submits code claim name owner required now) db keys =
    submission-Keys code claim name owner required now db keys
step-Keys (approves id by now) db keys = commit-kept Keys db _ keys λ db' h.
    subst RequestKeys (sym (decision_statement-rows approved id by (database_time now) db db' h))
      (unfold decide in decision-RequestKeys _ _ db.enrollment_requests (λ r. (refl, refl)) keys)
step-Keys (rejects id by now) db keys = commit-kept Keys db _ keys λ db' h.
    subst RequestKeys (sym (rejection-rows rejected id by (database_time now) db db' h))
      (unfold decide in decision-RequestKeys _ _ db.enrollment_requests (λ r. (refl, refl)) keys)
step-Keys (completes claim tombstone setup owner) db keys =
    completion-Keys claim tombstone setup owner db keys
