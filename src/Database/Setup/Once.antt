-- ===== src/Database/Setup/Once.antt =====
-- CompleteInitialSetup of internal/database/database.go, and the setup code before and after it.
use family_dashboard.Common.{◌≡◌, true, false, some, arith}
use family_dashboard.Time.{Time, database_time}
use family_dashboard.Database.State.{Database, Hash, Result, ok, err, commit, invalid_initial_setup}
use family_dashboard.Database.Statements.{insert_device, insert_recovery, insert_event}
use family_dashboard.Database.Setup.{
  InitialSetup, complete_initial_setup, validate_initial_setup_code, ensure_initial_setup_code,
  setup_required, setup_allowed, setup_statements, insert_credentials,
}

commit-ok : (db db' : Database) (r : Result Database) → commit db r ≡ (ok tt, db') → r ≡ ok db'
unfolding commit
commit-ok db db' (ok d) h = ground arith
commit-ok db db' (err x) h = ground arith

pub setup_statements-security :
    (setup : InitialSetup) (db db' : Database)
    → setup_statements setup (database_time setup.now) db ≡ ok db'
    → (db'.security_state.setup_complete ≡ true)
      × (db'.security_state.pin_hash ≡ some setup.pin_hash)
unfolding setup_statements insert_device insert_credentials insert_recovery insert_event
setup_statements-security setup db db' h = ground arith

setup_allowed-validates :
    (setup : InitialSetup) (db : Database)
    → setup_allowed db.security_state setup ≡ true
    → validate_initial_setup_code setup.code_hash setup.now db ≡ ok true
unfolding setup_allowed validate_initial_setup_code
setup_allowed-validates setup db h = ground arith

complete-not_allowed :
    (setup : InitialSetup) (db : Database)
    → db.security_state.setup_complete ≡ true
    → setup_allowed db.security_state setup ≡ false
unfolding setup_allowed
complete-not_allowed setup db h = ground arith

complete-validates_none :
    (hash : Hash) (now : Time) (db : Database)
    → db.security_state.setup_complete ≡ true
    → validate_initial_setup_code hash now db ≡ ok false
unfolding validate_initial_setup_code
complete-validates_none hash now db h = ground arith

complete-no_code :
    (hash : Hash) (expires now : Time) (db : Database)
    → db.security_state.setup_complete ≡ true
    → ensure_initial_setup_code hash expires now db ≡ (false, db)
unfolding ensure_initial_setup_code
complete-no_code hash expires now db h = ground arith

complete-refused :
    (setup : InitialSetup) (db : Database)
    → db.security_state.setup_complete ≡ true
    → complete_initial_setup setup db ≡ (err invalid_initial_setup, db)
unfolding complete_initial_setup
complete-refused setup db h = ground (arith, complete-not_allowed setup db h)

pub complete_initial_setup-ok :
    (setup : InitialSetup) (db db' : Database)
    → complete_initial_setup setup db ≡ (ok tt, db')
    → (setup_allowed db.security_state setup ≡ true)
      × (setup_statements setup (database_time setup.now) db ≡ ok db')
unfolding complete_initial_setup
complete_initial_setup-ok setup db db' h =
    ground (arith, commit-ok db db' (setup_statements setup (database_time setup.now) db))

-- Setup succeeds only with the code that validation accepts, and once: afterwards no code is
-- accepted any more, no setup runs, and no new code is made.
pub complete_initial_setup_once :
    (setup : InitialSetup) (db db' : Database)
    → complete_initial_setup setup db ≡ (ok tt, db')
    → (validate_initial_setup_code setup.code_hash setup.now db ≡ ok true)
      × (setup_required db' ≡ false)
      × ((hash : Hash) (now : Time) → validate_initial_setup_code hash now db' ≡ ok false)
      × ((next : InitialSetup) → complete_initial_setup next db' ≡ (err invalid_initial_setup, db'))
      × ((hash : Hash) (expires now : Time)
          → ensure_initial_setup_code hash expires now db' ≡ (false, db'))
unfolding setup_required
complete_initial_setup_once setup db db' h =
    let (allowed, ran) = complete_initial_setup-ok setup db db' h in
    let done = (setup_statements-security setup db db' ran).0 in
    (
      setup_allowed-validates setup db allowed,
      ground arith,
      λ hash now. complete-validates_none hash now db' done,
      λ next. complete-refused next db' done,
      λ hash expires now. complete-no_code hash expires now db' done,
    )
