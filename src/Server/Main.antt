-- ===== src/Server/Main.antt =====
-- `main` of cmd/server/main.go, up to the listener, and how the process ends.
use family_dashboard.Database.Opening.{DataFile, file_of}
use family_dashboard.Common.{ℕ, Bool, Option, none, some, Text, if◌then◌else◌}
use family_dashboard.Time.{Time}
use family_dashboard.Security.Vapid.{Curve, DrawnKeys, KeyTexts, generate_vapid_keys}
use family_dashboard.Database.State.{Database}
use family_dashboard.App.{Platform, Config}
use family_dashboard.App.Startup.{new_application}
use family_dashboard.Server.{System, load_config}

-- The flags of the command line.
pub record Flags : Type 0 where
  pub check_db : Bool
  pub generate_vapid_keys : Bool

-- What a run comes to: an exit with the status 1, the keys that it prints, the passed check of the
-- database, or a server, with its configuration and the setup code that it has written to the log.
pub data Run : Type 0 where
  failed : Run
  printed : KeyTexts → Run
  passed : Run
  serving : Config → Option Text → Run

-- What the process finds at its start: the functions of its environment, what it draws, the clock,
-- and what `PRAGMA integrity_check` says of the database.
pub record Process : Type 0 where
  pub system : System
  pub curve : Curve
  pub platform : Platform
  pub drawn_keys : Option DrawnKeys
  pub drawn_code : Text
  pub now : Time
  pub later : Time
  pub intact : Database → Bool

unfoldable pub print_keys : Option KeyTexts → Run
print_keys none = failed
print_keys (some keys) = printed keys

-- The part behind `app.New`.
unfoldable pub run_application :
    Process → Bool → Config → Option (Option Text × Database) → DataFile → Run × DataFile
run_application process check_db config none file = (failed, file)
run_application process check_db config (some (code, left)) file =
    if check_db
    then (if process.intact left then passed else failed, file_of left)
    else (serving config code, file_of left)

-- The part behind the configuration, which the process cannot do without.
unfoldable pub run_configured : Process → Bool → Option Config → DataFile → Run × DataFile
unfolding run_application
run_configured process check_db none file = (failed, file)
run_configured process check_db (some config) file =
    run_application process check_db config
      (new_application process.curve process.platform config process.drawn_code process.now
        process.later file)
      file

-- `main`, with the data file before and after.
unfoldable pub main : Process → Flags → DataFile → Run × DataFile
unfolding print_keys run_configured
main process flags file =
    if flags.generate_vapid_keys
    then (print_keys (generate_vapid_keys process.curve process.drawn_keys), file)
    else run_configured process flags.check_db (load_config process.system flags.check_db) file

-- Why `main` leaves its select: a signal, or the error of `ListenAndServe`.
pub data Stop : Type 0 where
  signalled server_closed listener_failed : Stop

-- The status of the process after that; `shut_down` says whether `Shutdown` succeeds.
unfoldable pub exit_status : Stop → Bool → ℕ
exit_status listener_failed shut_down = 1
exit_status signalled shut_down = if shut_down then 0 else 1
exit_status server_closed shut_down = if shut_down then 0 else 1
