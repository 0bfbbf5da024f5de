-- ===== src/Server/Runs.antt =====
-- What a run of cmd/server/main.go does to the database.
use family_dashboard.Database.Opening.{DataFile, file_of, initialize, Keeps}
use family_dashboard.Common.{
  ◌≡◌, inl, inr, Bool, true, false, some, arith, if◌then◌else◌, not, Bool-cases, Option-cases, ◌⊎◌,
}
use family_dashboard.Time.{Time}
use family_dashboard.Security.Vapid.{generate_vapid_keys}
use family_dashboard.Database.State.{Database, ok}
use family_dashboard.App.{Config}
use family_dashboard.App.Setup.{ensure_setup_code}
use family_dashboard.App.Startup.{keys_accepted}
use family_dashboard.Server.{
  System, load_config, parse_prefixes, env_bool, networks_key, secure_cookies_key,
}
use family_dashboard.Server.Main.{Flags, Run, failed, printed, passed, serving, Process}

-- A file that was opened: it holds what the database holds then, which keeps all that it held.
pub record IsOpened (recorded : Bool) (file : DataFile) (db : Database) : Type 0 where
  pub initialized : initialize recorded file ≡ ok db
  pub keeps : Keeps file (if recorded then 1 else 0) db

-- What a run has done, given the data file before and after it.
unfoldable pub IsRun : Process → Flags → DataFile → DataFile → Run → Type 0
IsRun process flags file file' failed =
    (file' ≡ file)
    ⊎ ((flags.check_db ≡ true)
        × (flags.generate_vapid_keys ≡ false)
        × ((db : Database) × IsOpened false file db
            × (process.intact db ≡ false)
            × (file' ≡ file_of db)))
IsRun process flags file file' (printed keys) =
    (flags.generate_vapid_keys ≡ true)
    × (generate_vapid_keys process.curve process.drawn_keys ≡ some keys)
    × (file' ≡ file)
IsRun process flags file file' passed =
    (flags.check_db ≡ true)
    × (flags.generate_vapid_keys ≡ false)
    × ((db : Database) × IsOpened false file db × (process.intact db ≡ true) × (file' ≡ file_of db))
IsRun process flags file file' (serving config code) =
    (flags.check_db ≡ false)
    × (flags.generate_vapid_keys ≡ false)
    × (load_config process.system false ≡ some config)
    × (keys_accepted process.curve config ≡ true)
    × ((db : Database) × (left : Database) × IsOpened true file db
        × (ensure_setup_code process.platform config process.drawn_code process.now process.later db
            ≡ (code, left))
        × (file' ≡ file_of left))

pub loaded-record_start :
    (system : System) (check_db : Bool) (config : Config)
    → load_config system check_db ≡ some config
    → config.record_start ≡ not check_db
unfolding load_config
loaded-record_start system check_db config h =
    elim (Option-cases (parse_prefixes system (system.getenv networks_key))) [
      | inl n ↦ absurd (ground arith)
      | inr (networks, e) ↦ elim (Option-cases (env_bool system secure_cookies_key true)) [
        | inl n ↦ absurd (ground arith)
        | inr (secure, f) ↦ ground (arith, Bool-cases check_db)
      ]
    ]
