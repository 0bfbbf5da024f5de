-- ===== src/Database/Invariant/Setup.antt =====
-- The first start, the setup and the authentication of a device keep a database well formed.
use family_dashboard.Common.{
  ◌≡◌, inl, inr, refl, some, [], ◌∷◌, ◌++◌, arith, text_eq, find_pair, Bool-cases, Option-cases,
}
use family_dashboard.Time.{Time, TimeText, database_time}
use family_dashboard.Database.State.{Database, DeviceRow, Hash, ok}
use family_dashboard.Database.Statements.{
  insert_device, insert_credential, insert_recovery, insert_event,
}
use family_dashboard.Database.Setup.{
  InitialSetup, record_start, ensure_initial_setup_code, complete_initial_setup, setup_statements,
  insert_credentials, setup_allowed, completed, trusted_device, authenticates, touch_device,
  device_by_access_token,
}
use family_dashboard.Database.Enrollment.Unique.{commit-kept}
use family_dashboard.Database.Invariant.{WellFormed}
use family_dashboard.Database.Invariant.Tables.{OneDevice-update, OneDevice-insert, Same-WellFormed}

pub record_start-WellFormed : (db : Database) → WellFormed db → WellFormed (record_start db)
unfolding record_start
record_start-WellFormed db w = Same-WellFormed db (record_start db) refl refl refl refl refl w

pub ensure_initial_setup_code-WellFormed :
    (hash : Hash) (expires now : Time) (db : Database)
    → WellFormed db
    → WellFormed (ensure_initial_setup_code hash expires now db).1
unfolding ensure_initial_setup_code
ensure_initial_setup_code-WellFormed hash expires now db w = record {
  requests = ground (arith, w.requests);
  devices = ground (arith, w.devices);
  sessions = ground (arith, w.sessions);
  pushes = ground (arith, w.pushes);
  security = ground (arith, w.security);
}

setup_statements-WellFormed :
    (setup : InitialSetup) (now : TimeText) (db db' : Database)
    → WellFormed db
    → setup_statements setup now db ≡ ok db'
    → WellFormed db'
unfolding setup_statements insert_credentials insert_device insert_credential insert_recovery
    insert_event
setup_statements-WellFormed setup now db db' w h =
    Same-WellFormed
      (record db {
        devices = db.devices ++ trusted_device setup now ∷ [];
        security_state = completed db.security_state setup now;
      })
      db' (ground arith) (ground arith) (ground arith) (ground arith) (ground arith)
      (record {
        requests = w.requests;
        devices = OneDevice-insert (trusted_device setup now) db.devices (ground arith) w.devices;
        sessions = w.sessions;
        pushes = w.pushes;
        security = λ e n. ground arith;
      })

pub complete_initial_setup-WellFormed :
    (setup : InitialSetup) (db : Database)
    → WellFormed db
    → WellFormed (complete_initial_setup setup db).1
unfolding complete_initial_setup
complete_initial_setup-WellFormed setup db w =
    elim (Bool-cases (setup_allowed db.security_state setup)) [
      | inr f ↦ rw (complete_initial_setup, f) w
      | inl t ↦
          rw (complete_initial_setup, t)
            (commit-kept WellFormed db _ w
              λ db' h. setup_statements-WellFormed setup (database_time setup.now) db db' w h)
    ]

pub device_by_access_token-WellFormed :
    (hash : Hash) (now : Time) (db : Database)
    → WellFormed db
    → WellFormed (device_by_access_token hash now db).1
unfolding device_by_access_token touch_device
device_by_access_token-WellFormed hash now db w =
    elim (Option-cases
      (find_pair (authenticates hash (database_time now)) db.device_credentials db.devices)) [
        | inl e ↦ rw (device_by_access_token, e) w
        | inr ((c, d), e) ↦
            rw (device_by_access_token, e)
              (record {
                requests = w.requests;
                devices =
                    OneDevice-update (λ (x : DeviceRow). text_eq x.id d.id)
                      (λ (x : DeviceRow). record x { last_used_at = some (database_time now) })
                      db.devices (λ x. refl) w.devices;
                sessions = w.sessions;
                pushes = w.pushes;
                security = w.security;
              })
      ]
