-- ===== src/Database/Setup/Access.antt =====
-- The tokens that CompleteInitialSetup issues, as DeviceByAccessToken of
-- internal/database/database.go sees them.
use mathlib.Core.List.{append_assoc}
use family_dashboard.Common.{
  ◌≡◌, ◌∙◌, refl, true, false, ◌||◌, none, some, List, [], ◌∷◌, ◌++◌, arith, ◌==◌, any_row,
  find_row, find_pair, AllRows-mono, any_row-AllRows, find_pair-append, find_row-append,
  find_row-eq_none, text_eq, text_eq_refl, Text,
}
use family_dashboard.Time.{Time, TimeText, database_time, time_text_lt}
use family_dashboard.Database.State.{
  Database, DeviceRow, CredentialRow, Hash, ok, access, refresh, trusted_pc,
}
use family_dashboard.Database.Statements.{
  insert_device, insert_credential, insert_recovery, insert_event,
}
use family_dashboard.Database.Setup.{
  InitialSetup, complete_initial_setup, setup_statements, insert_credentials, new_credential,
  trusted_device, authenticates, device_by_access_token,
}
use family_dashboard.Database.Setup.Once.{complete_initial_setup-ok}

-- No row of the table has the id, or the token.
abbrev pub NoDevice : Text → List DeviceRow → Type 0
NoDevice id ds = any_row (λ (e : DeviceRow). text_eq e.id id) ds ≡ false

abbrev pub NoToken : Text → Hash → List CredentialRow → Type 0
NoToken id hash cs =
    any_row (λ (e : CredentialRow). text_eq e.id id || e.token_hash == hash) cs ≡ false

-- The first device of an id that the table has just received.
pub find_row-new_device :
    (hash : Hash) (now : TimeText) (c : CredentialRow) (d : DeviceRow) (ds : List DeviceRow)
    → NoDevice d.id ds
    → c.device_id ≡ d.id
    → authenticates hash now c d ≡ true
    → find_row (authenticates hash now c) (ds ++ d ∷ []) ≡ some d
unfolding find_row
find_row-new_device hash now c d ds n e a =
    find_row-append _ ds (d ∷ [])
      (find_row-eq_none _ ds (AllRows-mono _ _ ds other_id (any_row-AllRows _ ds n)))
    ∙ ground arith
  where
    other_id : (x : DeviceRow) → text_eq x.id d.id ≡ false → authenticates hash now c x ≡ false
    other_id x h = unfold authenticates in ground arith

pub find_pair-new_credential :
    (hash : Hash) (now : TimeText) (id : Text) (cs rest : List CredentialRow) (c : CredentialRow)
    (d : DeviceRow) (ds : List DeviceRow)
    → NoToken id hash cs
    → find_row (authenticates hash now c) ds ≡ some d
    → find_pair (authenticates hash now) (cs ++ c ∷ rest) ds ≡ some (c, d)
unfolding find_pair
find_pair-new_credential hash now id cs rest c d ds n e =
    find_pair-append _ cs (c ∷ rest) ds (AllRows-mono _ _ cs other_token (any_row-AllRows _ cs n))
    ∙ ground arith
  where
    other_token :
        (x : CredentialRow)
        → (text_eq x.id id || x.token_hash == hash) ≡ false
        → (y : DeviceRow) → authenticates hash now x y ≡ false
    other_token x h y = unfold authenticates in ground arith

setup_tables :
    (setup : InitialSetup) (now : TimeText) (db db' : Database)
    → setup_statements setup now db ≡ ok db'
    → NoDevice setup.device_id db.devices
      × NoToken setup.access_id setup.access_hash db.device_credentials
      × (db'.devices ≡ db.devices ++ trusted_device setup now ∷ [])
      × (db'.device_credentials
          ≡ db.device_credentials
            ++ new_credential setup.access_id access setup.access_hash setup.refresh_family_id
                setup.access_expires_at setup.device_id now
              ∷ new_credential setup.refresh_id refresh setup.refresh_hash setup.refresh_family_id
                  setup.refresh_expires_at setup.device_id now
              ∷ [])
unfolding setup_statements insert_credentials insert_device insert_credential insert_recovery
    insert_event
setup_tables setup now db db' h = (
  ground arith,
  ground arith,
  ground arith,
  ground (
    arith,
    append_assoc db.device_credentials
        (new_credential setup.access_id access setup.access_hash setup.refresh_family_id
            setup.access_expires_at setup.device_id now
          ∷ [])
        (new_credential setup.refresh_id refresh setup.refresh_hash setup.refresh_family_id
            setup.refresh_expires_at setup.device_id now
          ∷ []),
  ),
)

-- Until it expires, the access token that setup issues authenticates the trusted PC, by its name.
pub setup-authenticates :
    (setup : InitialSetup) (db db' : Database) (now : Time)
    → complete_initial_setup setup db ≡ (ok tt, db')
    → time_text_lt (database_time now) (database_time setup.access_expires_at) ≡ true
    → (device_by_access_token setup.access_hash now db').0
      ≡ ok (record {
        id = setup.device_id;
        name = setup.device_name;
        device_type = trusted_pc;
        owner = none;
        local_only = false;
      })
unfolding device_by_access_token
setup-authenticates setup db db' now h e =
    let stamp = database_time setup.now in
    let (no_device, no_token, devices, credentials) =
      setup_tables setup stamp db db' (complete_initial_setup-ok setup db db' h).1 in
    let d = trusted_device setup stamp in
    let c =
      new_credential setup.access_id access setup.access_hash setup.refresh_family_id
        setup.access_expires_at setup.device_id stamp in
    let found =
      find_row-new_device setup.access_hash (database_time now) c d db.devices no_device refl
        (unfold authenticates in ground (arith, text_eq_refl setup.device_id)) in
    ground (
      arith,
      devices,
      credentials,
      find_pair-new_credential setup.access_hash (database_time now) setup.access_id
          db.device_credentials
          (new_credential setup.refresh_id refresh setup.refresh_hash setup.refresh_family_id
              setup.refresh_expires_at setup.device_id stamp
            ∷ [])
          c d (db.devices ++ d ∷ []) no_token found,
    )
