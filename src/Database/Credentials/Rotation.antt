-- ===== src/Database/Credentials/Rotation.antt =====
-- The rotation of a refresh token (internal/database/credentials.go).
use family_dashboard.Database.Setup.Access.{NoToken, find_pair-new_credential}
use mathlib.Core.List.{append_assoc}
use family_dashboard.Common.{
  ◌≡◌, subst, inl, inr, refl, Bool, true, false, not, ◌&&◌, some, [], ◌∷◌, ◌++◌, arith, Among,
  AllRows, AllRows-Among, AllRows-append, AllRows-mono, find_pair, find_pair-holds, find_pair-Among,
  text_eq_iff, if◌then◌else◌, find_pair-append_some, find_pair-update_rows, Option-cases, find_row,
  find_row-holds, find_row-none, List, ap, ◌∙◌,
}
use family_dashboard.Time.{Time, TimeText, database_time, time_text_lt}
use family_dashboard.Database.State.{
  Database, DeviceRow, CredentialRow, Hash, ok, err, is_null, is_active, commit, commit_with,
  refresh_reuse, access, refresh, is_access,
}
use family_dashboard.Database.Statements.{insert_event, insert_credential}
use family_dashboard.Database.Setup.{
  new_credential, Device, device_by_access_token, authenticates, device_of,
}
use family_dashboard.Database.Setup.Authentication.{device_by_access_token-IsAuthenticated}
use family_dashboard.Database.Credentials.{
  CredentialRotation, refreshes, rotate_refresh_credential, rotate_found, rotation_statements,
  revoke_credentials, is_access_of, consume, is_unspent,
}
use family_dashboard.Database.Credentials.Reuse.{
  FamilyRevoked, revoke_credentials-AllRows, rotate_refresh_credential-reuse,
}

-- What a rotation that succeeds has found, and the statements that it ran.
pub record Rotated (old : Hash) (rotation : CredentialRotation) (local_network : Bool) (now : Time)
    (db db' : Database) : Type 0 where
  pub credential : CredentialRow
  pub device : DeviceRow
  pub found : find_pair (refreshes old) db.device_credentials db.devices ≡ some (credential, device)
  pub presented : credential.token_hash ≡ old
  pub allowed : (device.local_only && not local_network) ≡ false
  pub unspent : is_unspent old credential ≡ true
  pub in_service : is_active device.status ≡ true
  pub ran :
      rotation_statements credential rotation
        (database_time now)
        (consume old (database_time now) db)
      ≡ ok db'

rotate_found-Rotated :
    (old : Hash) (rotation : CredentialRotation) (local_network : Bool) (now : Time)
    (db db' : Database) (c : CredentialRow) (d : DeviceRow)
    → find_pair (refreshes old) db.device_credentials db.devices ≡ some (c, d)
    → rotate_found c d old rotation local_network now db ≡ (ok tt, db')
    → Rotated old rotation local_network now db db'
unfolding rotate_found commit commit_with refreshes is_unspent
rotate_found-Rotated old rotation local_network now db db' c d found h =
    let matches = find_pair-holds _ db.device_credentials db.devices c d found in
    record {
      credential = c;
      device = d;
      found = found;
      presented = ground arith;
      allowed = ground arith;
      unspent = ground arith;
      in_service = ground arith;
      ran = ground arith;
    }

pub rotate_refresh_credential-Rotated :
    (old : Hash) (rotation : CredentialRotation) (local_network : Bool) (now : Time)
    (db db' : Database)
    → rotate_refresh_credential old rotation local_network now db ≡ (ok tt, db')
    → Rotated old rotation local_network now db db'
unfolding rotate_refresh_credential
rotate_refresh_credential-Rotated old rotation local_network now db db' h =
    elim (Option-cases (find_pair (refreshes old) db.device_credentials db.devices)) [
      | inl e ↦ absurd (ground arith)
      | inr ((c, d), e) ↦
          rotate_found-Rotated old rotation local_network now db db' c d e (ground arith)
    ]

abbrev access_row : CredentialRow → CredentialRotation → TimeText → CredentialRow
access_row c r now =
    new_credential r.access_id access r.access_hash c.family_id r.access_expires_at c.device_id now

abbrev refresh_row : CredentialRow → CredentialRotation → TimeText → CredentialRow
refresh_row c r now =
    new_credential r.refresh_id refresh r.refresh_hash c.family_id r.refresh_expires_at c.device_id
      now

rotation_tables :
    (c : CredentialRow) (r : CredentialRotation) (now : TimeText) (db db' : Database)
    → rotation_statements c r now db ≡ ok db'
    → (db'.devices ≡ db.devices)
      × (db'.device_credentials
          ≡ (revoke_credentials (is_access_of c.device_id) now db).device_credentials
            ++ access_row c r now ∷ refresh_row c r now ∷ [])
unfolding rotation_statements insert_credential insert_event revoke_credentials
rotation_tables c r now db db' h = (
  ground arith,
  ground (
    arith,
    append_assoc (revoke_credentials (is_access_of c.device_id) now db).device_credentials
        (access_row c r now ∷ []) (refresh_row c r now ∷ []),
  ),
)

-- The old token is still found after the updates, and is consumed now.
spent_token :
    (old : Hash) (r : CredentialRotation) (now : TimeText) (db db' : Database) (c : CredentialRow)
    (d : DeviceRow)
    → find_pair (refreshes old) db.device_credentials db.devices ≡ some (c, d)
    → is_unspent old c ≡ true
    → rotation_statements c r now (consume old now db) ≡ ok db'
    → (c' : CredentialRow) × (find_pair (refreshes old) db'.device_credentials db'.devices
        ≡ some (c', d))
      × (c'.consumed_at ≡ some now)
      × (c'.family_id ≡ c.family_id)
unfolding consume revoke_credentials
spent_token old r now db db' c d found unspent ran =
    let (devices, credentials) = rotation_tables c r now (consume old now db) db' ran in
    let consumed =
      find_pair-update_rows (refreshes old) (is_unspent old)
        (λ (x : CredentialRow). record x { consumed_at = some now }) db.device_credentials
        db.devices (λ x y. unfold refreshes in refl) c d found in
    let c1 = record c { consumed_at = some now } in
    let consumed1 : find_pair (refreshes old) (consume old now db).device_credentials db.devices
        ≡ some (c1, d) =
      rw unspent at consumed in
    let which = λ (x : CredentialRow). is_access_of c.device_id x && is_null x.revoked_at in
    let kept =
      find_pair-update_rows (refreshes old) which
        (λ (x : CredentialRow). record x { revoked_at = some now })
        (consume old now db).device_credentials db.devices (λ x y. unfold refreshes in refl) c1 d
        consumed1 in
    (
      (if which c1 then record c1 { revoked_at = some now } else c1),
      rw (credentials, devices) (find_pair-append_some (refreshes old) _ _ _ _ kept),
      ground arith,
      ground arith,
    )

-- A refresh token works once. Presented again, at any time and from the same network, it is refused
-- as reused, and with it every credential of its family is revoked, those of the rotation too.
pub rotate_refresh_credential_twice :
    (old : Hash) (rotation again : CredentialRotation) (local_network : Bool) (now later : Time)
    (db db' : Database)
    → rotate_refresh_credential old rotation local_network now db ≡ (ok tt, db')
    → let outcome = rotate_refresh_credential old again local_network later db' in
      (outcome.0 ≡ err refresh_reuse)
      × ((c : CredentialRow) × Among c db.device_credentials
          × (c.token_hash ≡ old)
          × FamilyRevoked c.family_id outcome.1)
rotate_refresh_credential_twice old rotation again local_network now later db db' h =
    let r = rotate_refresh_credential-Rotated old rotation local_network now db db' h in
    let (c', found, consumed, family) =
      spent_token old rotation (database_time now) db db' r.credential r.device r.found r.unspent
        r.ran in
    let again_refused =
      rotate_refresh_credential-reuse old again local_network later db' c' r.device found r.allowed
        (λ e. ground (arith, consumed)) in
    (
      again_refused.0,
      (
        r.credential,
        (find_pair-Among _ db.device_credentials db.devices r.credential r.device r.found).0,
        r.presented,
        rw (← family) again_refused.1,
      ),
    )

revoked-access :
    (c : CredentialRow) (r : CredentialRotation) (now : TimeText) (db : Database)
    → AllRows
        (λ (x : CredentialRow).
          is_access_of c.device_id x ≡ true
          → is_null x.revoked_at ≡ true
          → x.token_hash ≡ r.access_hash)
        ((revoke_credentials (is_access_of c.device_id) now db).device_credentials
          ++ access_row c r now ∷ refresh_row c r now ∷ [])
unfolding is_access_of
revoked-access c r now db =
    AllRows-append _ (revoke_credentials (is_access_of c.device_id) now db).device_credentials _
      (AllRows-mono _ _ (revoke_credentials (is_access_of c.device_id) now db).device_credentials
        (λ x h a n. absurd (ground (arith, h a)))
        (revoke_credentials-AllRows (is_access_of c.device_id) now db))
      ((λ a n. refl), ((λ a n. ground arith), tt))

-- The access token of the rotation is new to the table.
rotation-NoToken :
    (c : CredentialRow) (r : CredentialRotation) (now : TimeText) (db db' : Database)
    → rotation_statements c r now db ≡ ok db'
    → NoToken r.access_id r.access_hash
        (revoke_credentials (is_access_of c.device_id) now db).device_credentials
unfolding rotation_statements insert_credential
rotation-NoToken c r now db db' h = ground arith

fresh_token_lets_in :
    (old : Hash) (rotation : CredentialRotation) (local_network : Bool) (now later : Time)
    (db db' : Database)
    → (r : Rotated old rotation local_network now db db')
    → time_text_lt (database_time later) (database_time rotation.access_expires_at) ≡ true
    → (device : Device) × ((device_by_access_token rotation.access_hash later db').0 ≡ ok device)
      × (device.id ≡ r.credential.device_id)
unfolding device_by_access_token consume
fresh_token_lets_in old rotation local_network now later db db' r in_time =
    let c = r.credential in
    let stamp = database_time now in
    let at = database_time later in
    let before = consume old stamp db in
    let (devices, credentials) = rotation_tables c rotation stamp before db' r.ran in
    let row = access_row c rotation stamp in
    let stored = (find_pair-Among _ db.device_credentials db.devices c r.device r.found).1 in
    let matches = find_pair-holds _ db.device_credentials db.devices c r.device r.found in
    elim (Option-cases (find_row (authenticates rotation.access_hash at row) db.devices)) [
      | inl e ↦
          let missed =
            AllRows-Among _ db.devices r.device
              (find_row-none (authenticates rotation.access_hash at row) db.devices e) stored in
          absurd (
            unfold authenticates refreshes is_access is_null in
            ground (arith, missed, matches, r.in_service, in_time))
      | inr (d, e) ↦
          let holds = find_row-holds (authenticates rotation.access_hash at row) db.devices d e in
          let pair =
            find_pair-new_credential rotation.access_hash at rotation.access_id
              (revoke_credentials (is_access_of c.device_id) stamp before).device_credentials
              (refresh_row c rotation stamp ∷ []) row d db.devices
              (rotation-NoToken c rotation stamp before db' r.ran) e in
          let found : find_pair (authenticates rotation.access_hash at) db'.device_credentials
                db'.devices
              ≡ some (row, d) =
            ap
              (λ (cs : List CredentialRow).
                find_pair (authenticates rotation.access_hash at) cs db'.devices)
              credentials
            ∙ ap
                (find_pair (authenticates rotation.access_hash at) (
                  (revoke_credentials (is_access_of c.device_id) stamp before).device_credentials
                  ++ row ∷ refresh_row c rotation stamp ∷ []))
                devices
            ∙ pair in
          (
            device_of d,
            ground (arith, found),
            unfold authenticates in ground (arith, holds, text_eq_iff d.id c.device_id),
          )
    ]

-- After a rotation the access token that it issued lets the device in until it expires, and no
-- other one does.
pub rotate_refresh_credential-access :
    (old : Hash) (rotation : CredentialRotation) (local_network : Bool) (now : Time)
    (db db' : Database)
    → rotate_refresh_credential old rotation local_network now db ≡ (ok tt, db')
    → (c : CredentialRow) × Among c db.device_credentials
      × (c.token_hash ≡ old)
      × ((later : Time)
          → time_text_lt (database_time later) (database_time rotation.access_expires_at) ≡ true
          → (device : Device) × ((device_by_access_token rotation.access_hash later db').0
              ≡ ok device)
            × (device.id ≡ c.device_id))
      × ((hash : Hash) (later : Time) (device : Device)
          → (device_by_access_token hash later db').0 ≡ ok device
          → device.id ≡ c.device_id
          → hash ≡ rotation.access_hash)
unfolding is_access_of is_access is_null
rotate_refresh_credential-access old rotation local_network now db db' h =
    let r = rotate_refresh_credential-Rotated old rotation local_network now db db' h in
    let c = r.credential in
    let (_, credentials) =
      rotation_tables c rotation (database_time now) (consume old (database_time now) db) db'
        r.ran in
    (
      c,
      (find_pair-Among _ db.device_credentials db.devices c r.device r.found).0,
      r.presented,
      λ later in_time. fresh_token_lets_in old rotation local_network now later db db' r in_time,
      λ hash later device let_in same.
          let a = device_by_access_token-IsAuthenticated hash later db' device let_in in
          let only =
            AllRows-Among _ _ a.credential
              (revoked-access c rotation (database_time now) (consume old (database_time now) db))
              (subst (Among a.credential) credentials a.issued) in
          ground (
            arith,
            only,
            a.of_access,
            a.owned,
            a.secret,
            a.unrevoked,
            a.described,
            text_eq_iff a.credential.device_id c.device_id,
          ),
    )
