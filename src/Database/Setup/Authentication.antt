-- ===== src/Database/Setup/Authentication.antt =====
-- What DeviceByAccessToken of internal/database/database.go demands of a token.
use family_dashboard.Common.{
  ◌≡◌, ◌≢◌, inl, inr, refl, true, false, none, arith, Among, AllRows, AllRows-Among, find_pair,
  find_pair-holds, find_pair-Among, text_eq, text_eq_iff, Text, Option-cases,
}
use family_dashboard.Time.{Time, database_time, time_text_lt}
use family_dashboard.Database.State.{
  Database, DeviceRow, CredentialRow, Hash, ok, access, active, is_null,
}
use family_dashboard.Database.Setup.{Device, authenticates, device_by_access_token, device_of}

-- A credential and a device that let a token in.
pub record IsAuthenticated (hash : Hash) (now : Time) (db : Database) (device : Device)
    : Type 0 where
  pub credential : CredentialRow
  pub row : DeviceRow
  pub issued : Among credential db.device_credentials
  pub registered : Among row db.devices
  pub owned : credential.device_id ≡ row.id
  pub of_access : credential.credential_type ≡ access
  pub secret : credential.token_hash ≡ hash
  pub unconsumed : credential.consumed_at ≡ none
  pub unrevoked : credential.revoked_at ≡ none
  pub unexpired : time_text_lt (database_time now) credential.expires_at ≡ true
  pub in_service : row.status ≡ active
  pub described : device ≡ device_of row

module _ (hash : Hash) (now : Time) (db : Database) where
  found-IsAuthenticated :
      (c : CredentialRow) (d : DeviceRow)
      → Among c db.device_credentials
      → Among d db.devices
      → authenticates hash (database_time now) c d ≡ true
      → IsAuthenticated hash now db (device_of d)
  unfolding authenticates
  found-IsAuthenticated c d mc md h = record {
    credential = c;
    row = d;
    issued = mc;
    registered = md;
    owned = ground (arith, text_eq_iff d.id c.device_id);
    of_access = ground arith;
    secret = ground arith;
    unconsumed = ground arith;
    unrevoked = ground arith;
    unexpired = ground arith;
    in_service = ground arith;
    described = refl;
  }

  -- A device is let in only for an access token that is its own, unspent, unrevoked and in time,
  -- and only while it is in service.
  pub device_by_access_token-IsAuthenticated :
      (device : Device)
      → (device_by_access_token hash now db).0 ≡ ok device
      → IsAuthenticated hash now db device
  unfolding device_by_access_token
  device_by_access_token-IsAuthenticated device h =
      elim (Option-cases
        (find_pair (authenticates hash (database_time now)) db.device_credentials db.devices)) [
          | inl e ↦ absurd (ground arith)
          | inr ((c, d), e) ↦
              let same : device ≡ device_of d = ground arith in
              let (mc, md) = find_pair-Among _ db.device_credentials db.devices c d e in
              rw same (
                found-IsAuthenticated c d mc md
                  (find_pair-holds _ db.device_credentials db.devices c d e))
        ]

  -- No token lets a device in whose credentials are all revoked.
  pub revoked-not_authenticated :
      (id : Text) (device : Device)
      → AllRows
          (λ c. text_eq c.device_id id ≡ true → is_null c.revoked_at ≡ false)
          db.device_credentials
      → (device_by_access_token hash now db).0 ≡ ok device
      → device.id ≢ id
  unfolding is_null
  revoked-not_authenticated id device all h e =
      let a = device_by_access_token-IsAuthenticated device h in
      let gone = AllRows-Among _ db.device_credentials a.credential all a.issued in
      ground (arith, a.described, a.owned, a.unrevoked, gone, text_eq_iff a.credential.device_id id)
