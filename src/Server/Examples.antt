-- ===== src/Server/Examples.antt =====
-- A server with one local network in its environment.
use family_dashboard.Common.{
  ℕ, ◌≡◌, ◌↔◌, refl, true, false, Option, none, some, [], ◌∷◌, ◌==◌, if◌then◌else◌, codes, text_eq,
  trim_space,
}
use family_dashboard.Time.{Time}
use family_dashboard.Security.{Crypto, split}
use family_dashboard.Database.State.{Database}
use family_dashboard.App.{Config, denied, forbidden}
use family_dashboard.App.Access.{request_in_networks, request_from_tailscale, remote_host}
use family_dashboard.App.Samples.{lib, request}
use family_dashboard.App.Setup.{SetupRequest, SetupDrawn, complete_setup}
use family_dashboard.Server.{System, networks_key, load_config}
use family_dashboard.Server.Networks.{Covers, load_config-home}

abbrev system : System
system = record {
  getenv = λ key. if text_eq key networks_key then codes "home, lab" else [];
  parse_bool = λ text. none;
  parse_prefix = λ text.
      if text_eq text (codes "lab")
      then some (λ address. address == 1)
      else some (λ address. address == 2);
}

abbrev loaded : Config
loaded = record {
  local_networks = (λ address. address == 2) ∷ (λ address. address == 1) ∷ [];
  secure_cookies = true;
  initial_setup_code = [];
  vapid_public_key = [];
  vapid_private_key = [];
  record_start = true;
}

loaded_ran : load_config system false ≡ some loaded
unfolding load_config text_eq trim_space
loaded_ran = refl

load_config-home_example :
    (text_eq (trim_space (system.getenv networks_key)) [] ≡ false
      → (request_in_networks lib request loaded.local_networks ≡ true) ↔ (
          (request_from_tailscale request ≡ false)
          × ((address : ℕ) × (lib.parse_addr (remote_host lib request) ≡ some address)
              × Covers system (split b',' (system.getenv networks_key)) address)))
    × (text_eq (trim_space (system.getenv networks_key)) [] ≡ true
        → (request_in_networks lib request loaded.local_networks ≡ false)
          × ((crypto : Crypto) (drawn : SetupDrawn) (body : Option SetupRequest) (now : Time)
                (db : Database)
              → complete_setup lib crypto loaded request drawn body now db
                ≡ (denied forbidden, db)))
load_config-home_example = load_config-home system false loaded lib request loaded_ran
