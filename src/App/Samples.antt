-- ===== src/App/Samples.antt =====
-- A platform whose functions stand for one token each, a configuration and a request for tests.
use family_dashboard.Common.{
  ℕ, ◌+◌, ◌-◌, ◌*◌, true, false, Option, none, some, [], ◌∷◌, ◌==◌, Text, codes,
}
use family_dashboard.Time.{Time, hour, zero_time}
use family_dashboard.App.{Platform, Config, Request}

-- The digest of a token of one letter is its code less 50.
abbrev pub digest : Text → ℕ
digest [] = 0
digest (c ∷ s) = c - 50

abbrev pub instant : Text → Option Time
instant [] = none
instant (c ∷ s) = some (zero_time + c * hour)

abbrev pub lib : Platform
lib = record {
  sha256 = digest;
  parse_url =
      λ t. some (record { scheme = codes "http"; has_user = false; host = t; fragment = [] });
  split_host_port = λ t. some t;
  parse_addr = λ t. some 1;
  parse_rfc3339 = instant;
  decode_base64_url = λ t. some t;
}

abbrev pub config : Config
config = record {
  local_networks = (λ address. address == 1) ∷ [];
  secure_cookies = false;
  initial_setup_code = [];
  vapid_public_key = [];
  vapid_private_key = [];
  record_start = true;
}

-- G, o and p are the tokens of the digests 21, 61 and 62.
abbrev pub request : Request
request = record {
  device_cookie = some (codes "G");
  refresh_cookie = some (codes "H");
  admin_cookie = some (codes "o");
  csrf_token = codes "p";
  origin = codes "home";
  host = codes "home";
  remote_addr = codes "10.0.0.2";
  tailscale_user_login = [];
  tailscale_user_name = [];
  tailscale_user_profile_pic = [];
}
