-- ===== src/Server/RunExamples.antt =====
-- A run that prints a pair of keys, and a server that finds them in its environment.
use family_dashboard.Common.{
  ◌≡◌, refl, true, false, Option, none, some, [], ◌∷◌, ◌++◌, ◌==◌, if◌then◌else◌, codes, text_eq,
  trim_space, any_row, find_row, find_pair, count_rows, update_rows, sql_length, byte_length, Text,
}
use family_dashboard.Time.{database_time, parse_database_time, time_text_lt}
use family_dashboard.Security.Vapid.{Curve, KeyTexts, generate_vapid_keys, is_uncompressed_point}
use family_dashboard.Database.State.{Database, shared_tablet, ok}
use family_dashboard.Database.Opening.{
  DataFile, file_of, initialize, opened, default_mom, default_daughter, seed_member, seed_members,
  seeded_security,
}
use family_dashboard.Database.Setup.{
  record_start, complete_initial_setup, device_by_access_token, authenticates,
}
use family_dashboard.Database.Enrollment.{approve_enrollment, complete_enrollment}
use family_dashboard.Database.Requests.{create_enrollment, submit_enrollment}
use family_dashboard.Database.Examples.{seed, at_minute, enrolled_too}
use family_dashboard.App.{Config, granted}
use family_dashboard.App.Access.{authenticated_device, request_in_networks}
use family_dashboard.App.Push.{PushConfig, push_config, push_eligible}
use family_dashboard.App.Samples.{lib}
use family_dashboard.App.PushExamples.{zeros, point, tablet, device}
use family_dashboard.Server.{System, networks_key, load_config}
use family_dashboard.Server.Main.{Process, printed, serving, main}
use family_dashboard.Server.Keys.{generating, no_flags, printed_keys-serve}

-- Bytes are their own text, and every private key has the same point.
abbrev curve : Curve
curve = record {
  encode_base64_url = λ bytes. bytes;
  decode_base64_url = λ text. some text;
  public_point = λ private. point;
}

abbrev system : System
system = record {
  getenv = λ key.
      if text_eq key networks_key
      then codes "home"
      else if text_eq key (codes "FAMILY_DASHBOARD_VAPID_PUBLIC_KEY")
      then point
      else if text_eq key (codes "FAMILY_DASHBOARD_VAPID_PRIVATE_KEY")
      then zeros 32
      else [];
  parse_bool = λ text. none;
  parse_prefix = λ text. some (λ address. address == 1);
}

abbrev process : Process
process = record {
  system = system;
  curve = curve;
  platform = lib;
  drawn_keys = some (record { private = zeros 32; point = point });
  drawn_code = codes "=";
  now = at_minute 0;
  later = at_minute 0;
  intact = λ db. true;
}

-- The file of the first start, and the database that opening it once more gives.
abbrev seed_file : DataFile
seed_file = file_of seed

abbrev reopened : Database
reopened =
    record_start (opened seed_file (seed.family_members ++ default_mom ∷ default_daughter ∷ []))

reopened_ok : initialize true seed_file ≡ ok reopened
unfolding initialize seed_members seed_member seeded_security text_eq any_row
reopened_ok = refl

abbrev loaded : Config
loaded = record {
  local_networks = (λ address. address == 1) ∷ [];
  secure_cookies = true;
  initial_setup_code = [];
  vapid_public_key = point;
  vapid_private_key = zeros 32;
  record_start = true;
}

loaded_ran : load_config system false ≡ some loaded
unfolding load_config text_eq trim_space
loaded_ran = refl

abbrev keys : KeyTexts
keys = record { private_key = zeros 32; public_key = point }

keys_ran : (main process generating seed_file).0 ≡ printed keys
unfolding main generate_vapid_keys
keys_ran = refl

abbrev known : Database
known = (authenticated_device lib loaded tablet (at_minute 9) enrolled_too).1

known_ran :
    authenticated_device lib loaded tablet (at_minute 9) enrolled_too ≡ (granted device, known)
unfolding parse_database_time database_time text_eq any_row sql_length find_row find_pair count_rows
    update_rows time_text_lt byte_length trim_space authenticated_device request_in_networks
    complete_initial_setup device_by_access_token authenticates create_enrollment submit_enrollment
    approve_enrollment complete_enrollment
known_ran = refl

point_uncompressed : is_uncompressed_point point ≡ true
unfolding is_uncompressed_point
point_uncompressed = refl

public_read : system.getenv (codes "FAMILY_DASHBOARD_VAPID_PUBLIC_KEY") ≡ point
unfolding text_eq
public_read = refl

private_read : system.getenv (codes "FAMILY_DASHBOARD_VAPID_PRIVATE_KEY") ≡ zeros 32
unfolding text_eq
private_read = refl

printed_keys-serve_example :
    ((code : Option Text) × ((main process no_flags seed_file).0 ≡ serving loaded code))
    × ((c : PushConfig) × (push_config lib loaded tablet (at_minute 9) enrolled_too
          ≡ (granted c, known))
        × (c.enabled ≡ push_eligible shared_tablet)
        × (c.public_key ≡ (if push_eligible shared_tablet then point else [])))
printed_keys-serve_example =
    printed_keys-serve process process (zeros 32) keys loaded seed_file seed_file reopened
      enrolled_too known tablet (at_minute 9) device (λ b. refl) refl refl (λ text. refl) refl refl
      point_uncompressed keys_ran public_read private_read loaded_ran reopened_ok known_ran
