-- ===== src/App/SetupExamples.antt =====
-- The first start of the sample platform: the code, the setup, and the configured dashboard.
use family_dashboard.Common.{
  ◌≡◌, refl, true, false, none, some, codes, text_eq, any_row, sql_length, byte_length, trim_space,
  arith,
}
use family_dashboard.Time.{database_time, parse_database_time}
use family_dashboard.Security.{hash_pin}
use family_dashboard.Security.HashingExamples.{
  shifted, shifted_decodes, shifted_alphabet, shifted_key_length, sample_salt,
}
use family_dashboard.Database.State.{Database}
use family_dashboard.Database.Setup.{complete_initial_setup, ensure_initial_setup_code}
use family_dashboard.Database.Examples.{seed, at_minute}
use family_dashboard.App.{Config, Tokens, Answer, granted, denied}
use family_dashboard.App.Access.{request_in_networks}
use family_dashboard.App.Samples.{lib, config, request}
use family_dashboard.App.Setup.{
  SetupRequest, SetupDrawn, Configured, setup_status, complete_setup, cookies_of,
}
use family_dashboard.App.Setup.Completion.{
  IsSetup, IsReady, complete_setup-IsSetup, complete_setup-IsReady,
}
use family_dashboard.App.Setup.Bootstrap.{announced-configures}

-- The first start before a code was made.
abbrev pub codeless : Database
codeless = record seed {
  security_state = record {
    setup_complete = false;
    pin_hash = none;
    initial_code_hash = none;
    initial_code_expires_at = none;
    initial_code_consumed_at = none;
    updated_at = none;
  };
}

abbrev waiting : Database
waiting = (setup_status lib config (codes "=") (at_minute 0) (at_minute 0) codeless).1.1

announced :
    setup_status lib config (codes "=") (at_minute 0) (at_minute 0) codeless
    ≡ (true, (some (codes "="), waiting))
unfolding setup_status ensure_initial_setup_code text_eq
announced = refl

abbrev pub setup_drawn : SetupDrawn
setup_drawn = record {
  tokens = record {
    device_id = codes "pc";
    access_id = codes "a1";
    access_token = codes "G";
    refresh_id = codes "r1";
    refresh_token = codes "H";
    family_id = codes "f1";
  };
  recovery_id = codes "rec";
  recovery_code = codes "I";
  salt = sample_salt;
}

abbrev body : SetupRequest
body = record {
  initial_setup_code = codes "=";
  pin = codes "1234";
  device_name = codes " Study PC";
}

announced-configures_example :
    (c : Configured) × (db' : Database) × (complete_setup lib shifted config request setup_drawn
        (some body)
        (at_minute 9)
        waiting
      ≡ (granted c, db'))
unfolding request_in_networks trim_space sql_length family_dashboard.Security.valid_pin byte_length
    text_eq family_dashboard.App.Setup.name_fits any_row
announced-configures_example =
    announced-configures lib shifted config request (codes "=") (codes "=") setup_drawn body
      (at_minute 0) (at_minute 0) (at_minute 9) codeless waiting announced refl refl refl refl refl
      refl refl refl refl refl refl (omega arith)

abbrev answer : Configured
answer = record {
  recovery_code = codes "I";
  device_id = codes "pc";
  device_name = codes "Study PC";
  cookies = cookies_of setup_drawn.tokens;
}

abbrev pub configured : Database
configured =
    (complete_setup lib shifted config request setup_drawn (some body) (at_minute 9) waiting).1

setup_ran :
    complete_setup lib shifted config request setup_drawn (some body) (at_minute 9) waiting
    ≡ (granted answer, configured)
unfolding complete_setup text_eq any_row trim_space
    family_dashboard.Database.Setup.validate_initial_setup_code setup_status
    ensure_initial_setup_code parse_database_time database_time hash_pin byte_length
    complete_initial_setup sql_length
setup_ran = refl

complete_setup-IsSetup_example :
    IsSetup lib shifted config request setup_drawn (some body) (at_minute 9) waiting configured
complete_setup-IsSetup_example =
    complete_setup-IsSetup lib shifted config request setup_drawn (some body) (at_minute 9) waiting
      configured answer setup_ran

complete_setup-IsReady_example :
    IsReady lib shifted setup_drawn (some body) (at_minute 9) configured
complete_setup-IsReady_example =
    complete_setup-IsReady lib shifted config request setup_drawn (some body) (at_minute 9) waiting
      configured answer shifted_decodes shifted_alphabet shifted_key_length refl setup_ran
