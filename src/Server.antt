-- ===== src/Server.antt =====
-- cmd/server/main.go: the configuration that the process reads from its environment.
pub mod Main
pub mod Runs
pub mod Keys
pub mod Networks
pub mod Examples
pub mod RunExamples
use family_dashboard.Common.{
  ℕ, Bool, true, false, Option, none, some, List, [], ◌∷◌, Text, codes, trim_space, text_eq,
  if◌then◌else◌,
}
use family_dashboard.Security.{split}
use family_dashboard.App.{Config}

-- The functions of Go's packages: `os.Getenv`, `strconv.ParseBool`, and `netip.ParsePrefix`
-- followed by `Masked`, with a network as its `Contains`.
pub record System : Type 0 where
  pub getenv : Text → Text
  pub parse_bool : Text → Option Bool
  pub parse_prefix : Text → Option (ℕ → Bool)

-- `env`.
unfoldable pub env : System → Text → Text → Text
env system key fallback = if text_eq (system.getenv key) [] then fallback else system.getenv key

-- `envBool`; `none` is its error.
unfoldable pub env_bool : System → Text → Bool → Option Bool
env_bool system key fallback =
    if text_eq (system.getenv key) [] then some fallback else system.parse_bool (system.getenv key)

-- The loop of `parsePrefixes`; `none` is its error.
unfoldable pub parse_items : System → List Text → Option (List (ℕ → Bool))
parse_items system [] = some []
parse_items system (item ∷ items) =
    let rest = parse_items system items in
    elim (system.parse_prefix (trim_space item)) [
      | none ↦ none
      | some network ↦ elim rest [ none ↦ none | some networks ↦ some (network ∷ networks) ]
    ]

-- `parsePrefixes`.
unfoldable pub parse_prefixes : System → Text → Option (List (ℕ → Bool))
unfolding parse_items split
parse_prefixes system value =
    if text_eq (trim_space value) [] then some [] else parse_items system (split b',' value)

abbrev pub networks_key : Text
networks_key = codes "FAMILY_DASHBOARD_LOCAL_NETWORKS"

abbrev pub secure_cookies_key : Text
secure_cookies_key = codes "FAMILY_DASHBOARD_SECURE_COOKIES"

-- The configuration that `main` makes for `app.New`; the process exits where this is `none`.
-- `check_db` is the flag `-check-db`.
unfoldable pub load_config : System → Bool → Option Config
unfolding parse_prefixes env_bool
load_config system check_db = elim (parse_prefixes system (system.getenv networks_key)) [
  | none ↦ none
  | some networks ↦ elim (env_bool system secure_cookies_key true) [
    | none ↦ none
    | some secure ↦ some (record {
      local_networks = networks;
      secure_cookies = secure;
      initial_setup_code = [];
      vapid_public_key = system.getenv (codes "FAMILY_DASHBOARD_VAPID_PUBLIC_KEY");
      vapid_private_key = system.getenv (codes "FAMILY_DASHBOARD_VAPID_PRIVATE_KEY");
      record_start = if check_db then false else true;
    })
  ]
]
