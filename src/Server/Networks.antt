-- ===== src/Server/Networks.antt =====
-- Which addresses count as the home network for a server that cmd/server/main.go starts.
use family_dashboard.Common.{
  ℕ, ◌≡◌, ◌↔◌, inl, inr, refl, subst, Bool, true, false, Option, some, List, [], ◌∷◌, arith, Text,
  trim_space, text_eq, any_row, Among, Bool-cases, Option-cases,
}
use family_dashboard.Time.{Time}
use family_dashboard.Security.{Crypto, split}
use family_dashboard.Database.State.{Database}
use family_dashboard.App.{Platform, Config, Request, denied, forbidden}
use family_dashboard.App.Access.{request_in_networks, request_from_tailscale, remote_host}
use family_dashboard.App.Setup.{SetupRequest, SetupDrawn, complete_setup}
use family_dashboard.Server.{
  System, env_bool, parse_items, parse_prefixes, networks_key, secure_cookies_key, load_config,
}

-- An item of the variable that is a network, and contains the address.
pub record Covers (system : System) (items : List Text) (address : ℕ) : Type 0 where
  pub item : Text
  pub listed : Among item items
  pub network : ℕ → Bool
  pub parsed : system.parse_prefix (trim_space item) ≡ some network
  pub inside : network address ≡ true

abbrev contains : ℕ → (ℕ → Bool) → Bool
contains address network = network address

parse_items-Covers :
    (system : System) (items : List Text) (networks : List (ℕ → Bool)) (address : ℕ)
    → parse_items system items ≡ some networks
    → any_row (contains address) networks ≡ true
    → Covers system items address
unfolding parse_items any_row
parse_items-Covers system [] networks address h k = absurd (ground arith)
parse_items-Covers system (item ∷ items) networks address h k =
    elim (Option-cases (system.parse_prefix (trim_space item))) [
      | inl n ↦ absurd (ground arith)
      | inr (network, e) ↦ elim (Option-cases (parse_items system items)) [
        | inl n ↦ absurd (ground arith)
        | inr (rest, f) ↦ elim (Bool-cases (network address)) [
          | inl t ↦ record {
            item = item;
            listed = inl refl;
            network = network;
            parsed = e;
            inside = t;
          }
          | inr t ↦
              let c = parse_items-Covers system items rest address f (ground arith) in
              record {
                item = c.item;
                listed = inr c.listed;
                network = c.network;
                parsed = c.parsed;
                inside = c.inside;
              }
        ]
      ]
    ]

covered-contains :
    (system : System) (items : List Text) (networks : List (ℕ → Bool)) (address : ℕ) (item : Text)
    (network : ℕ → Bool)
    → parse_items system items ≡ some networks
    → Among item items
    → system.parse_prefix (trim_space item) ≡ some network
    → network address ≡ true
    → any_row (contains address) networks ≡ true
unfolding parse_items any_row
covered-contains system [] networks address item network h m e i = absurd m
covered-contains system (x ∷ items) networks address item network h m e i =
    elim (Option-cases (system.parse_prefix (trim_space x))) [
      | inl n ↦ absurd (ground arith)
      | inr (first, f) ↦ elim (Option-cases (parse_items system items)) [
        | inl n ↦ absurd (ground arith)
        | inr (rest, g) ↦ elim m [
          | inl same ↦ ground arith
          | inr later ↦
              ground (arith, covered-contains system items rest address item network g later e i)
        ]
      ]
    ]

no_networks-outside : (lib : Platform) (r : Request) → request_in_networks lib r [] ≡ false
unfolding request_in_networks any_row
no_networks-outside lib r = ground (
  arith,
  Bool-cases (request_from_tailscale r),
  Option-cases (lib.parse_addr (remote_host lib r)),
)

loaded-networks :
    (system : System) (check_db : Bool) (config : Config)
    → load_config system check_db ≡ some config
    → parse_prefixes system (system.getenv networks_key) ≡ some config.local_networks
unfolding load_config
loaded-networks system check_db config h =
    elim (Option-cases (parse_prefixes system (system.getenv networks_key))) [
      | inl n ↦ absurd (ground arith)
      | inr (networks, e) ↦ elim (Option-cases (env_bool system secure_cookies_key true)) [
        | inl n ↦ absurd (ground arith)
        | inr (secure, f) ↦ ground arith
      ]
    ]

-- For a server that starts with the variable of the local networks set, a request comes from the
-- home network exactly when it carries no header of Tailscale and the address of its peer lies in a
-- network that an item of the variable, between commas, spells. Without the variable, or with a
-- blank one, no request does, and the setup is refused to everybody.
pub load_config-home :
    (system : System) (check_db : Bool) (config : Config) (lib : Platform) (r : Request)
    → load_config system check_db ≡ some config
    → (text_eq (trim_space (system.getenv networks_key)) [] ≡ false
        → (request_in_networks lib r config.local_networks ≡ true) ↔ (
            (request_from_tailscale r ≡ false)
            × ((address : ℕ) × (lib.parse_addr (remote_host lib r) ≡ some address)
                × Covers system (split b',' (system.getenv networks_key)) address)))
      × (text_eq (trim_space (system.getenv networks_key)) [] ≡ true
          → (request_in_networks lib r config.local_networks ≡ false)
            × ((crypto : Crypto) (drawn : SetupDrawn) (body : Option SetupRequest) (now : Time)
                  (db : Database)
                → complete_setup lib crypto config r drawn body now db ≡ (denied forbidden, db)))
unfolding parse_prefixes request_in_networks complete_setup
load_config-home system check_db config lib r h =
    let parsed = loaded-networks system check_db config h in
    (
      (λ given. (
        (λ home. elim (Option-cases (lib.parse_addr (remote_host lib r))) [
          | inl n ↦ absurd (ground (arith, Bool-cases (request_from_tailscale r)))
          | inr (address, e) ↦ (
            ground (arith, Bool-cases (request_from_tailscale r)),
            (
              address,
              e,
              parse_items-Covers system (split b',' (system.getenv networks_key))
                  config.local_networks address (ground arith)
                  (ground (arith, Bool-cases (request_from_tailscale r))),
            ),
          )
        ]),
        (λ (direct, (address, e, c)). ground (
          arith,
          covered-contains system (split b',' (system.getenv networks_key)) config.local_networks
              address c.item c.network (ground arith) c.listed c.parsed c.inside,
        )),
      )),
      (λ blank.
          let none_home : request_in_networks lib r config.local_networks ≡ false =
            subst (λ (ns : List (ℕ → Bool)). request_in_networks lib r ns ≡ false) (ground arith)
              (no_networks-outside lib r) in
          (none_home, λ crypto drawn body now db. ground (arith, none_home))),
    )
