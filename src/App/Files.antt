-- ===== src/App/Files.antt =====
-- `spaHandler` of internal/app/http.go.
use family_dashboard.Common.{
  ◌≡◌, refl, Bool, true, false, ◌&&◌, [], ◌∷◌, ◌==◌, arith, Text, codes, text_eq, if◌then◌else◌,
}

-- The functions of Go's packages: `path.Clean`, and whether `fs.Stat` finds a file.
pub record Files : Type 0 where
  pub clean : Text → Text
  pub exists : Text → Bool

-- `strings.HasPrefix`.
unfoldable pub has_prefix : Text → Text → Bool
has_prefix s [] = true
has_prefix [] (c ∷ prefix) = false
has_prefix (d ∷ s) (c ∷ prefix) = d == c && has_prefix s prefix

-- `strings.TrimPrefix(s, "/")`.
unfoldable pub trim_slash : Text → Text
trim_slash [] = []
trim_slash (c ∷ s) = if c == b'/' then s else c ∷ s

-- The name of the file that a path asks for.
unfoldable pub file_name : Files → Text → Text
unfolding trim_slash
file_name files path =
    let name = trim_slash (files.clean path) in
    if text_eq name (codes ".") then codes "index.html" else name

-- What the handler passes on to the file server, and whether it lets the answer be cached for good.
pub record Served : Type 0 where
  pub path : Text
  pub immutable : Bool

-- `spaHandler`.
unfoldable pub spa_handler : Files → Text → Served
unfolding file_name has_prefix
spa_handler files path = record {
  path = if files.exists (file_name files path) then path else codes "/";
  immutable = has_prefix (file_name files path) (codes "assets/");
}

-- A file that exists is served under its own path and only what is named under `assets/` may be
-- cached for good; but a name under `assets/` that is missing gets the start page, and may be
-- cached for good all the same.
pub spa_handler-missing :
    (files : Files) (path : Text)
    → ((files.exists (file_name files path) ≡ true) → (spa_handler files path).path ≡ path)
      × ((spa_handler files path).immutable ≡ has_prefix (file_name files path) (codes "assets/"))
      × (files.exists (file_name files path) ≡ false
          → has_prefix (file_name files path) (codes "assets/") ≡ true
          → spa_handler files path ≡ record { path = codes "/"; immutable = true })
unfolding spa_handler
spa_handler-missing files path = (λ e. ground arith, refl, λ e h. ground arith)
