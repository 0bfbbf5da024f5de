-- ===== src/Security/Vapid.antt =====
-- `GenerateVAPIDKeys` and `ValidateVAPIDKeys` of internal/security/vapid.go.
use family_dashboard.Common.{
  ℕ, Bool, false, ◌&&◌, Option, none, some, List, [], ◌∷◌, ◌==◌, Text, length, text_eq,
}

-- The functions of Go's packages: `EncodeToString` and `DecodeString` of `base64.RawURLEncoding`,
-- with bytes as numbers, and `ScalarBaseMult` of the curve P-256 followed by `elliptic.Marshal`.
pub record Curve : Type 0 where
  pub encode_base64_url : List ℕ → Text
  pub decode_base64_url : Text → Option (List ℕ)
  pub public_point : List ℕ → List ℕ

-- 65 bytes of which the first is 4.
unfoldable pub is_uncompressed_point : List ℕ → Bool
is_uncompressed_point [] = false
is_uncompressed_point (b ∷ bytes) = length (b ∷ bytes) == 65 && b == 4

unfoldable pub is_key_pair : Curve → Option (List ℕ) → Option (List ℕ) → Bool
unfolding is_uncompressed_point
is_key_pair curve (some private) (some public) =
    length private == 32
    && is_uncompressed_point public
    && text_eq public (curve.public_point private)
is_key_pair curve _ _ = false

-- `ValidateVAPIDKeys`; false is `ErrInvalidVAPIDKeys`.
unfoldable pub validate_vapid_keys : Curve → Text → Text → Bool
unfolding is_key_pair
validate_vapid_keys curve private public =
    is_key_pair curve (curve.decode_base64_url private) (curve.decode_base64_url public)

-- What `elliptic.GenerateKey` draws: the private bytes, and the point after `elliptic.Marshal`.
pub record DrawnKeys : Type 0 where
  pub private : List ℕ
  pub point : List ℕ

-- A private and a public key as texts.
pub record KeyTexts : Type 0 where
  pub private_key : Text
  pub public_key : Text

-- `GenerateVAPIDKeys`; `none` is an error of the drawing.
unfoldable pub generate_vapid_keys : Curve → Option DrawnKeys → Option KeyTexts
generate_vapid_keys curve none = none
generate_vapid_keys curve (some drawn) = some (record {
  private_key = curve.encode_base64_url drawn.private;
  public_key = curve.encode_base64_url drawn.point;
})
