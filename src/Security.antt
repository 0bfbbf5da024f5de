-- ===== src/Security.antt =====
-- internal/security/pin.go: the hash of a PIN and the check of a PIN against it.
pub mod Pin
pub mod Hashing
pub mod Vapid
pub mod Examples
pub mod HashingExamples
use family_dashboard.Common.{
  ℕ, ◌+◌, ◌-◌, ◌*◌, Bool, true, false, not, ◌&&◌, ◌||◌, Option, none, some, List, [], ◌∷◌, ◌++◌,
  ltb, leb, ◌==◌, if◌then◌else◌, Text, codes, length, text_eq, byte_length,
}
use family_dashboard.Time.{is_digit}

-- The functions of Go's packages: `EncodeToString` and `DecodeString` of `base64.RawStdEncoding`,
-- with bytes as numbers, and `argon2.IDKey` of a password, a salt, a time, a memory, threads and a
-- length.
pub record Crypto : Type 0 where
  pub encode_base64 : Text → Text
  pub decode_base64 : Text → Option Text
  pub id_key : Text → Text → ℕ → ℕ → ℕ → ℕ → Text

unfoldable pub all_digits : Text → Bool
all_digits [] = true
all_digits (c ∷ s) = is_digit c && all_digits s

-- `validPIN`.
unfoldable pub valid_pin : Text → Bool
unfolding all_digits
valid_pin pin = byte_length pin == 4 && all_digits pin

unfoldable pub prepend : ℕ → List Text → List Text
prepend c [] = (c ∷ []) ∷ []
prepend c (part ∷ parts) = (c ∷ part) ∷ parts

-- `strings.Split` at one character.
unfoldable pub split : ℕ → Text → List Text
unfolding prepend
split sep [] = [] ∷ []
split sep (c ∷ s) = let rest = split sep s in if c == sep then [] ∷ rest else prepend c rest

unfoldable pub digits_value : ℕ → Text → ℕ
digits_value acc [] = acc
digits_value acc (c ∷ s) = digits_value (acc * 10 + (c - b'0')) s

-- `strconv.ParseUint` in base 10 for 32 bits.
unfoldable pub parse_uint : Text → Option ℕ
unfolding all_digits digits_value
parse_uint [] = none
parse_uint (c ∷ s) =
    if all_digits (c ∷ s) && ltb (digits_value 0 (c ∷ s)) 4294967296
    then some (digits_value 0 (c ∷ s))
    else none

-- `parseNamedUint`, for a name of one letter.
unfoldable pub parse_named_uint : Text → ℕ → Option ℕ
unfolding parse_uint
parse_named_uint (n ∷ e ∷ s) name = if n == name && e == b'=' then parse_uint s else none
parse_named_uint _ name = none

-- What `parsePINHash` returns: `pinParams`, the salt and the expected key.
pub record PinHash : Type 0 where
  pub memory : ℕ
  pub time : ℕ
  pub threads : ℕ
  pub salt : Text
  pub expected : Text

unfoldable pub params_fit : ℕ → ℕ → ℕ → Bool
params_fit memory iterations parallelism =
    leb (7 * 1024) memory
    && leb memory (256 * 1024)
    && leb 1 iterations
    && leb iterations 10
    && leb 1 parallelism
    && leb parallelism 8

unfoldable pub keyed : ℕ → ℕ → ℕ → Text → Text → Option PinHash
keyed memory iterations parallelism salt expected =
    if leb 16 (length salt) && leb 16 (length expected) && leb (length expected) 64
    then some (record {
      memory = memory;
      time = iterations;
      threads = parallelism;
      salt = salt;
      expected = expected;
    })
    else none

unfoldable pub decoded_hash : Crypto → ℕ → ℕ → ℕ → Text → Text → Option PinHash
unfolding params_fit keyed
decoded_hash lib memory iterations parallelism salt expected =
    if params_fit memory iterations parallelism
    then elim (lib.decode_base64 salt) [
      | none ↦ none
      | some s ↦ elim (lib.decode_base64 expected) [
        | none ↦ none
        | some k ↦ keyed memory iterations parallelism s k
      ]
    ]
    else none

infixl 5 ◌>>=◌
abbrev pub ◌>>=◌ {ℓ κ} : {A : Type ℓ} {B : Type κ} → Option A → (A → Option B) → Option B
none >>= f = none
some a >>= f = f a

unfoldable pub parse_values : Crypto → List Text → Text → Text → Option PinHash
unfolding decoded_hash parse_named_uint
parse_values lib (m ∷ t ∷ p ∷ []) salt expected = do
  memory ← parse_named_uint m b'm'
  iterations ← parse_named_uint t b't'
  parallelism ← parse_named_uint p b'p'
  decoded_hash lib memory iterations parallelism salt expected
parse_values lib _ salt expected = none

-- `argonVersion`, which is `argon2.Version`.
abbrev pub argon_version : ℕ
argon_version = 19

unfoldable pub is_argon_version : Option ℕ → Bool
is_argon_version none = false
is_argon_version (some version) = version == argon_version

unfoldable pub parse_parts : Crypto → List Text → Option PinHash
unfolding parse_values parse_named_uint is_argon_version split
parse_parts lib (_ ∷ name ∷ version ∷ values ∷ salt ∷ expected ∷ []) =
    if text_eq name (codes "argon2id") && is_argon_version (parse_named_uint version b'v')
    then parse_values lib (split b',' values) salt expected
    else none
parse_parts lib _ = none

-- `parsePINHash`.
unfoldable pub parse_pin_hash : Crypto → Text → Option PinHash
unfolding parse_parts
parse_pin_hash lib encoded = parse_parts lib (split b'$' encoded)

-- `VerifyPIN`; `none` is its error.
unfoldable pub verify_pin : Crypto → Text → Text → Option Bool
unfolding valid_pin parse_pin_hash
verify_pin lib encoded pin =
    if not (valid_pin pin) then some false else elim (parse_pin_hash lib encoded) [
      | none ↦ none
      | some h ↦
          some (
            text_eq (lib.id_key pin h.salt h.time h.memory h.threads (length h.expected))
              h.expected)
    ]

-- What `HashPIN` writes before the salt: `argonVersion`, `pinMemory`, `pinTime` and `pinThreads`
-- in their places.
abbrev pub pin_hash_head : Text
pin_hash_head = codes "$argon2id$v=19$m=19456,t=2,p=1$"

-- The key that `HashPIN` derives, with the constants of the file.
abbrev pub pin_key : Crypto → Text → Text → Text
pin_key lib salt pin = lib.id_key pin salt 2 19456 1 32

-- `HashPIN` with the salt that it draws; `none` is its error.
unfoldable pub hash_pin : Crypto → Text → Text → Option Text
unfolding valid_pin
hash_pin lib salt pin =
    if valid_pin pin
    then some (
        pin_hash_head
        ++ (lib.encode_base64 salt ++ b'$' ∷ lib.encode_base64 (pin_key lib salt pin)))
    else none
