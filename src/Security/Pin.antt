-- ===== src/Security/Pin.antt =====
-- What VerifyPIN of internal/security/pin.go accepts.
use family_dashboard.Common.{
  ℕ, ◌≡◌, ◌≤◌, inl, inr, refl, true, ◌&&◌, Option, none, some, List, [], ◌∷◌, arith, Text, codes,
  length, text_eq, text_eq_iff, byte_length, leb, Option-cases, Bool-cases,
}
use family_dashboard.Security.{
  Crypto, PinHash, all_digits, valid_pin, split, parse_named_uint, params_fit, keyed, decoded_hash,
  parse_values, is_argon_version, parse_parts, parse_pin_hash, verify_pin, ◌>>=◌,
}

digits-byte_length : (s : Text) → all_digits s ≡ true → byte_length s ≡ length s
unfolding all_digits byte_length
digits-byte_length [] h = refl
digits-byte_length (c ∷ s) h = ground (arith, digits-byte_length s)

-- The limits within which a stored hash is taken.
pub Fits : PinHash → Type 0
Fits h =
    (params_fit h.memory h.time h.threads ≡ true)
    × (16 ≤ length h.salt)
    × (16 ≤ length h.expected)
    × (length h.expected ≤ 64)

keyed-Fits :
    (m t p : ℕ) (salt expected : Text) (h : PinHash)
    → params_fit m t p ≡ true
    → keyed m t p salt expected ≡ some h
    → Fits h
unfolding keyed Fits
keyed-Fits m t p salt expected h fit e =
    elim (Bool-cases
      (leb 16 (length salt) && leb 16 (length expected) && leb (length expected) 64)) [
        | inl b ↦ (ground arith, ground arith, ground arith, ground arith)
        | inr b ↦ absurd (ground arith)
      ]

decoded_hash-Fits :
    (lib : Crypto) (m t p : ℕ) (salt expected : Text) (h : PinHash)
    → decoded_hash lib m t p salt expected ≡ some h
    → Fits h
unfolding decoded_hash
decoded_hash-Fits lib m t p salt expected h e = elim (Bool-cases (params_fit m t p)) [
  | inr b ↦ absurd (ground arith)
  | inl b ↦ elim (Option-cases (lib.decode_base64 salt)) [
    | inl n ↦ absurd (ground arith)
    | inr (s, es) ↦ elim (Option-cases (lib.decode_base64 expected)) [
      | inl n ↦ absurd (ground arith)
      | inr (k, ek) ↦ keyed-Fits m t p s k h b (ground arith)
    ]
  ]
]

bound {ℓ κ} :
    {A : Type ℓ} {B : Type κ} (o : Option A) (f : A → Option B) (b : B)
    → (o >>= f) ≡ some b
    → (a : A) × (f a ≡ some b)
bound none f b h = absurd (ground arith)
bound (some a) f b h = (a, h)

parse_values-Fits :
    (lib : Crypto) (parts : List Text) (salt expected : Text) (h : PinHash)
    → parse_values lib parts salt expected ≡ some h
    → Fits h
unfolding parse_values
parse_values-Fits lib (m ∷ t ∷ p ∷ []) salt expected h e =
    let (memory, e1) = bound (parse_named_uint m b'm') _ h e in
    let (iterations, e2) = bound (parse_named_uint t b't') _ h e1 in
    let (parallelism, e3) = bound (parse_named_uint p b'p') _ h e2 in
    decoded_hash-Fits lib memory iterations parallelism salt expected h e3
parse_values-Fits lib [] salt expected h e = absurd (ground arith)
parse_values-Fits lib (m ∷ []) salt expected h e = absurd (ground arith)
parse_values-Fits lib (m ∷ t ∷ []) salt expected h e = absurd (ground arith)
parse_values-Fits lib (m ∷ t ∷ p ∷ x ∷ xs) salt expected h e = absurd (ground arith)

parse_parts-Fits :
    (lib : Crypto) (parts : List Text) (h : PinHash) → parse_parts lib parts ≡ some h → Fits h
unfolding parse_parts
parse_parts-Fits lib (z ∷ name ∷ version ∷ values ∷ salt ∷ expected ∷ []) h e =
    elim (Bool-cases
      (text_eq name (codes "argon2id") && is_argon_version (parse_named_uint version b'v'))) [
        | inl b ↦ parse_values-Fits lib (split b',' values) salt expected h (ground arith)
        | inr b ↦ absurd (ground arith)
      ]
parse_parts-Fits lib [] h e = absurd (ground arith)
parse_parts-Fits lib (a ∷ []) h e = absurd (ground arith)
parse_parts-Fits lib (a ∷ b ∷ []) h e = absurd (ground arith)
parse_parts-Fits lib (a ∷ b ∷ c ∷ []) h e = absurd (ground arith)
parse_parts-Fits lib (a ∷ b ∷ c ∷ d ∷ []) h e = absurd (ground arith)
parse_parts-Fits lib (a ∷ b ∷ c ∷ d ∷ f ∷ []) h e = absurd (ground arith)
parse_parts-Fits lib (a ∷ b ∷ c ∷ d ∷ f ∷ g ∷ i ∷ xs) h e = absurd (ground arith)

-- `VerifyPIN` accepts only a PIN of four digits, against a stored hash that parses within the
-- limits on memory, time, threads, salt and key, and only if the derived key is the stored one.
pub verify_pin-accepted :
    (lib : Crypto) (encoded pin : Text)
    → verify_pin lib encoded pin ≡ some true
    → (all_digits pin ≡ true)
      × (length pin ≡ 4)
      × ((h : PinHash) × (parse_pin_hash lib encoded ≡ some h)
          × Fits h
          × (lib.id_key pin h.salt h.time h.memory h.threads (length h.expected) ≡ h.expected))
unfolding verify_pin parse_pin_hash valid_pin
verify_pin-accepted lib encoded pin e = elim (Bool-cases (valid_pin pin)) [
  | inr b ↦ absurd (ground arith)
  | inl b ↦ elim (Option-cases (parse_pin_hash lib encoded)) [
    | inl n ↦ absurd (ground arith)
    | inr (h, k) ↦ (
      ground arith,
      ground (arith, digits-byte_length pin),
      (
        h,
        k,
        parse_parts-Fits lib (split b'$' encoded) h k,
        (text_eq_iff (lib.id_key pin h.salt h.time h.memory h.threads (length h.expected))
              h.expected).0
            (ground arith),
      ),
    )
  ]
]
