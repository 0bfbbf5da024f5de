-- ===== src/Security/Hashing.antt =====
-- HashPIN of internal/security/pin.go against VerifyPIN.
use family_dashboard.Common.{
  ℕ, ◌≡◌, inl, inr, refl, ap, ◌∙◌, true, false, ◌&&◌, some, List, [], ◌∷◌, ◌++◌, ◌==◌, arith, Text,
  codes, length, text_eq, text_eq_refl, AllRows, Bool-cases,
}
use family_dashboard.Security.{
  Crypto, valid_pin, split, parse_parts, parse_pin_hash, decoded_hash, verify_pin, hash_pin,
  pin_hash_head, pin_key,
}

Free : ℕ → Text → Type 0
Free sep s = AllRows (λ (c : ℕ). (c == sep) ≡ false) s

split-Free : (sep : ℕ) (s : Text) → Free sep s → split sep s ≡ s ∷ []
unfolding split Free
split-Free sep [] h = refl
split-Free sep (c ∷ s) h = ground (arith, split-Free sep s h.1)

split-append :
    (sep : ℕ) (s rest : Text) → Free sep s → split sep (s ++ sep ∷ rest) ≡ s ∷ split sep rest
unfolding split Free
split-append sep [] rest h = ground arith
split-append sep (c ∷ s) rest h = ground (arith, split-append sep s rest h.1)

module _ (lib : Crypto) (decodes : (b : Text) → lib.decode_base64 (lib.encode_base64 b) ≡ some b)
    (alphabet : (b : Text) → AllRows (λ (c : ℕ). (c == b'$') ≡ false) (lib.encode_base64 b))
    (key_length : (pin salt : Text) (t m p n : ℕ) → length (lib.id_key pin salt t m p n) ≡ n) where
  split-hash :
      (salt key : Text)
      → split b'$' (lib.encode_base64 salt ++ b'$' ∷ lib.encode_base64 key)
        ≡ lib.encode_base64 salt ∷ lib.encode_base64 key ∷ []
  unfolding Free
  split-hash salt key =
      split-append b'$' (lib.encode_base64 salt) (lib.encode_base64 key) (alphabet salt)
      ∙ ap (λ (parts : List Text). lib.encode_base64 salt ∷ parts)
          (split-Free b'$' (lib.encode_base64 key) (alphabet key))

  split-head :
      (rest a b : Text)
      → split b'$' rest ≡ a ∷ b ∷ []
      → split b'$' (pin_hash_head ++ rest)
        ≡ [] ∷ codes "argon2id" ∷ codes "v=19" ∷ codes "m=19456,t=2,p=1" ∷ a ∷ b ∷ []
  unfolding split
  split-head rest a b h = rw h refl

  decoded :
      (salt key : Text)
      → length salt ≡ 16
      → length key ≡ 32
      → decoded_hash lib 19456 2 1 (lib.encode_base64 salt) (lib.encode_base64 key)
        ≡ some (record { memory = 19456; time = 2; threads = 1; salt = salt; expected = key })
  unfolding decoded_hash
  decoded salt key h k = ground (arith, decodes salt, decodes key)

  parse-hash :
      (salt key : Text)
      → length salt ≡ 16
      → length key ≡ 32
      → parse_pin_hash lib
          (pin_hash_head ++ (lib.encode_base64 salt ++ b'$' ∷ lib.encode_base64 key))
        ≡ some (record { memory = 19456; time = 2; threads = 1; salt = salt; expected = key })
  unfolding parse_pin_hash text_eq
  parse-hash salt key h k =
      ap (parse_parts lib) (
        split-head (lib.encode_base64 salt ++ b'$' ∷ lib.encode_base64 key) (lib.encode_base64 salt)
          (lib.encode_base64 key) (split-hash salt key))
      ∙ decoded salt key h k

  verifies :
      (salt pin other : Text)
      → length salt ≡ 16
      → verify_pin lib
          (pin_hash_head
            ++ (lib.encode_base64 salt ++ b'$' ∷ lib.encode_base64 (pin_key lib salt pin)))
          other
        ≡ some (valid_pin other && text_eq (pin_key lib salt other) (pin_key lib salt pin))
  unfolding verify_pin
  verifies salt pin other h = ground (
    arith,
    parse-hash salt (pin_key lib salt pin) h (key_length pin salt 2 19456 1 32),
    key_length pin salt 2 19456 1 32,
  )

  -- What `HashPIN` makes of a PIN, with a salt of sixteen bytes, `VerifyPIN` accepts with this PIN;
  -- with any other text it says whether that is a PIN from which the same key is derived. The
  -- hypotheses are that base64 decodes what it encodes, that it writes no `$`, and that Argon2id
  -- gives as many bytes as it is asked for.
  pub verify_pin-hash_pin :
      (salt pin encoded : Text)
      → length salt ≡ 16
      → hash_pin lib salt pin ≡ some encoded
      → (verify_pin lib encoded pin ≡ some true)
        × ((other : Text)
            → verify_pin lib encoded other
              ≡ some (valid_pin other && text_eq (pin_key lib salt other) (pin_key lib salt pin)))
  unfolding hash_pin
  verify_pin-hash_pin salt pin encoded h e = elim (Bool-cases (valid_pin pin)) [
    | inr f ↦ absurd (ground arith)
    | inl v ↦ (
      ground (arith, verifies salt pin pin h, text_eq_refl (pin_key lib salt pin)),
      λ other. ground (arith, verifies salt pin other h),
    )
  ]
