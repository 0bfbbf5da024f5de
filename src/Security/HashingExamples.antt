-- ===== src/Security/HashingExamples.antt =====
-- The round trip of a PIN, with an encoding that shifts bytes and a key of one repeated byte.
use family_dashboard.Common.{
  ℕ, zero, suc, ◌+◌, ◌-◌, ◌≡◌, refl, ap, true, false, ◌&&◌, none, some, [], ◌∷◌, ◌==◌, arith, map,
  Text, codes, length, text_eq, AllRows, byte_length,
}
use family_dashboard.Security.{Crypto, valid_pin, verify_pin, hash_pin, pin_key}
use family_dashboard.Security.Hashing.{verify_pin-hash_pin}

abbrev shift_up : Text → Text
shift_up bytes = map (λ (c : ℕ). c + 100) bytes

abbrev shift_down : Text → Text
shift_down text = map (λ (c : ℕ). c - 100) text

abbrev fill : ℕ → ℕ → Text
fill zero c = []
fill (suc n) c = c ∷ fill n c

abbrev first : Text → ℕ
first [] = 0
first (c ∷ s) = c

-- The key repeats the first digit of the PIN.
abbrev pub shifted : Crypto
shifted = record {
  encode_base64 = shift_up;
  decode_base64 = λ text. some (shift_down text);
  id_key = λ pin salt t m p n. fill n (first pin);
}

shift-inverse : (b : Text) → shift_down (shift_up b) ≡ b
shift-inverse [] = refl
shift-inverse (c ∷ b) = ground (arith, shift-inverse b)

pub shifted_decodes : (b : Text) → shifted.decode_base64 (shifted.encode_base64 b) ≡ some b
shifted_decodes b = ap some (shift-inverse b)

pub shifted_alphabet :
    (b : Text) → AllRows (λ (c : ℕ). (c == b'$') ≡ false) (shifted.encode_base64 b)
shifted_alphabet [] = tt
shifted_alphabet (c ∷ b) = (ground arith, shifted_alphabet b)

length-fill : (n c : ℕ) → length (fill n c) ≡ n
length-fill zero c = refl
length-fill (suc n) c = ap suc (length-fill n c)

pub shifted_key_length :
    (pin salt : Text) (t m p n : ℕ) → length (shifted.id_key pin salt t m p n) ≡ n
shifted_key_length pin salt t m p n = length-fill n (first pin)

abbrev pub sample_salt : Text
sample_salt = codes "sixteen bytes ok"

abbrev hashed_text : Text
hashed_text = elim (hash_pin shifted sample_salt (codes "1234")) [ none ↦ [] | some t ↦ t ]

hash_ran : hash_pin shifted sample_salt (codes "1234") ≡ some hashed_text
unfolding hash_pin byte_length
hash_ran = refl

verify_pin-hash_pin_example :
    (verify_pin shifted hashed_text (codes "1234") ≡ some true)
    × ((other : Text)
        → verify_pin shifted hashed_text other
          ≡ some (
              valid_pin other
              && text_eq
                  (pin_key shifted sample_salt other)
                  (pin_key shifted sample_salt (codes "1234"))))
verify_pin-hash_pin_example =
    verify_pin-hash_pin shifted shifted_decodes shifted_alphabet shifted_key_length sample_salt
      (codes "1234") hashed_text refl hash_ran
