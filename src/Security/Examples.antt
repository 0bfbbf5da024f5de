-- ===== src/Security/Examples.antt =====
-- The check of a PIN with a decoder that gives sixteen bytes and a key that is always the same.
use family_dashboard.Common.{◌≡◌, refl, true, some, Text, codes, byte_length, text_eq}
use family_dashboard.Security.{Crypto, valid_pin, verify_pin}

abbrev pub key : Text
key = codes "0123456789abcdef"

abbrev pub plain : Crypto
plain = record {
  encode_base64 = λ t. t;
  decode_base64 = λ t. some key;
  id_key = λ pin salt t m p n. key;
}

abbrev pub stored : Text
stored = codes "$argon2id$v=19$m=19456,t=2,p=1$c2FsdA$a2V5"

pub stored_verifies : verify_pin plain stored (codes "1234") ≡ some true
unfolding verify_pin valid_pin text_eq byte_length
stored_verifies = refl
