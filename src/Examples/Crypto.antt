-- ===== src/Examples/Crypto.antt =====
-- Functions to run the examples with, in place of the third-party crates: a checksum for SHA-256, a
-- keyed checksum for the signature, and hexadecimal as it is. They satisfy the laws that the
-- theorems name.
use canton_assurance_layer.Prelude.{
  ℕ, ◌+◌, ◌-◌, ◌*◌, ◌/◌, ◌%◌, ◌^◌, ◌<◌, ◌≡◌, refl, arith, true, ◌&&◌, [], ◌∷◌, ◌++◌, Option, none,
  some, Bytes, Text, IsBytes, text_eq, text_eq_refl, leb, ltb, if◌then◌else◌, le_bytes, and_then,
  le_bytes-IsBytes,
}
use canton_assurance_layer.Primitives.{Primitives, IsLawful}

unfoldable pub checksum : ℕ → Bytes → ℕ
checksum h [] = h
checksum h (c ∷ s) = checksum ((h * 257 + c + 1) % 2 ^ 256) s

abbrev pub digest : Bytes → Bytes
digest s = le_bytes 32 (checksum 7 s)

unfoldable pub hex_digit : ℕ → ℕ
hex_digit d = if ltb d 10 then 48 + d else 87 + d

unfoldable pub digit_value : ℕ → Option ℕ
digit_value c =
    if leb 48 c && leb c 57
    then some (c - 48)
    else if leb 97 c && leb c 102
    then some (c - 87)
    else if leb 65 c && leb c 70
    then some (c - 55)
    else none

unfoldable pub hex_encode : Bytes → Text
hex_encode [] = []
hex_encode (b ∷ s) = hex_digit (b / 16) ∷ hex_digit (b % 16) ∷ hex_encode s

unfoldable pub hex_decode : Text → Option Bytes
hex_decode [] = some []
hex_decode (c ∷ []) = none
hex_decode (c ∷ d ∷ s) = and_then (digit_value c) (λ high.
    and_then (digit_value d)
      (λ low. and_then (hex_decode s) (λ rest. some ((16 * high + low) ∷ rest))))

digit_value-hex_digit : (d : ℕ) → d < 16 → digit_value (hex_digit d) ≡ some d
unfolding digit_value hex_digit
digit_value-hex_digit d h = ground arith

hex_decode-hex_encode : (s : Bytes) → IsBytes s → hex_decode (hex_encode s) ≡ some s
unfolding hex_decode hex_encode
hex_decode-hex_encode [] h = refl
hex_decode-hex_encode (b ∷ s) (h, hs) =
    rw
      (
        digit_value-hex_digit (b / 16) (omega arith),
        digit_value-hex_digit (b % 16) (omega arith),
        hex_decode-hex_encode s hs,
      )
      (let e : 16 * (b / 16) + b % 16 ≡ b = omega arith in cc e)

abbrev pub crypto : Primitives
crypto = record {
  sha256 = digest;
  hmac_sha256 = λ key m. digest (key ++ m);
  hex_encode = hex_encode;
  hex_decode = hex_decode;
  verifying_key = digest;
  sign = λ seed m. le_bytes 64 (checksum 9 (digest seed ++ m));
  is_key = λ k. true;
  verify = λ k m s. text_eq s (le_bytes 64 (checksum 9 (k ++ m)));
}

pub crypto-IsLawful : IsLawful crypto
unfolding le_bytes
crypto-IsLawful = record {
  sha256_length = λ b. refl;
  sha256_bytes = λ b. le_bytes-IsBytes 32 (checksum 7 b);
  hex_round_trip = hex_decode-hex_encode;
  key_length = λ s. refl;
  key_bytes = λ s. le_bytes-IsBytes 32 (checksum 7 s);
  signature_length = λ s m. refl;
  signature_bytes = λ s m. le_bytes-IsBytes 64 (checksum 9 (digest s ++ m));
  key_accepted = λ s. refl;
  signature_accepted = λ s m. text_eq_refl (le_bytes 64 (checksum 9 (digest s ++ m)));
}
