-- ===== src/Report/Sign.antt =====
-- rust/solvency-report/src/sign.rs: detached Ed25519 signatures over a digest.
use canton_assurance_layer.Prelude.{
  ℕ, ◌≡◌, Option, none, some, Text, Bytes, length, ◌==◌, if◌then◌else◌, Result, ok, ok_or, ensure,
  and_then, ◌>>=◌, ◌>>◌,
}
use canton_assurance_layer.Primitives.{Primitives, IsLawful}

pub data SignatureError : Type 0 where
  malformed_public_key malformed_signature bad_signature : SignatureError

-- A key is held by its seed.
pub record ReportSigner : Type 0 where
  pub seed : Bytes

module _ (p : Primitives) where
  unfoldable pub public_key_hex : ReportSigner → Text
  public_key_hex signer = p.hex_encode (p.verifying_key signer.seed)

  unfoldable pub sign_digest : ReportSigner → Bytes → Text
  sign_digest signer digest = p.hex_encode (p.sign signer.seed digest)

  -- `decode::<N>`
  unfoldable pub decode : ℕ → Text → Option Bytes
  decode n hex =
      and_then (p.hex_decode hex) (λ bytes. if length bytes == n then some bytes else none)

  unfoldable pub verify_signature : Text → Bytes → Text → Result SignatureError (Unit {0})
  verify_signature public_key_hex digest signature_hex = do
    key ← ok_or (decode 32 public_key_hex) malformed_public_key
    sig ← ok_or (decode 64 signature_hex) malformed_signature
    ensure (p.is_key key) malformed_public_key
    ensure (p.verify key digest sig) bad_signature

  -- A signature that the signer makes verifies under the key that the signer publishes.
  pub verify-sign_digest :
      IsLawful p
      → (signer : ReportSigner) (digest : Bytes)
      → verify_signature (public_key_hex signer) digest (sign_digest signer digest) ≡ ok tt
  unfolding verify_signature public_key_hex sign_digest decode
  verify-sign_digest l signer digest = rw (
    l.hex_round_trip (p.verifying_key signer.seed) (l.key_bytes signer.seed),
    l.hex_round_trip (p.sign signer.seed digest) (l.signature_bytes signer.seed digest),
    l.key_length signer.seed,
    l.signature_length signer.seed digest,
    l.key_accepted signer.seed,
    l.signature_accepted signer.seed digest,
  )
