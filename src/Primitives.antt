-- ===== src/Primitives.antt =====
-- The third-party code that the crates call: `sha2`, `hmac`, `hex` and `ed25519-dalek`. None of it
-- is under the repository, so it is a record of functions that every definition takes, with its
-- documented behaviour as laws that a theorem names where it rests on them.
use canton_assurance_layer.Prelude.{
  ◌≡◌, ◌≢◌, ◌⊎◌, List, ◌∷◌, Bool, true, Option, some, Bytes, Text, IsBytes, length,
}

pub record Primitives : Type 0 where
  -- `Sha256::digest`
  pub sha256 : Bytes → Bytes
  -- `Hmac::<Sha256>`: key, message
  pub hmac_sha256 : Bytes → Bytes → Bytes
  -- `hex::encode` and `hex::decode`
  pub hex_encode : Bytes → Text
  pub hex_decode : Text → Option Bytes
  -- `SigningKey::from_bytes(seed).verifying_key().to_bytes()`
  pub verifying_key : Bytes → Bytes
  -- `SigningKey::sign`: seed, message
  pub sign : Bytes → Bytes → Bytes
  -- whether `VerifyingKey::from_bytes` accepts the bytes
  pub is_key : Bytes → Bool
  -- `VerifyingKey::verify`: key, message, signature
  pub verify : Bytes → Bytes → Bytes → Bool

-- What the documentation of those crates promises.
pub record IsLawful (p : Primitives) : Type 0 where
  -- a SHA-256 digest is 32 bytes
  pub sha256_length : (b : Bytes) → length (p.sha256 b) ≡ 32
  pub sha256_bytes : (b : Bytes) → IsBytes (p.sha256 b)
  -- decoding undoes encoding
  pub hex_round_trip : (b : Bytes) → IsBytes b → p.hex_decode (p.hex_encode b) ≡ some b
  -- a verifying key is 32 bytes, a signature is 64
  pub key_length : (seed : Bytes) → length (p.verifying_key seed) ≡ 32
  pub key_bytes : (seed : Bytes) → IsBytes (p.verifying_key seed)
  pub signature_length : (seed m : Bytes) → length (p.sign seed m) ≡ 64
  pub signature_bytes : (seed m : Bytes) → IsBytes (p.sign seed m)
  -- what a key signs, its verifying key accepts
  pub key_accepted : (seed : Bytes) → p.is_key (p.verifying_key seed) ≡ true
  pub signature_accepted :
      (seed m : Bytes) → p.verify (p.verifying_key seed) m (p.sign seed m) ≡ true

-- The two inputs are different and have one digest.
abbrev pub Collision : Primitives → Bytes → Bytes → Type 0
Collision p a b = (a ≢ b) × (p.sha256 a ≡ p.sha256 b)

-- At some place, the inputs of the two lists are different and have one digest. A binding theorem
-- yields either the equation that it promises or such a place in the inputs that the code itself
-- hashes, so it assumes nothing of the hash.
abbrev pub CollisionIn : Primitives → List Bytes → List Bytes → Type 0
CollisionIn p (a ∷ first) (b ∷ second) = Collision p a b ⊎ CollisionIn p first second
CollisionIn p _ _ = ⊥
