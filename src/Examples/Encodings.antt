-- ===== src/Examples/Encodings.antt =====
-- Amounts, maps, leaves, signatures and timestamps on concrete inputs.
use canton_assurance_layer.Prelude.{
  cmp, ℕ, ◌<◌, ◌≡◌, ◌↔◌, ◌⊎◌, refl, arith, [], ◌∷◌, Bytes, codes, BTreeMap, u128_mod, ok, replicate,
}
use canton_assurance_layer.Primitives.{CollisionIn}
use canton_assurance_layer.Merkle.Leaf.{leaf_preimage_v2}
use canton_assurance_layer.Merkle.Amount.{parse_amount_18dp, format_amount_18dp}
use canton_assurance_layer.Merkle.Amount.RoundTrip.{parse-format}
use canton_assurance_layer.Merkle.Amount.Grammar.{Spells, parse-Spells}
use canton_assurance_layer.Merkle.Encoding.{is_safe_name}
use canton_assurance_layer.Merkle.Encoding.Prefix.{Fits, lpmap_inj}
use canton_assurance_layer.Merkle.Leaf.{AmountMaps, leaf_hash_v2, check_map}
use canton_assurance_layer.Merkle.Leaf.Binding.{MapsFit, leaf_hash_v2-binding}
use canton_assurance_layer.Report.Sign.{
  ReportSigner, public_key_hex, sign_digest, verify_signature, verify-sign_digest,
}
use canton_assurance_layer.Report.Document.Codec.{
  serialize_maps, deserialize_maps, deserialize_maps-serialize_maps,
}
use canton_assurance_layer.Report.Instant.{skew}
use canton_assurance_layer.Report.Instant.Skew.{skew_comm}
use canton_assurance_layer.Examples.Crypto.{crypto, crypto-IsLawful, digest}
use canton_assurance_layer.Examples.Trees.{or_else}

abbrev one_and_half : ℕ
one_and_half = 1_500_000_000_000_000_000

amount_read_back : parse_amount_18dp (format_amount_18dp one_and_half) ≡ ok one_and_half
amount_read_back = parse-format one_and_half (omega arith)

parse-Spells_example :
    (parse_amount_18dp (codes "1.5") ≡ ok one_and_half)
    ↔ (Spells (codes "1.5") one_and_half × (one_and_half < u128_mod))
parse-Spells_example = parse-Spells (codes "1.5") one_and_half

abbrev holdings : BTreeMap ℕ
holdings = (codes "BTC", one_and_half) ∷ (codes "USD", 7) ∷ []

holdings-Fits : Fits holdings
holdings-Fits = record {
  count = omega arith;
  entries = ((omega arith, omega arith), ((omega arith, omega arith), tt));
}

prefix_split : (holdings ≡ holdings) × (codes "rest" ≡ codes "rest")
prefix_split =
    lpmap_inj holdings holdings (codes "rest") (codes "rest") holdings-Fits holdings-Fits refl

abbrev salt : Bytes
salt = replicate 32 3

abbrev maps : AmountMaps
maps = (codes "collateral", holdings) ∷ (codes "exposure", holdings) ∷ []

abbrev leaf_hash : Bytes
leaf_hash = or_else (leaf_hash_v2 crypto salt (codes "leg-1") maps) []

leaf_hashed : leaf_hash_v2 crypto salt (codes "leg-1") maps ≡ ok leaf_hash
unfolding leaf_hash_v2 check_map is_safe_name
leaf_hashed = refl

maps-MapsFit : MapsFit maps
maps-MapsFit = record {
  count = omega arith;
  each = ((omega arith, holdings-Fits), ((omega arith, holdings-Fits), tt));
}

leaf_hash_v2-binding_example :
    ((salt ≡ salt) × (codes "leg-1" ≡ codes "leg-1") × (maps ≡ maps))
    ⊎ CollisionIn crypto
        (leaf_preimage_v2 crypto salt (codes "leg-1") maps ∷ codes "leg-1" ∷ [])
        (leaf_preimage_v2 crypto salt (codes "leg-1") maps ∷ codes "leg-1" ∷ [])
leaf_hash_v2-binding_example =
    leaf_hash_v2-binding crypto crypto-IsLawful salt salt (codes "leg-1") (codes "leg-1") maps maps
      {hash = leaf_hash} refl refl maps-MapsFit maps-MapsFit leaf_hashed leaf_hashed

abbrev signer : ReportSigner
signer = record { seed = codes "seed" }

signature_verified :
    verify_signature crypto
      (public_key_hex crypto signer)
      (digest (codes "report"))
      (sign_digest crypto signer (digest (codes "report")))
    ≡ ok tt
signature_verified = verify-sign_digest crypto crypto-IsLawful signer (digest (codes "report"))

skew_swapped :
    skew (codes "2026-01-01T00:00:00Z") (codes "2026-01-01T00:04:00Z")
    ≡ skew (codes "2026-01-01T00:04:00Z") (codes "2026-01-01T00:00:00Z")
skew_swapped = skew_comm (codes "2026-01-01T00:00:00Z") (codes "2026-01-01T00:04:00Z")

abbrev reserves : BTreeMap (BTreeMap ℕ)
reserves = (codes "bank", holdings) ∷ (codes "vault", (codes "BTC", 7) ∷ []) ∷ []

deserialize_maps-serialize_maps_example : deserialize_maps (serialize_maps reserves) ≡ ok reserves
unfolding cmp
deserialize_maps-serialize_maps_example =
    deserialize_maps-serialize_maps reserves ((refl, tt), (tt, tt))
      (
        (((refl, tt), (tt, tt)), (omega arith, (omega arith, tt))),
        (((tt, tt), (omega arith, tt)), tt),
      )
