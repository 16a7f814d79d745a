-- ===== src/Report/Verify/Failure.antt =====
-- rust/solvency-report/src/verify.rs: `VerificationFailure`. A `detail` or `Malformed` message is a
-- constructor of its own.
use canton_assurance_layer.Prelude.{ℕ, List, Text}
use canton_assurance_layer.Report.Document.{Disclosure}
use canton_assurance_layer.Report.Profile.{ProfileError, LeafKind}
use canton_assurance_layer.Report.Sign.{SignatureError}
use canton_assurance_layer.Merkle.Encoding.{MerkleError}

-- assurance.rs: the kinds of evidence, which `OverClaimed` quotes.
pub data AssuranceLevel : Type 0 where
  not_disclosed claimed_only issuer_attested third_party_attested ledger_derived : AssuranceLevel
  cryptographically_verified : AssuranceLevel

pub data ProfileDetail : Type 0 where
  invalid : ProfileError → ProfileDetail
  wrong_leaf_kind : Text → LeafKind → LeafKind → ProfileDetail
  not_v2_leaf : Text → LeafKind → ProfileDetail
  leaf_map_missing : Text → Text → Text → ProfileDetail
  expected_profile : Text → Text → ProfileDetail

pub data PresenceDetail : Type 0 where
  v1_with_manifest v2_without_manifest : PresenceDetail

pub data ManifestDetail : Type 0 where
  undefined_field published_without_data : ManifestDetail
  published_anyway : Disclosure → ManifestDetail

pub data ProvenanceDetail : Type 0 where
  shared_id no_basis : Text → ProvenanceDetail
  undefined_field declared_twice no_sources : ProvenanceDetail
  undeclared_source : Text → ProvenanceDetail
  no_derivation all_off_ledger : ProvenanceDetail

pub data Malformed : Type 0 where
  not_32_bytes : Text → Malformed
  bad_leaf : MerkleError → Malformed
  sum_overflow : Text → Malformed
  bad_signature_document : SignatureError → Malformed
  unsubstantiated_field : Text → Malformed
  not_a_timestamp : Text → Text → Malformed

pub data VerificationFailure : Type 0 where
  unsupported_version : Text → Text → VerificationFailure
  digest_mismatch unknown_signer bad_signature root_hash_mismatch : VerificationFailure
  root_sums_mismatch : Text → VerificationFailure
  entity_root_mismatch : VerificationFailure
  entity_sums_mismatch : Text → VerificationFailure
  profile : ProfileDetail → VerificationFailure
  manifest_presence : PresenceDetail → VerificationFailure
  manifest_inconsistent : Text → ManifestDetail → VerificationFailure
  over_claimed : Text → AssuranceLevel → List AssuranceLevel → VerificationFailure
  provenance_inconsistent : Text → ProvenanceDetail → VerificationFailure
  -- the seconds apart, and the seconds allowed
  temporal_mismatch : ℕ → ℕ → VerificationFailure
  malformed : Malformed → VerificationFailure
