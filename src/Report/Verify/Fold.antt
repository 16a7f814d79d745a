-- ===== src/Report/Verify/Fold.antt =====
-- rust/solvency-report/src/verify.rs: the fold with typed failures, the comparison of the totals,
-- and the verifiers themselves.
use canton_assurance_layer.Prelude.{
  ℕ, Bool, false, not, List, [], ◌∷◌, ◌++◌, Option, none, some, Text, codes, text_eq, ◌==◌,
  if◌then◌else◌, BTreeMap, get, insert, amount, keys, is_empty, checked_add, Result, ok, err, ok_or,
  ensure, for_each, map_err, collect, ◌>>=◌, ◌>>◌,
}
use canton_assurance_layer.Primitives.{Primitives}
use canton_assurance_layer.Merkle.Node.{Node, node_hash}
use canton_assurance_layer.Merkle.Leaf.{leaf_node, leaf_node_v2}
use canton_assurance_layer.Merkle.Tree.{ProofStep}
use canton_assurance_layer.Report.Document.{
  Report, SignedReport, ProofStepDocument, ProofDocument, ProofDocumentV2, proof_format_version,
  proof_format_version_v2, signature_algorithm,
}
use canton_assurance_layer.Report.Digest.{report_digest}
use canton_assurance_layer.Report.Sign.{SignatureError, verify_signature}
use canton_assurance_layer.Report.Profile.{customer, ProfileRules}
use canton_assurance_layer.Report.Verify.Failure.{
  VerificationFailure, digest_mismatch, unknown_signer, root_hash_mismatch, root_sums_mismatch,
  profile, leaf_map_missing, malformed, Malformed, bad_leaf, bad_signature_document,
}
use canton_assurance_layer.Report.Verify.Checks.{
  hash32, expect_version, validated_profile, expect_leaf_kind, expect_leaf_v2,
  check_report_version_and_manifest,
}

unfoldable pub add_sums : BTreeMap ℕ → BTreeMap ℕ → Result VerificationFailure (BTreeMap ℕ)
add_sums sums [] = ok sums
add_sums sums ((asset, v) ∷ right) = do
  slot ← ok_or (checked_add (amount asset sums) v) (malformed (Malformed.sum_overflow asset))
  add_sums (insert asset slot sums) right

-- The first key, of either map, on which the totals differ.
unfoldable pub first_difference : List Text → BTreeMap ℕ → BTreeMap ℕ → Option Text
first_difference [] folded published = none
first_difference (asset ∷ assets) folded published =
    if amount asset folded == amount asset published
    then first_difference assets folded published
    else some asset

unfoldable pub first_sum_disagreement : BTreeMap ℕ → BTreeMap ℕ → Option Text
first_sum_disagreement folded published =
    first_difference (keys folded ++ keys published) folded published

abbrev pub no_disagreement : Option Text → Result VerificationFailure (Unit {0})
no_disagreement none = ok tt
no_disagreement (some asset) = err (root_sums_mismatch asset)

-- How `verify_against_report` reads a signature error.
abbrev pub signature_failure : SignatureError → VerificationFailure
signature_failure SignatureError.bad_signature = VerificationFailure.bad_signature
signature_failure other = malformed (bad_signature_document other)

module _ (p : Primitives) where
  unfoldable pub combine : Node → Node → Result VerificationFailure Node
  combine left right = do
    sums ← add_sums left.sums right.sums
    ok (record { hash = node_hash p left.hash right.hash sums; sums = sums })

  unfoldable pub fold : Node → List ProofStep → Result VerificationFailure Node
  fold current [] = ok current
  fold current (step ∷ steps) = do
    next ←
        (if step.sibling_on_left
          then combine step.sibling current
          else combine current step.sibling)
    fold next steps

  unfoldable pub decode_step : ProofStepDocument → Result VerificationFailure ProofStep
  decode_step step = do
    hash ← hash32 p step.sibling_hash (codes "sibling hash")
    ok (record {
      sibling = record { hash = hash; sums = step.sibling_sums };
      sibling_on_left = step.sibling_on_left;
    })

  -- The digest, the signer and the signature.
  unfoldable pub check_signed : SignedReport → Text → Text → Result VerificationFailure (Unit {0})
  check_signed signed expected_digest_hex trusted_public_key_hex = do
    let digest = report_digest p signed.report
    ensure (text_eq (p.hex_encode digest) expected_digest_hex) digest_mismatch
    ensure (text_eq signed.signature.public_key trusted_public_key_hex) unknown_signer
    map_err signature_failure
        (verify_signature p trusted_public_key_hex digest signed.signature.value)

  -- The fold and the comparison with the published root.
  unfoldable pub check_fold :
      Report → Node → List ProofStepDocument → Result VerificationFailure (Unit {0})
  check_fold report leaf documents = do
    steps ← collect decode_step documents
    root_hash ← hash32 p report.root_hash (codes "report root hash")
    folded ← fold leaf steps
    ensure (text_eq folded.hash root_hash) root_hash_mismatch
    no_disagreement (first_sum_disagreement folded.sums report.root_sums)

  unfoldable pub verify_against_report :
      SignedReport
      → Node
      → List ProofStepDocument
      → Text
      → Text
      → Result VerificationFailure (Unit {0})
  verify_against_report signed leaf steps expected_digest_hex trusted_public_key_hex = do
    check_signed signed expected_digest_hex trusted_public_key_hex
    check_fold signed.report leaf steps

  unfoldable pub verify :
      SignedReport → ProofDocument → Text → Result VerificationFailure (Unit {0})
  verify signed proof trusted_public_key_hex = do
    check_report_version_and_manifest signed.report
    expect_leaf_kind signed.report customer
    expect_version (codes "proof.format_version") proof.format_version proof_format_version
    expect_version (codes "signature.algorithm") signed.signature.algorithm signature_algorithm
    salt ← hash32 p proof.leaf.salt (codes "leaf salt")
    leaf ←
        map_err (λ e. malformed (bad_leaf e))
          (leaf_node p salt proof.leaf.user_id proof.leaf.balances)
    verify_against_report signed leaf proof.steps proof.report_digest trusted_public_key_hex

  -- `maps.get(required).is_some_and(|m| !m.is_empty())`
  abbrev pub carried : Option (BTreeMap ℕ) → Bool
  carried none = false
  carried (some m) = not (is_empty m)

  unfoldable pub check_leaf_map :
      ProfileRules → ProofDocumentV2 → Text → Result VerificationFailure (Unit {0})
  check_leaf_map rules proof required =
      ensure (carried (get required proof.leaf.maps))
        (profile (leaf_map_missing rules.name required proof.leaf.subject_id))

  unfoldable pub verify_v2 :
      SignedReport → ProofDocumentV2 → Text → Result VerificationFailure (Unit {0})
  verify_v2 signed proof trusted_public_key_hex = do
    check_report_version_and_manifest signed.report
    expect_leaf_v2 signed.report
    expect_version (codes "proof.format_version") proof.format_version proof_format_version_v2
    expect_version (codes "signature.algorithm") signed.signature.algorithm signature_algorithm
    rules ← validated_profile signed.report
    for_each (check_leaf_map rules proof) rules.required_leaf_maps
    salt ← hash32 p proof.leaf.salt (codes "leaf salt")
    leaf ←
        map_err (λ e. malformed (bad_leaf e))
          (leaf_node_v2 p salt proof.leaf.subject_id proof.leaf.maps)
    verify_against_report signed leaf proof.steps proof.report_digest trusted_public_key_hex
