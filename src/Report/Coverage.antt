-- ===== src/Report/Coverage.antt =====
-- rust/solvency-report/src/coverage.rs: a custody report against a liabilities report.
pub mod Outcome
use canton_assurance_layer.Prelude.{
  ℕ, ◌-◌, Bool, not, List, [], ◌∷◌, Option, none, some, Text, codes, text_eq, ltb, leb, all,
  BTreeMap, amount, Result, ok, err, ok_or, ensure, map_err, ◌>>=◌, ◌>>◌, map, if◌then◌else◌,
}
use canton_assurance_layer.Primitives.{Primitives}
use canton_assurance_layer.Merkle.Encoding.{qualified}
use canton_assurance_layer.Report.Document.{SignedReport}
use canton_assurance_layer.Report.Digest.{report_digest, report_digest_hex}
use canton_assurance_layer.Report.Sign.{verify_signature}
use canton_assurance_layer.Report.Instant.{skew}
use canton_assurance_layer.Report.Verify.Failure.{
  VerificationFailure, digest_mismatch, unknown_signer, profile, expected_profile, malformed,
  not_a_timestamp, temporal_mismatch,
}
use canton_assurance_layer.Report.Verify.Checks.{expect_version}
use canton_assurance_layer.Report.Verify.Fold.{signature_failure}

abbrev pub coverage_format_version : Text
coverage_format_version = codes "canton-solvency-coverage-v1"

abbrev pub exact : ℕ
exact = 0

abbrev pub same_run : ℕ
same_run = 300

pub record CoverageStatement : Type 0 where
  pub format_version : Text
  pub custody_report_digest : Text
  pub liabilities_report_digest : Text
  pub custody_basis : Text

pub record AssetCoverage : Type 0 where
  pub asset : Text
  pub held : ℕ
  pub owed : ℕ

unfoldable pub covered : AssetCoverage → Bool
covered a = leb a.owed a.held

-- `saturating_sub`
unfoldable pub shortfall : AssetCoverage → ℕ
shortfall a = a.owed - a.held

pub record CoverageOutcome : Type 0 where
  pub assets : List AssetCoverage

unfoldable pub fully_covered : CoverageOutcome → Bool
fully_covered outcome = all covered outcome.assets

-- `iter().filter`
unfoldable pub uncovered : List AssetCoverage → List AssetCoverage
uncovered [] = []
uncovered (a ∷ l) = let rest = uncovered l in if covered a then rest else a ∷ rest

unfoldable pub shortfalls : CoverageOutcome → List AssetCoverage
shortfalls outcome = uncovered outcome.assets

unfoldable pub expect_profile : SignedReport → Text → Result VerificationFailure (Unit {0})
expect_profile signed wanted =
    ensure (text_eq signed.report.profile wanted)
      (profile (expected_profile wanted signed.report.profile))

-- The loop over what is owed.
unfoldable pub compare_assets : BTreeMap ℕ → BTreeMap ℕ → List AssetCoverage
compare_assets custody [] = []
compare_assets custody ((asset, owed) ∷ liabilities) =
    (record { asset = asset; held = amount (qualified (codes "held") asset) custody; owed = owed })
    ∷ compare_assets custody liabilities

module _ (p : Primitives) where
  unfoldable pub check_signature : SignedReport → Text → Result VerificationFailure (Unit {0})
  check_signature signed trusted_key = do
    ensure (text_eq signed.signature.public_key trusted_key) unknown_signer
    map_err signature_failure
        (verify_signature p trusted_key (report_digest p signed.report) signed.signature.value)

  unfoldable pub verify_coverage :
      SignedReport
      → SignedReport
      → CoverageStatement
      → Text
      → Text
      → ℕ
      → Result VerificationFailure CoverageOutcome
  verify_coverage custody liabilities statement custody_key liabilities_key max_skew_seconds = do
    expect_version (codes "coverage.format_version") statement.format_version
        coverage_format_version
    expect_profile custody (codes "coverage.custody")
    expect_profile liabilities (codes "solvency.liabilities")
    ensure (text_eq (report_digest_hex p custody.report) statement.custody_report_digest)
        digest_mismatch
    ensure (text_eq (report_digest_hex p liabilities.report) statement.liabilities_report_digest)
        digest_mismatch
    check_signature custody custody_key
    check_signature liabilities liabilities_key
    apart ←
        ok_or (skew custody.report.snapshot_time liabilities.report.snapshot_time) (
          malformed (not_a_timestamp custody.report.snapshot_time liabilities.report.snapshot_time))
    ensure (not (ltb max_skew_seconds apart)) (temporal_mismatch apart max_skew_seconds)
    ok (record { assets = compare_assets custody.report.root_sums liabilities.report.root_sums })
