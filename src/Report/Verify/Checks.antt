-- ===== src/Report/Verify/Checks.antt =====
-- rust/solvency-report/src/verify.rs: the checks of a report that come before its digest.
use canton_assurance_layer.Prelude.{
  Bool, not, Option, none, some, Text, Bytes, codes, text_eq, ◌==◌, length, if◌then◌else◌, and_then,
  Result, ok, err, ok_or, ensure, for_each, map_err, ◌>>=◌, ◌>>◌,
}
use canton_assurance_layer.Primitives.{Primitives}
use canton_assurance_layer.Report.Document.{
  Disclosure, published, committed, withheld, Manifest, Report, report_format_version,
  report_format_version_v2,
}
use canton_assurance_layer.Report.Manifest.{
  known_fields, report_resident_fields, contains, carries_data,
}
use canton_assurance_layer.Report.Profile.{
  LeafKind, ProfileRules, uses_leaf_v2, leaf_kind_eq, validate,
}
use canton_assurance_layer.Report.Verify.Failure.{
  VerificationFailure, unsupported_version, profile, invalid, wrong_leaf_kind, not_v2_leaf,
  manifest_presence, v1_with_manifest, v2_without_manifest, manifest_inconsistent, ManifestDetail,
  published_without_data, published_anyway, malformed, not_32_bytes,
}

unfoldable pub hash32 : Primitives → Text → Text → Result VerificationFailure Bytes
hash32 p hex_str what =
    ok_or (and_then (p.hex_decode hex_str) (λ b. if length b == 32 then some b else none))
      (malformed (not_32_bytes what))

unfoldable pub expect_version : Text → Text → Text → Result VerificationFailure (Unit {0})
expect_version field found want = ensure (text_eq found want) (unsupported_version field found)

unfoldable pub validated_profile : Report → Result VerificationFailure ProfileRules
validated_profile report = map_err (λ e. profile (invalid e)) (validate report)

unfoldable pub expect_leaf_kind : Report → LeafKind → Result VerificationFailure (Unit {0})
expect_leaf_kind report wanted = do
  rules ← validated_profile report
  ensure (leaf_kind_eq rules.leaf wanted) (profile (wrong_leaf_kind rules.name rules.leaf wanted))

unfoldable pub expect_leaf_v2 : Report → Result VerificationFailure (Unit {0})
expect_leaf_v2 report = do
  rules ← validated_profile report
  ensure (uses_leaf_v2 rules.leaf) (profile (not_v2_leaf rules.name rules.leaf))

-- The `match` on the declared state of a resident field.
unfoldable pub check_state : Text → Disclosure → Bool → Result VerificationFailure (Unit {0})
check_state path published carried =
    ensure carried (manifest_inconsistent path published_without_data)
check_state path committed carried =
    ensure (not carried) (manifest_inconsistent path (published_anyway committed))
check_state path withheld carried =
    ensure (not carried) (manifest_inconsistent path (published_anyway withheld))

-- One round of `check_manifest_consistency`.
unfoldable pub check_field : Report → Text × Disclosure → Result VerificationFailure (Unit {0})
check_field report (path, state) = do
  ensure (contains known_fields path) (manifest_inconsistent path ManifestDetail.undefined_field)
  (if contains report_resident_fields path
      then check_state path state (carries_data report path)
      else ok tt)

unfoldable pub check_manifest_consistency :
    Report → Manifest → Result VerificationFailure (Unit {0})
check_manifest_consistency report manifest = for_each (check_field report) manifest.fields

-- The two arms of the `match` on the version.
unfoldable pub check_v1 : Option Manifest → Result VerificationFailure (Unit {0})
check_v1 none = ok tt
check_v1 (some manifest) = err (manifest_presence v1_with_manifest)

unfoldable pub check_v2 : Report → Option Manifest → Result VerificationFailure (Unit {0})
check_v2 report none = err (manifest_presence v2_without_manifest)
check_v2 report (some manifest) = check_manifest_consistency report manifest

unfoldable pub check_report_version_and_manifest : Report → Result VerificationFailure (Unit {0})
check_report_version_and_manifest report =
    if text_eq report.format_version report_format_version
    then check_v1 report.manifest
    else if text_eq report.format_version report_format_version_v2
    then check_v2 report report.manifest
    else err (unsupported_version (codes "report.format_version") report.format_version)
