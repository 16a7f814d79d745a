-- ===== src/Examples/Profiles.antt =====
-- A repo report whose collateral covers its exposure, an eligibility report of three holders, and two
-- manifests.
use canton_assurance_layer.Prelude.{
  ℕ, List, ◌≤◌, ◌≡◌, refl, [], ◌∷◌, ◌++◌, codes, amount, get, ◌↔◌, strip_prefix, ok, text_eq,
}
use canton_assurance_layer.Report.Manifest as Fields
use canton_assurance_layer.Report.Profile as Profile
use canton_assurance_layer.Report.Profile.Registry as Registry
use canton_assurance_layer.Report.Document.{Report, Disclosure, Manifest}
use canton_assurance_layer.Report.Manifest.Diff.{diff}
use canton_assurance_layer.Report.Manifest.Changes.{diff-empty}
use canton_assurance_layer.Report.Profile.Rules.{Coverage}
use canton_assurance_layer.Report.Profile.Registry.{collateral_repo, eligibility_holder}
use canton_assurance_layer.Report.Profile.{validate, saturating_mul, one}
use canton_assurance_layer.Report.Profile.Satisfied.{validate-covered, validate-unanimous}
use canton_assurance_layer.Examples.Reports.{a_report}

abbrev repo_report : Report
repo_report =
    a_report (codes "collateral.repo") (codes "root") 2
      ((codes "collateral/USD", 120) ∷ (codes "exposure/USD", 100) ∷ [])

repo_validates : validate repo_report ≡ ok collateral_repo
unfolding text_eq Profile.is_wildcard Profile.aggregate_present Profile.check_aggregate
    Profile.check_covered Profile.check_coverage Profile.check_rules Profile.validate
    Registry.find_name Registry.lookup strip_prefix
repo_validates = refl

abbrev covers : Coverage
covers = record { covering = codes "collateral"; covered = codes "exposure" }

validate-covered_example :
    amount (covers.covered ++ b'/' ∷ codes "USD") repo_report.root_sums
    ≤ amount (covers.covering ++ b'/' ∷ codes "USD") repo_report.root_sums
validate-covered_example =
    validate-covered repo_report collateral_repo covers (codes "USD") repo_validates refl

abbrev holders_report : Report
holders_report =
    a_report (codes "eligibility.holder") (codes "root") 3
      ((codes "attested/kyc", 3_000_000_000_000_000_000) ∷ [])

holders_validate : validate holders_report ≡ ok eligibility_holder
unfolding text_eq Profile.is_wildcard Profile.aggregate_present Profile.check_aggregate
    Profile.check_coverage Profile.saturating_mul Profile.check_total Profile.check_unanimous
    Profile.check_rules Profile.validate Registry.find_name Registry.lookup strip_prefix
holders_validate = refl

validate-unanimous_example :
    3_000_000_000_000_000_000 ≡ saturating_mul holders_report.leaf_count one
unfolding text_eq Fields.contains
validate-unanimous_example =
    validate-unanimous holders_report eligibility_holder (codes "attested") (codes "kyc")
      3_000_000_000_000_000_000 holders_validate refl refl

abbrev stricter : Manifest
stricter = record {
  audience = codes "public";
  fields =
      (codes "mark_prices", Disclosure.withheld) ∷ (codes "root_sums", Disclosure.committed) ∷ [];
}

abbrev looser : Manifest
looser = record {
  audience = codes "auditor";
  fields = (codes "root_sums", Disclosure.published) ∷ [];
}

diff-empty_example :
    (diff looser stricter ≡ []) ↔ ((k : List ℕ) → get k looser.fields ≡ get k stricter.fields)
diff-empty_example = diff-empty looser stricter
