-- ===== src/Report/Manifest.antt =====
-- rust/solvency-report/src/manifest.rs: the fields a manifest may speak of, what the report body
-- carries for them, and the difference of two manifests.
pub mod Diff
pub mod Changes
use canton_assurance_layer.Prelude.{
  ℕ, Bool, true, false, not, ◌&&◌, List, [], ◌∷◌, ◌++◌, Option, none, some, Text, codes, text_eq,
  ltb, if◌then◌else◌, BTreeMap, get, keys, is_empty, any,
}
use canton_assurance_layer.Report.Document.{
  Disclosure, published, committed, withheld, Manifest, Report,
}

abbrev pub as_str : Disclosure → Text
as_str published = codes "published"
as_str committed = codes "committed"
as_str withheld = codes "withheld"

-- The derived `==`.
abbrev pub disclosure_eq : Disclosure → Disclosure → Bool
disclosure_eq published published = true
disclosure_eq committed committed = true
disclosure_eq withheld withheld = true
disclosure_eq _ _ = false

abbrev pub report_resident_fields : List Text
report_resident_fields =
    codes "root_sums"
    ∷ codes "mark_prices"
    ∷ codes "disclosures.bad_debt"
    ∷ codes "disclosures.excluded_house_accounts"
    ∷ codes "disclosures.excluded_house_totals"
    ∷ []

abbrev pub known_fields : List Text
known_fields =
    codes "root_sums"
    ∷ codes "mark_prices"
    ∷ codes "disclosures.bad_debt"
    ∷ codes "disclosures.excluded_house_accounts"
    ∷ codes "disclosures.excluded_house_totals"
    ∷ codes "customer_balances"
    ∷ codes "customer_identities"
    ∷ []

-- `[T]::contains` on names
unfoldable pub contains : List Text → Text → Bool
contains names name = any (λ n. text_eq n name) names

unfoldable pub carries_data : Report → Text → Bool
carries_data report path =
    if text_eq path (codes "root_sums")
    then not (is_empty report.root_sums)
    else if text_eq path (codes "mark_prices")
    then not (is_empty report.mark_prices)
    else if text_eq path (codes "disclosures.bad_debt")
    then not (is_empty report.disclosures.bad_debt)
    else if text_eq path (codes "disclosures.excluded_house_accounts")
    then ltb 0 report.disclosures.excluded_house_accounts
    else if text_eq path (codes "disclosures.excluded_house_totals")
    then not (is_empty report.disclosures.excluded_house_totals)
    else false
