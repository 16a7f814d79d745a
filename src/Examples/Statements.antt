-- ===== src/Examples/Statements.antt =====
-- A chain of two anchors, a coverage claim and an assurance statement.
use canton_assurance_layer.Prelude.{
  map, ◌≤◌, ◌≡◌, ◌↔◌, ◌⊎◌, refl, arith, true, List, [], ◌∷◌, Option, none, some, Text, codes,
  amount, All, cmp, ok, is_empty, checked_add, insert, le_bytes, text_eq, u64le,
}
use canton_assurance_layer.Examples.Crypto as Crypto
use canton_assurance_layer.Merkle.Amount as Amount
use canton_assurance_layer.Merkle.Encoding as Encoding
use canton_assurance_layer.Merkle.Leaf as Leaves
use canton_assurance_layer.Merkle.Node as Nodes
use canton_assurance_layer.Merkle.Tree as Trees
use canton_assurance_layer.Report.Anchor as History
use canton_assurance_layer.Report.Assurance as Assurance
use canton_assurance_layer.Report.Coverage as Coverage
use canton_assurance_layer.Report.Digest as Digest
use canton_assurance_layer.Report.Instant as Instant
use canton_assurance_layer.Report.Manifest as Fields
use canton_assurance_layer.Report.Profile as Profile
use canton_assurance_layer.Report.Profile.Registry as Registry
use canton_assurance_layer.Report.Profile.Rules as Rules
use canton_assurance_layer.Report.Sign as Sign
use canton_assurance_layer.Report.Verify.Checks as Checks
use canton_assurance_layer.Report.Verify.Fold as Verify
use canton_assurance_layer.Prelude.Int as Int
use canton_assurance_layer.Primitives.{CollisionIn}
use canton_assurance_layer.Report.Anchor.Fields.{anchor_preimage}
use canton_assurance_layer.Report.Anchor.History.{newest_first}
use canton_assurance_layer.Merkle.Encoding.{qualified}
use canton_assurance_layer.Report.Document.{SignedReport}
use canton_assurance_layer.Report.Digest.{report_digest, report_digest_hex}
use canton_assurance_layer.Report.Sign.{verify_signature}
use canton_assurance_layer.Report.Anchor.{
  Anchor, anchor_format_version, anchor_digest_hex, verify_chain,
}
use canton_assurance_layer.Report.Anchor.Fields.{AnchorFits}
use canton_assurance_layer.Report.Anchor.History.{
  IsHistory, newest_first, verify_chain-IsHistory, verify_chain-binding,
}
use canton_assurance_layer.Report.Coverage.{
  CoverageStatement, AssetCoverage, CoverageOutcome, coverage_format_version, verify_coverage,
  fully_covered, shortfalls,
}
use canton_assurance_layer.Report.Coverage.Outcome.{
  IsPairing, verify_coverage-IsPairing, fully_covered-shortfalls,
}
use canton_assurance_layer.Report.Verify.Failure.{
  AssuranceLevel, claimed_only, cryptographically_verified,
}
use canton_assurance_layer.Report.Assurance.{
  AssuranceStatement, Evidence, TrustedKeys, assurance_format_version, contains_level, field_levels,
  verify_assurance,
}
use canton_assurance_layer.Report.Assurance.Supports.{Supports, field_levels-Supports}
use canton_assurance_layer.Report.Assurance.Supported.{verify_assurance-All}
use canton_assurance_layer.Examples.Crypto.{crypto, crypto-IsLawful}
use canton_assurance_layer.Examples.Reports.{key, sign_report, a_report, signed, report, proof}

abbrev an_anchor : Text → Text → Option Text → Anchor
an_anchor snapshot_time ledger_offset prev_anchor = record {
  format_version = anchor_format_version;
  report_digest = codes "abcd";
  root_hash = codes "ef01";
  snapshot_time = snapshot_time;
  ledger_offset = ledger_offset;
  publisher = codes "venue";
  publisher_key = codes "1234";
  prev_anchor = prev_anchor;
}

abbrev genesis : Anchor
genesis = an_anchor (codes "2026-01-01T00:00:00Z") (codes "00ff") none

abbrev second : Anchor
second =
    an_anchor (codes "2026-02-01T00:00:00Z") (codes "01ff")
      (some (anchor_digest_hex crypto genesis))

abbrev chain : List Anchor
chain = genesis ∷ second ∷ []

chain_verified : verify_chain crypto chain ≡ ok tt
unfolding text_eq cmp u64le Encoding.lp History.prev_bytes History.anchor_fields
    History.anchor_digest History.anchor_digest_hex History.check_previous History.check_link
    History.walk History.verify_chain Crypto.checksum Crypto.hex_digit Crypto.hex_encode
chain_verified = refl

verify_chain-IsHistory_example : IsHistory crypto (newest_first chain)
verify_chain-IsHistory_example = verify_chain-IsHistory crypto chain chain_verified

genesis-AnchorFits : AnchorFits genesis
genesis-AnchorFits = record {
  format_version = omega arith;
  report_digest = omega arith;
  root_hash = omega arith;
  snapshot_time = omega arith;
  ledger_offset = omega arith;
  publisher = omega arith;
  publisher_key = omega arith;
  prev_anchor = tt;
}

second-AnchorFits : AnchorFits second
unfolding le_bytes History.anchor_digest_hex History.anchor_digest Crypto.hex_encode
second-AnchorFits = record {
  format_version = omega arith;
  report_digest = omega arith;
  root_hash = omega arith;
  snapshot_time = omega arith;
  ledger_offset = omega arith;
  publisher = omega arith;
  publisher_key = omega arith;
  prev_anchor = omega arith;
}

chain_fits : All AnchorFits chain
chain_fits = (genesis-AnchorFits, (second-AnchorFits, tt))

verify_chain-binding_example :
    (chain ≡ chain)
    ⊎ CollisionIn crypto
        (map anchor_preimage (newest_first chain))
        (map anchor_preimage (newest_first chain))
verify_chain-binding_example =
    verify_chain-binding crypto crypto-IsLawful chain chain (genesis ∷ []) (genesis ∷ []) second
      second chain_fits chain_fits chain_verified chain_verified refl refl refl

abbrev custody : SignedReport
custody =
    sign_report (a_report (codes "coverage.custody") (codes "root") 1 ((codes "held/USD", 90) ∷ []))

abbrev liabilities : SignedReport
liabilities =
    sign_report (a_report (codes "solvency.liabilities") (codes "root") 2 ((codes "USD", 100) ∷ []))

abbrev statement : CoverageStatement
statement = record {
  format_version = coverage_format_version;
  custody_report_digest = report_digest_hex crypto custody.report;
  liabilities_report_digest = report_digest_hex crypto liabilities.report;
  custody_basis = codes "statement of the custodian";
}

abbrev outcome : CoverageOutcome
outcome = record { assets = (record { asset = codes "USD"; held = 90; owed = 100 }) ∷ [] }

coverage_verified : verify_coverage crypto custody liabilities statement key key 300 ≡ ok outcome
unfolding text_eq u64le Amount.emit Amount.decimal Amount.padded Amount.format_amount_18dp
    Encoding.lp Encoding.lp_entries Encoding.lpmap Encoding.qualified Digest.is_v2
    Digest.report_fields Digest.report_preimage Digest.report_digest Digest.report_digest_hex
    Sign.public_key_hex Sign.sign_digest Sign.decode Sign.verify_signature Checks.expect_version
    Instant.days_from_civil Instant.days_in_month Instant.digits Instant.byte_is
    Instant.tail_is_valid Instant.layout_is_valid Instant.date_is_valid Instant.time_is_valid
    Instant.epoch Instant.parse Instant.skew Coverage.expect_profile Coverage.compare_assets
    Coverage.check_signature Coverage.verify_coverage Crypto.checksum Crypto.hex_digit
    Crypto.digit_value Crypto.hex_encode Crypto.hex_decode Amount.decimal_value Int.abs_diff
    Int.◌+ℤ◌ Int.◌-ℤ◌ Int.◌*ℤ◌ Int.◌/ℤ◌
coverage_verified = refl

verify_coverage-IsPairing_example :
    IsPairing crypto custody liabilities statement key key 300
    × ((fully_covered outcome ≡ true) ↔ (
        (k : Text)
        → amount k liabilities.report.root_sums
          ≤ amount (qualified (codes "held") k) custody.report.root_sums))
verify_coverage-IsPairing_example =
    verify_coverage-IsPairing crypto custody liabilities statement key key 300 outcome (tt, tt)
      coverage_verified

no_shortfalls : is_empty (shortfalls outcome) ≡ fully_covered outcome
no_shortfalls = fully_covered-shortfalls outcome

abbrev evidence : Evidence
evidence = record { proof = some proof; anchor = none; attestations = []; provenance = none }

abbrev trusted : TrustedKeys
trusted = record { publisher = key; attestors = [] }

abbrev declaration : AssuranceStatement
declaration = record {
  format_version = assurance_format_version;
  report_digest = report_digest_hex crypto report;
  levels =
      (codes "mark_prices", claimed_only) ∷ (codes "root_sums", cryptographically_verified) ∷ [];
}

declaration_accepted :
    verify_assurance crypto signed declaration evidence trusted ≡ ok declaration.levels
unfolding text_eq cmp insert checked_add u64le Amount.emit Amount.decimal Amount.padded
    Amount.format_amount_18dp Encoding.sort_into Encoding.sort_by_key Encoding.check_windows
    Encoding.join Encoding.entry_text Encoding.canonical_balances Encoding.sums_canonical
    Encoding.lp Encoding.lp_entries Encoding.lpmap Nodes.add_sums Nodes.node_hash Nodes.combine
    Leaves.insert_balances Leaves.leaf_hash Leaves.leaf_node Trees.head? Trees.root Trees.sibling_of
    Trees.sibling_step Trees.path_from Trees.path Trees.leaf_count Trees.prove Trees.next_level
    Trees.grow Trees.build Digest.is_v2 Digest.report_fields Digest.report_preimage
    Digest.report_digest Digest.report_digest_hex Sign.public_key_hex Sign.sign_digest Sign.decode
    Sign.verify_signature Fields.contains Profile.aggregate_present Profile.check_aggregate
    Profile.check_coverage Profile.check_rules Profile.validate Rules.leaf_kind_eq
    Registry.find_name Registry.lookup Checks.hash32 Checks.expect_version Checks.validated_profile
    Checks.expect_leaf_kind Checks.check_v1 Checks.check_report_version_and_manifest Verify.add_sums
    Verify.first_difference Verify.first_sum_disagreement Verify.combine Verify.fold
    Verify.decode_step Verify.check_signed Verify.check_fold Verify.verify_against_report
    Verify.verify Assurance.insert_level Assurance.contains_level Assurance.withheld
    Assurance.attested Assurance.recomputed Assurance.pinned Assurance.field_levels
    Assurance.establish_from Assurance.establish Assurance.accept Assurance.verify_assurance
    Crypto.checksum Crypto.hex_digit Crypto.digit_value Crypto.hex_encode Crypto.hex_decode
declaration_accepted = refl

verify_assurance-All_example :
    (verify_signature crypto trusted.publisher
        (report_digest crypto signed.report)
        signed.signature.value
      ≡ ok tt)
    × All
        (λ (e : Text × AssuranceLevel). Supports crypto signed evidence trusted e.0 e.1)
        declaration.levels
verify_assurance-All_example =
    verify_assurance-All crypto signed declaration evidence trusted declaration.levels
      declaration_accepted

field_levels-Supports_example :
    (contains_level cryptographically_verified
        (field_levels crypto signed evidence trusted (codes "root_sums"))
      ≡ true)
    ↔ Supports crypto signed evidence trusted (codes "root_sums") cryptographically_verified
field_levels-Supports_example =
    field_levels-Supports crypto signed evidence trusted (codes "root_sums")
      cryptographically_verified
