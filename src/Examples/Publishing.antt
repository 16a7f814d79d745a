-- ===== src/Examples/Publishing.antt =====
-- A publication over two customers, and the proof that each of them gets.
use canton_assurance_layer.Prelude.{
  ℕ, zero, suc, ◌<◌, IsBytes, ◌≡◌, refl, arith, List, [], ◌∷◌, none, some, codes, replicate,
  get_elem?, ok, checked_add, cmp, insert, text_eq,
}
use canton_assurance_layer.Merkle.Encoding as Encoding
use canton_assurance_layer.Merkle.Leaf as Leaves
use canton_assurance_layer.Merkle.Node as Nodes
use canton_assurance_layer.Merkle.Tree as Trees
use canton_assurance_layer.Report.Produce as Produce
use canton_assurance_layer.Report.Profile as Profile
use canton_assurance_layer.Report.Profile.Registry as Registry
use canton_assurance_layer.Report.Profile.Rules as Rules
use canton_assurance_layer.Report.Verify.Checks as Checks
use canton_assurance_layer.Report.Document.{ProofDocument}
use canton_assurance_layer.Report.Sign.{public_key_hex}
use canton_assurance_layer.Report.Profile.{customer}
use canton_assurance_layer.Report.Verify.Checks.{
  check_report_version_and_manifest, expect_leaf_kind,
}
use canton_assurance_layer.Report.Verify.Fold.{verify}
use canton_assurance_layer.Report.Produce.{LeafInput, ReportMetadata, Publication, publish}
use canton_assurance_layer.Report.Produce.Hashes.{Is32}
use canton_assurance_layer.Report.Produce.Verified.{verify-publish}
use canton_assurance_layer.Examples.Crypto.{crypto, crypto-IsLawful}
use canton_assurance_layer.Examples.Trees.{or_else, option_or}
use canton_assurance_layer.Examples.Reports.{signer, salt, signed, proof}

abbrev customers : List LeafInput
customers =
    (record {
      salt = salt;
      user_id = codes "alice";
      balances = (codes "BTC", 5) ∷ (codes "USD", 70) ∷ [];
    })
    ∷ (record { salt = salt; user_id = codes "bob"; balances = (codes "USD", 30) ∷ [] })
    ∷ []

abbrev pub metadata : ReportMetadata
metadata = record {
  profile = codes "solvency.liabilities";
  publisher = codes "venue";
  snapshot_time = codes "2026-01-01T00:00:00Z";
  ledger_offset = codes "00ff";
  mark_prices = [];
  disclosures = record { bad_debt = []; excluded_house_accounts = 0; excluded_house_totals = [] };
  manifest = none;
}

abbrev publication : Publication
publication =
    or_else (publish crypto customers metadata signer)
      (record { signed_report = signed; proofs = [] })

abbrev bob_proof : ProofDocument
bob_proof = option_or (get_elem? publication.proofs 1) proof

published : publish crypto customers metadata signer ≡ ok publication
unfolding text_eq cmp insert checked_add Encoding.sort_into Encoding.sort_by_key
    Encoding.check_windows Encoding.canonical_balances Nodes.add_sums Nodes.combine
    Leaves.insert_balances Leaves.leaf_hash Leaves.leaf_node Trees.head? Trees.root Trees.leaf_count
    Trees.prove Trees.next_level Trees.grow Trees.build Produce.input_node Produce.proof_document
    Produce.publish
published = refl

bob_published : get_elem? publication.proofs 1 ≡ some bob_proof
unfolding text_eq cmp insert checked_add Encoding.sort_into Encoding.sort_by_key
    Encoding.check_windows Encoding.canonical_balances Nodes.add_sums Nodes.combine
    Leaves.insert_balances Leaves.leaf_hash Leaves.leaf_node Trees.head? Trees.root Trees.leaf_count
    Trees.prove Trees.next_level Trees.grow Trees.build Produce.input_node Produce.proof_document
    Produce.publish
bob_published = refl

version_checked : check_report_version_and_manifest publication.signed_report.report ≡ ok tt
unfolding text_eq cmp insert checked_add Encoding.sort_into Encoding.sort_by_key
    Encoding.check_windows Encoding.canonical_balances Nodes.add_sums Nodes.combine
    Leaves.insert_balances Leaves.leaf_hash Leaves.leaf_node Trees.head? Trees.root Trees.leaf_count
    Trees.prove Trees.next_level Trees.grow Trees.build Checks.check_v1
    Checks.check_report_version_and_manifest Produce.report_for Produce.signed_by Produce.input_node
    Produce.proof_document Produce.publish
version_checked = refl

kind_checked : expect_leaf_kind publication.signed_report.report customer ≡ ok tt
unfolding text_eq cmp insert checked_add Encoding.sort_into Encoding.sort_by_key
    Encoding.check_windows Encoding.canonical_balances Nodes.add_sums Nodes.combine
    Leaves.insert_balances Leaves.leaf_hash Leaves.leaf_node Trees.head? Trees.root Trees.leaf_count
    Trees.prove Trees.next_level Trees.grow Trees.build Profile.aggregate_present
    Profile.check_aggregate Profile.check_coverage Profile.check_rules Profile.validate
    Rules.leaf_kind_eq Registry.find_name Registry.lookup Checks.validated_profile
    Checks.expect_leaf_kind Produce.report_for Produce.signed_by Produce.input_node
    Produce.proof_document Produce.publish
kind_checked = refl

replicate-IsBytes : (n b : ℕ) → b < 256 → IsBytes (replicate n b)
replicate-IsBytes zero b h = tt
replicate-IsBytes (suc n) b h = (h, replicate-IsBytes n b h)

salt-Is32 : Is32 salt
salt-Is32 = record { size = refl; bytes = replicate-IsBytes 32 3 (omega arith) }

verify-publish_example :
    verify crypto publication.signed_report bob_proof (public_key_hex crypto signer) ≡ ok tt
verify-publish_example =
    verify-publish crypto crypto-IsLawful customers metadata signer publication 1 bob_proof
      (salt-Is32, (salt-Is32, tt)) published version_checked kind_checked bob_published
