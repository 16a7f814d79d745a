-- ===== src/Examples/Reports.antt =====
-- A signed report over two customers, and one customer's proof against it.
use canton_assurance_layer.Prelude.{
  ℕ, ◌≡◌, ◌↔◌, ◌⊎◌, refl, arith, List, [], ◌∷◌, none, some, Text, Bytes, codes, BTreeMap, amount,
  IsSorted, cmp, ok, replicate, map_err, map, checked_add, insert, text_eq, u64le,
}
use canton_assurance_layer.Examples.Crypto as Crypto
use canton_assurance_layer.Merkle.Amount as Amount
use canton_assurance_layer.Merkle.Encoding as Encoding
use canton_assurance_layer.Merkle.Leaf as Leaves
use canton_assurance_layer.Merkle.Node as Nodes
use canton_assurance_layer.Merkle.Tree as Trees
use canton_assurance_layer.Report.Digest as Digest
use canton_assurance_layer.Report.Manifest as Fields
use canton_assurance_layer.Report.Profile as Profile
use canton_assurance_layer.Report.Profile.Registry as Registry
use canton_assurance_layer.Report.Profile.Rules as Rules
use canton_assurance_layer.Report.Sign as Sign
use canton_assurance_layer.Report.Verify.Checks as Checks
use canton_assurance_layer.Report.Verify.Fold as Verify
use canton_assurance_layer.Primitives.{Collision}
use canton_assurance_layer.Report.Digest.{report_preimage}
use canton_assurance_layer.Merkle.Node.{Node}
use canton_assurance_layer.Merkle.Leaf.{leaf_node}
use canton_assurance_layer.Merkle.Tree.{SumTree, ProofStep, Proof, root, prove, build}
use canton_assurance_layer.Merkle.Proof as Climb
use canton_assurance_layer.Report.Document.{
  Report, SignedReport, ProofDocument, ProofStepDocument, report_format_version,
  report_format_version_v2, Disclosure, proof_format_version, signature_algorithm,
}
use canton_assurance_layer.Report.Digest.{report_digest, report_digest_hex}
use canton_assurance_layer.Report.Digest.Fields.{ReportFits}
use canton_assurance_layer.Merkle.Encoding.Prefix.{Fits}
use canton_assurance_layer.Report.Digest.Binding.{IsRead, report_digest-binding}
use canton_assurance_layer.Report.Sign.{ReportSigner, public_key_hex, sign_digest}
use canton_assurance_layer.Report.Verify.Fold.{fold, verify, first_sum_disagreement}
use canton_assurance_layer.Report.Verify.Checks.{check_report_version_and_manifest}
use canton_assurance_layer.Report.Verify.Totals.{
  as_failure, fold-as_failure, first_sum_disagreement-none,
}
use canton_assurance_layer.Report.Verify.Accepted.{DocumentsSorted, IsAccepted, verify-IsAccepted}
use canton_assurance_layer.Examples.Crypto.{crypto, crypto-IsLawful, hex_encode}
use canton_assurance_layer.Examples.Trees.{or_else, option_or}

abbrev pub salt : Bytes
salt = replicate 32 3

abbrev no_node : Node
no_node = record { hash = []; sums = [] }

abbrev customer : Text → BTreeMap ℕ → Node
customer user balances = or_else (leaf_node crypto salt user balances) no_node

abbrev pub alice_balances : BTreeMap ℕ
alice_balances = (codes "BTC", 5) ∷ (codes "USD", 70) ∷ []

abbrev tree : SumTree
tree =
    or_else
      (build crypto (
        customer (codes "alice") alice_balances
        ∷ customer (codes "bob") ((codes "USD", 30) ∷ [])
        ∷ []))
      (record { levels = [] })

abbrev pub top : Node
top = option_or (root tree) no_node

abbrev pub signer : ReportSigner
signer = record { seed = codes "the seed of an example publisher" }

abbrev pub key : Text
key = public_key_hex crypto signer

-- The publisher's signature of a report.
abbrev pub sign_report : Report → SignedReport
sign_report report = record {
  report = report;
  signature = record {
    algorithm = signature_algorithm;
    public_key = key;
    value = sign_digest crypto signer (report_digest crypto report);
  };
}

abbrev pub a_report : Text → Bytes → ℕ → BTreeMap ℕ → Report
a_report profile root_hash leaf_count root_sums = record {
  format_version = report_format_version;
  profile = profile;
  publisher = codes "venue";
  snapshot_time = codes "2026-01-01T00:00:00Z";
  ledger_offset = codes "00ff";
  root_hash = hex_encode root_hash;
  leaf_count = leaf_count;
  root_sums = root_sums;
  mark_prices = [];
  disclosures = record { bad_debt = []; excluded_house_accounts = 0; excluded_house_totals = [] };
  manifest = none;
}

abbrev pub report : Report
report = a_report (codes "solvency.liabilities") top.hash 2 top.sums

abbrev pub signed : SignedReport
signed = sign_report report

abbrev steps : List ProofStep
steps = (or_else (prove tree 0) (record { steps = [] })).steps

abbrev step_document : ProofStep → ProofStepDocument
step_document step = record {
  sibling_hash = hex_encode step.sibling.hash;
  sibling_sums = step.sibling.sums;
  sibling_on_left = step.sibling_on_left;
}

abbrev pub proof : ProofDocument
proof = record {
  format_version = proof_format_version;
  report_digest = report_digest_hex crypto report;
  leaf = record { salt = hex_encode salt; user_id = codes "alice"; balances = alice_balances };
  steps = map step_document steps;
}

pub verified : verify crypto signed proof key ≡ ok tt
unfolding text_eq cmp insert checked_add u64le Amount.emit Amount.decimal Amount.padded
    Amount.format_amount_18dp Encoding.sort_into Encoding.sort_by_key Encoding.check_windows
    Encoding.join Encoding.entry_text Encoding.canonical_balances Encoding.sums_canonical
    Encoding.lp Encoding.lp_entries Encoding.lpmap Nodes.add_sums Nodes.node_hash Nodes.combine
    Leaves.insert_balances Leaves.leaf_hash Leaves.leaf_node Trees.head? Trees.root Trees.sibling_of
    Trees.sibling_step Trees.path_from Trees.path Trees.leaf_count Trees.prove Trees.next_level
    Trees.grow Trees.build Digest.is_v2 Digest.report_fields Digest.report_preimage
    Digest.report_digest Digest.report_digest_hex Sign.public_key_hex Sign.sign_digest Sign.decode
    Sign.verify_signature Profile.aggregate_present Profile.check_aggregate Profile.check_coverage
    Profile.check_rules Profile.validate Rules.leaf_kind_eq Registry.find_name Registry.lookup
    Checks.hash32 Checks.expect_version Checks.validated_profile Checks.expect_leaf_kind
    Checks.check_v1 Checks.check_report_version_and_manifest Verify.add_sums Verify.first_difference
    Verify.first_sum_disagreement Verify.combine Verify.fold Verify.decode_step Verify.check_signed
    Verify.check_fold Verify.verify_against_report Verify.verify Crypto.checksum Crypto.hex_digit
    Crypto.digit_value Crypto.hex_encode Crypto.hex_decode
verified = refl

pub alice-IsSorted : IsSorted alice_balances
unfolding cmp
alice-IsSorted = ((refl, tt), (tt, tt))

pub documents_sorted : DocumentsSorted proof.steps
unfolding Trees.build Trees.grow Trees.next_level Nodes.combine Nodes.add_sums checked_add text_eq
    insert cmp Trees.prove Trees.leaf_count Trees.path Trees.path_from Trees.sibling_step
    Trees.sibling_of Leaves.leaf_node Leaves.insert_balances Leaves.leaf_hash
    Encoding.canonical_balances Encoding.sort_by_key Encoding.sort_into Encoding.check_windows
documents_sorted = ((tt, tt), tt)

verify-IsAccepted_example : IsAccepted crypto signed proof key
verify-IsAccepted_example =
    verify-IsAccepted crypto signed proof key alice-IsSorted documents_sorted verified

-- A report of the second version, with its manifest.
abbrev pub report_v2 : Report
report_v2 = record {
  format_version = report_format_version_v2;
  profile = codes "solvency.liabilities";
  publisher = codes "venue";
  snapshot_time = codes "2026-01-01T00:00:00Z";
  ledger_offset = codes "00ff";
  root_hash = codes "abcd";
  leaf_count = 2;
  root_sums = (codes "USD", 100) ∷ [];
  mark_prices = [];
  disclosures = record { bad_debt = []; excluded_house_accounts = 0; excluded_house_totals = [] };
  manifest = some (record {
    audience = codes "public";
    fields =
        (codes "mark_prices", Disclosure.withheld) ∷ (codes "root_sums", Disclosure.published) ∷ [];
  });
}

no_amounts : Fits []
no_amounts = record { count = omega arith; entries = tt }

report_v2-ReportFits : ReportFits report_v2
report_v2-ReportFits = record {
  format_version = omega arith;
  profile = omega arith;
  publisher = omega arith;
  snapshot_time = omega arith;
  ledger_offset = omega arith;
  root_hash = omega arith;
  leaf_count = omega arith;
  root_sums = record { count = omega arith; entries = ((omega arith, omega arith), tt) };
  mark_prices = no_amounts;
  bad_debt = no_amounts;
  excluded_house_accounts = omega arith;
  excluded_house_totals = no_amounts;
  manifest = record {
    audience = omega arith;
    count = omega arith;
    paths = (omega arith, (omega arith, tt));
  };
}

report_v2-IsRead : IsRead report_v2
unfolding text_eq Checks.check_report_version_and_manifest Checks.check_v2
    Checks.check_manifest_consistency Checks.check_field Checks.check_state Fields.contains
    Fields.carries_data
report_v2-IsRead = refl

report_digest-binding_example :
    (report_v2 ≡ report_v2)
    ⊎ Collision crypto (report_preimage report_v2) (report_preimage report_v2)
report_digest-binding_example =
    report_digest-binding crypto crypto-IsLawful report_v2 report_v2 report_v2-ReportFits
      report_v2-ReportFits report_v2-IsRead report_v2-IsRead refl

folded_as_failure :
    fold crypto (customer (codes "alice") alice_balances) steps
    ≡ map_err as_failure (Climb.fold crypto (customer (codes "alice") alice_balances) steps)
folded_as_failure = fold-as_failure crypto (customer (codes "alice") alice_balances) steps

no_disagreement_found :
    (first_sum_disagreement alice_balances report.root_sums ≡ none)
    ↔ ((k : Text) → amount k alice_balances ≡ amount k report.root_sums)
no_disagreement_found = first_sum_disagreement-none alice_balances report.root_sums
