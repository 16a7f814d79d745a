-- ===== src/Examples/Groups.antt =====
-- A group of two entities, and one customer of the first.
use canton_assurance_layer.Prelude.{
  ℕ, ◌≤◌, ◌≡◌, refl, List, [], ◌∷◌, codes, IsSorted, amount, get_elem?, ok, checked_add, cmp,
  insert, text_eq, u64le,
}
use canton_assurance_layer.Examples.Crypto as Crypto
use canton_assurance_layer.Merkle.Amount as Amount
use canton_assurance_layer.Merkle.Encoding as Encoding
use canton_assurance_layer.Merkle.Leaf as Leaves
use canton_assurance_layer.Merkle.Node as Nodes
use canton_assurance_layer.Merkle.Tree as Trees
use canton_assurance_layer.Report.Digest as Digest
use canton_assurance_layer.Report.Group as Group
use canton_assurance_layer.Report.Group.Publish as Publish
use canton_assurance_layer.Report.Produce as Produce
use canton_assurance_layer.Report.Profile as Profile
use canton_assurance_layer.Report.Profile.Registry as Registry
use canton_assurance_layer.Report.Profile.Rules as Rules
use canton_assurance_layer.Report.Sign as Sign
use canton_assurance_layer.Report.Verify.Checks as Checks
use canton_assurance_layer.Report.Verify.Fold as Verify
use canton_assurance_layer.Report.Verify.Accepted.{DocumentsSorted, IsSigned, IsAccepted}
use canton_assurance_layer.Report.Group.{EntityInput, GroupMembershipDocument, verify_chain}
use canton_assurance_layer.Report.Group.Publish.{GroupPublication, publish_group}
use canton_assurance_layer.Report.Group.Chain.{verify_chain-IsAccepted}
use canton_assurance_layer.Examples.Crypto.{crypto, digest}
use canton_assurance_layer.Examples.Trees.{or_else, option_or}
use canton_assurance_layer.Examples.Reports.{
  key, signer, top, signed, proof, documents_sorted, alice-IsSorted,
}
use canton_assurance_layer.Examples.Publishing.{metadata}

abbrev entities : List EntityInput
entities =
    (record { entity_id = codes "east"; root_hash = top.hash; root_sums = top.sums })
    ∷ (record {
      entity_id = codes "west";
      root_hash = digest (codes "west");
      root_sums = (codes "USD", 11) ∷ [];
    })
    ∷ []

abbrev group : GroupPublication
group =
    or_else (publish_group crypto entities metadata signer)
      (record { signed_report = signed; memberships = [] })

abbrev no_membership : GroupMembershipDocument
no_membership = record {
  format_version = [];
  group_report_digest = [];
  entity = record { entity_id = []; root_hash = []; root_sums = [] };
  steps = [];
}

abbrev membership : GroupMembershipDocument
membership = option_or (get_elem? group.memberships 0) no_membership

chain_accepted : verify_chain crypto group.signed_report membership signed proof key key ≡ ok tt
unfolding text_eq cmp insert checked_add u64le Amount.emit Amount.decimal Amount.padded
    Amount.format_amount_18dp Encoding.sort_into Encoding.sort_by_key Encoding.check_windows
    Encoding.join Encoding.entry_text Encoding.canonical_balances Encoding.sums_canonical
    Encoding.lp Encoding.lp_entries Encoding.lpmap Nodes.add_sums Nodes.node_hash Nodes.combine
    Leaves.insert_balances Leaves.leaf_hash Leaves.leaf_node Trees.head? Trees.root Trees.sibling_of
    Trees.sibling_step Trees.path_from Trees.path Trees.leaf_count Trees.prove Trees.next_level
    Trees.grow Trees.build Digest.is_v2 Digest.report_fields Digest.report_preimage
    Digest.report_digest Digest.report_digest_hex Sign.public_key_hex Sign.sign_digest Sign.decode
    Sign.verify_signature Profile.aggregate_present Profile.check_aggregate Profile.check_coverage
    Profile.check_rules Profile.validate Rules.leaf_kind_eq Registry.find_name Registry.lookup
    Checks.hash32 Checks.expect_version Checks.validated_profile Checks.expect_leaf_kind
    Checks.check_v1 Checks.check_report_version_and_manifest Verify.add_sums Verify.first_difference
    Verify.first_sum_disagreement Verify.combine Verify.fold Verify.decode_step Verify.check_signed
    Verify.check_fold Verify.verify_against_report Verify.verify Produce.step_document
    Produce.report_for Produce.signed_by Group.compare_sums Group.entity_leaf_node
    Group.verify_membership Group.verify_chain Publish.membership_document Publish.publish_group
    Crypto.checksum Crypto.hex_digit Crypto.digit_value Crypto.hex_encode Crypto.hex_decode
chain_accepted = refl

entity_sums-IsSorted : IsSorted membership.entity.root_sums
unfolding text_eq cmp insert checked_add Encoding.sort_into Encoding.sort_by_key
    Encoding.check_windows Encoding.canonical_balances Nodes.add_sums Nodes.combine
    Leaves.insert_balances Leaves.leaf_hash Leaves.leaf_node Trees.head? Trees.root Trees.leaf_count
    Trees.prove Trees.next_level Trees.grow Trees.build Group.entity_leaf_node
    Publish.membership_document Publish.publish_group
entity_sums-IsSorted = ((refl, tt), (tt, tt))

steps-DocumentsSorted : DocumentsSorted membership.steps
unfolding text_eq cmp insert checked_add Encoding.sort_into Encoding.sort_by_key
    Encoding.check_windows Encoding.canonical_balances Nodes.add_sums Nodes.combine
    Leaves.insert_balances Leaves.leaf_hash Leaves.leaf_node Trees.head? Trees.root Trees.sibling_of
    Trees.sibling_step Trees.path_from Trees.path Trees.leaf_count Trees.prove Trees.next_level
    Trees.grow Trees.build Produce.step_document Group.entity_leaf_node Publish.membership_document
    Publish.publish_group
steps-DocumentsSorted = ((tt, tt), tt)

verify_chain-IsAccepted_example :
    IsAccepted crypto signed proof key
    × IsSigned crypto group.signed_report membership.group_report_digest key
    × (membership.entity.root_hash ≡ signed.report.root_hash)
    × ((k : List ℕ)
        → (amount k membership.entity.root_sums ≡ amount k signed.report.root_sums)
          × (amount k proof.leaf.balances ≤ amount k group.signed_report.report.root_sums))
verify_chain-IsAccepted_example =
    verify_chain-IsAccepted crypto group.signed_report membership signed proof key key
      alice-IsSorted documents_sorted entity_sums-IsSorted steps-DocumentsSorted chain_accepted
