-- ===== src/Report/Group.antt =====
-- rust/solvency-report/src/group.rs: a tree whose leaves are entities, and the chain from a
-- customer to the consolidated total.
pub mod Publish
pub mod Chain
use canton_assurance_layer.Prelude.{
  ℕ, List, [], ◌∷◌, ◌++◌, Option, none, some, Bytes, Text, codes, text_eq, ◌==◌, if◌then◌else◌,
  BTreeMap, amount, keys, length, get_last?, is_empty, not, Result, ok, err, ok_or, ensure,
  for_each, collect, map, map_err, ◌>>=◌, ◌>>◌, Bool, true, false,
}
use canton_assurance_layer.Primitives.{Primitives}
use canton_assurance_layer.Merkle.Encoding.{lp, lpmap}
use canton_assurance_layer.Merkle.Node.{Node}
use canton_assurance_layer.Report.Document.{SignedReport, ProofDocument, ProofStepDocument}
use canton_assurance_layer.Report.Profile.{LeafKind}
use canton_assurance_layer.Report.Verify.Failure.{
  VerificationFailure, entity_root_mismatch, entity_sums_mismatch,
}
use canton_assurance_layer.Report.Verify.Checks.{hash32, expect_version, expect_leaf_kind}
use canton_assurance_layer.Report.Verify.Fold.{verify_against_report, verify}

abbrev pub entity_domain : Bytes
entity_domain = codes "rocky-solvency-entity-v1"

abbrev pub group_membership_format_version : Text
group_membership_format_version = codes "canton-solvency-group-membership-v1"

abbrev pub group_profile : Text
group_profile = codes "solvency.group"

pub record EntityInput : Type 0 where
  pub entity_id : Text
  pub root_hash : Bytes
  pub root_sums : BTreeMap ℕ

pub record EntityRecord : Type 0 where
  pub entity_id : Text
  pub root_hash : Text
  pub root_sums : BTreeMap ℕ

pub record GroupMembershipDocument : Type 0 where
  pub format_version : Text
  pub group_report_digest : Text
  pub entity : EntityRecord
  pub steps : List ProofStepDocument

-- The loop of `verify_chain` over the assets of both sides.
unfoldable pub compare_sums :
    List Text → BTreeMap ℕ → BTreeMap ℕ → Result VerificationFailure (Unit {0})
compare_sums [] claimed published = ok tt
compare_sums (asset ∷ assets) claimed published =
    if amount asset claimed == amount asset published
    then compare_sums assets claimed published
    else err (entity_sums_mismatch asset)

module _ (p : Primitives) where
  unfoldable pub entity_leaf_node : EntityInput → Node
  entity_leaf_node e = record {
    hash = p.sha256 (entity_domain ++ (lp e.entity_id ++ (e.root_hash ++ lpmap e.root_sums)));
    sums = e.root_sums;
  }

  unfoldable pub verify_membership :
      SignedReport → GroupMembershipDocument → Text → Result VerificationFailure (Unit {0})
  verify_membership signed membership trusted_public_key_hex = do
    expect_version (codes "membership.format_version") membership.format_version
        group_membership_format_version
    expect_leaf_kind signed.report LeafKind.entity
    root_hash ← hash32 p membership.entity.root_hash (codes "entity root hash")
    let leaf = entity_leaf_node (record {
      entity_id = membership.entity.entity_id;
      root_hash = root_hash;
      root_sums = membership.entity.root_sums;
    })
    verify_against_report p signed leaf membership.steps membership.group_report_digest
        trusted_public_key_hex

  unfoldable pub verify_chain :
      SignedReport
      → GroupMembershipDocument
      → SignedReport
      → ProofDocument
      → Text
      → Text
      → Result VerificationFailure (Unit {0})
  verify_chain group_signed membership entity_signed proof group_trusted_key entity_trusted_key = do
    verify p entity_signed proof entity_trusted_key
    verify_membership group_signed membership group_trusted_key
    ensure (text_eq membership.entity.root_hash entity_signed.report.root_hash) entity_root_mismatch
    compare_sums (keys membership.entity.root_sums ++ keys entity_signed.report.root_sums)
        membership.entity.root_sums entity_signed.report.root_sums
