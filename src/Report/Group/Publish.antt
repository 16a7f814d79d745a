-- ===== src/Report/Group/Publish.antt =====
-- rust/solvency-report/src/group.rs: publishing a group report over the roots of its entities.
use canton_assurance_layer.Prelude.{
  ℕ, not, List, Text, is_empty, length, map, Result, ok, ok_or, ensure, map_err, ◌>>=◌, ◌>>◌,
}
use canton_assurance_layer.Primitives.{Primitives}
use canton_assurance_layer.Merkle.Tree.{SumTree, root, prove, build}
use canton_assurance_layer.Report.Document.{SignedReport}
use canton_assurance_layer.Report.Digest.{report_digest_hex}
use canton_assurance_layer.Report.Sign.{ReportSigner}
use canton_assurance_layer.Report.Group.{
  EntityInput, GroupMembershipDocument, group_membership_format_version, group_profile,
  entity_leaf_node,
}
use canton_assurance_layer.Report.Produce.{
  PublishError, nothing_to_publish, no_root, tree_error, ReportMetadata, collect_from,
  step_document, report_for, signed_by,
}

pub record GroupPublication : Type 0 where
  pub signed_report : SignedReport
  pub memberships : List GroupMembershipDocument

module _ (p : Primitives) where
  unfoldable pub membership_document :
      SumTree → Text → ℕ → EntityInput → Result PublishError GroupMembershipDocument
  membership_document tree digest_hex i entity = do
    path ← map_err tree_error (prove tree i)
    ok (record {
      format_version = group_membership_format_version;
      group_report_digest = digest_hex;
      entity = record {
        entity_id = entity.entity_id;
        root_hash = p.hex_encode entity.root_hash;
        root_sums = entity.root_sums;
      };
      steps = map (step_document p) path.steps;
    })

  unfoldable pub publish_group :
      List EntityInput → ReportMetadata → ReportSigner → Result PublishError GroupPublication
  publish_group entities meta signer = do
    ensure (not (is_empty entities)) nothing_to_publish
    tree ← map_err tree_error (build p (map (entity_leaf_node p) entities))
    top ← ok_or (root tree) no_root
    let report = report_for p meta group_profile (length entities) top
    memberships ← collect_from (membership_document tree (report_digest_hex p report)) 0 entities
    ok (record { signed_report = signed_by p signer report; memberships = memberships })
