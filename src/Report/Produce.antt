-- ===== src/Report/Produce.antt =====
-- rust/solvency-report/src/produce.rs: publishing a report and its proofs, over customers' balances
-- or over v2 leaves, and one commitment packaged for several audiences.
pub mod Hashes
pub mod Documents
pub mod Totals
pub mod Verified
use canton_assurance_layer.Prelude.{
  ℕ, ◌+◌, Bool, true, false, not, ◌&&◌, List, [], ◌∷◌, Option, none, some, Text, Bytes, codes,
  text_eq, ◌==◌, map, length, is_empty, BTreeMap, if◌then◌else◌, Result, ok, err, ok_or, ensure,
  collect, map_err, ◌>>=◌, ◌>>◌,
}
use canton_assurance_layer.Primitives.{Primitives}
use canton_assurance_layer.Merkle.Encoding.{MerkleError}
use canton_assurance_layer.Merkle.Node.{Node, sums_eq}
use canton_assurance_layer.Merkle.Leaf.{AmountMaps, leaf_node, leaf_node_v2}
use canton_assurance_layer.Merkle.Tree.{SumTree, ProofStep, Proof, root, prove, build}
use canton_assurance_layer.Report.Document.{
  Manifest, Disclosures, Report, SignedReport, ProofStepDocument, ProofDocument, ProofDocumentV2,
  report_format_version, report_format_version_v2, proof_format_version, proof_format_version_v2,
  signature_algorithm,
}
use canton_assurance_layer.Report.Digest.{report_digest, report_digest_hex}
use canton_assurance_layer.Report.Sign.{ReportSigner, public_key_hex, sign_digest}
use canton_assurance_layer.Report.Manifest.Diff.{sort_dedup}

-- The `ensure!`s, and the errors of the tree crate. `no_root` stands for the panic of indexing an
-- empty level, which no built tree has.
pub data PublishError : Type 0 where
  nothing_to_publish no_root no_audience repeated_audience : PublishError
  tree_error : MerkleError → PublishError

pub record LeafInput : Type 0 where
  pub salt : Bytes
  pub user_id : Text
  pub balances : BTreeMap ℕ

pub record LeafInputV2 : Type 0 where
  pub salt : Bytes
  pub subject_id : Text
  pub maps : AmountMaps

pub record ReportMetadata : Type 0 where
  pub profile : Text
  pub publisher : Text
  pub snapshot_time : Text
  pub ledger_offset : Text
  pub mark_prices : BTreeMap ℕ
  pub disclosures : Disclosures
  pub manifest : Option Manifest

pub record Publication : Type 0 where
  pub signed_report : SignedReport
  pub proofs : List ProofDocument

pub record PublicationV2 : Type 0 where
  pub signed_report : SignedReport
  pub proofs : List ProofDocumentV2

abbrev pub version_for : Option Manifest → Text
version_for none = report_format_version
version_for (some m) = report_format_version_v2

-- `iter().enumerate().map(f).collect()`, from `i` on.
abbrev pub collect_from {ℓ κ μ} :
    {E : Type ℓ} {A : Type κ} {B : Type μ} → (ℕ → A → Result E B) → ℕ → List A → Result E (List B)
collect_from f i [] = ok []
collect_from f i (a ∷ l) = do b ← f i a; rest ← collect_from f (i + 1) l; ok (b ∷ rest)

module _ (p : Primitives) where
  unfoldable pub step_document : ProofStep → ProofStepDocument
  step_document step = record {
    sibling_hash = p.hex_encode step.sibling.hash;
    sibling_sums = step.sibling.sums;
    sibling_on_left = step.sibling_on_left;
  }

  unfoldable pub report_for : ReportMetadata → Text → ℕ → Node → Report
  report_for meta profile leaf_count top = record {
    format_version = version_for meta.manifest;
    profile = profile;
    publisher = meta.publisher;
    snapshot_time = meta.snapshot_time;
    ledger_offset = meta.ledger_offset;
    root_hash = p.hex_encode top.hash;
    leaf_count = leaf_count;
    root_sums = top.sums;
    mark_prices = meta.mark_prices;
    disclosures = meta.disclosures;
    manifest = meta.manifest;
  }

  unfoldable pub signed_by : ReportSigner → Report → SignedReport
  signed_by signer report = record {
    report = report;
    signature = record {
      algorithm = signature_algorithm;
      public_key = public_key_hex p signer;
      value = sign_digest p signer (report_digest p report);
    };
  }

  unfoldable pub input_node : LeafInput → Result PublishError Node
  input_node l = map_err tree_error (leaf_node p l.salt l.user_id l.balances)

  unfoldable pub proof_document : SumTree → Text → ℕ → LeafInput → Result PublishError ProofDocument
  proof_document tree digest_hex i l = do
    path ← map_err tree_error (prove tree i)
    ok (record {
      format_version = proof_format_version;
      report_digest = digest_hex;
      leaf = record { salt = p.hex_encode l.salt; user_id = l.user_id; balances = l.balances };
      steps = map step_document path.steps;
    })

  unfoldable pub publish :
      List LeafInput → ReportMetadata → ReportSigner → Result PublishError Publication
  publish leaves meta signer = do
    ensure (not (is_empty leaves)) nothing_to_publish
    nodes ← collect input_node leaves
    tree ← map_err tree_error (build p nodes)
    top ← ok_or (root tree) no_root
    let report = report_for meta meta.profile (length leaves) top
    proofs ← collect_from (proof_document tree (report_digest_hex p report)) 0 leaves
    ok (record { signed_report = signed_by signer report; proofs = proofs })

  unfoldable pub input_node_v2 : LeafInputV2 → Result PublishError Node
  input_node_v2 l = map_err tree_error (leaf_node_v2 p l.salt l.subject_id l.maps)

  unfoldable pub proof_document_v2 :
      SumTree → Text → ℕ → LeafInputV2 → Result PublishError ProofDocumentV2
  proof_document_v2 tree digest_hex i l = do
    path ← map_err tree_error (prove tree i)
    ok (record {
      format_version = proof_format_version_v2;
      report_digest = digest_hex;
      leaf = record { salt = p.hex_encode l.salt; subject_id = l.subject_id; maps = l.maps };
      steps = map step_document path.steps;
    })

  unfoldable pub publish_v2 :
      List LeafInputV2 → ReportMetadata → ReportSigner → Result PublishError PublicationV2
  publish_v2 leaves meta signer = do
    ensure (not (is_empty leaves)) nothing_to_publish
    nodes ← collect input_node_v2 leaves
    tree ← map_err tree_error (build p nodes)
    top ← ok_or (root tree) no_root
    let report = report_for meta meta.profile (length leaves) top
    proofs ← collect_from (proof_document_v2 tree (report_digest_hex p report)) 0 leaves
    ok (record { signed_report = signed_by signer report; proofs = proofs })

  abbrev pub for_audience : ReportMetadata → Manifest → ReportMetadata
  for_audience meta manifest = record {
    profile = meta.profile;
    publisher = meta.publisher;
    snapshot_time = meta.snapshot_time;
    ledger_offset = meta.ledger_offset;
    mark_prices = meta.mark_prices;
    disclosures = meta.disclosures;
    manifest = some manifest;
  }

  unfoldable pub publish_for_audiences :
      List LeafInput
      → ReportMetadata
      → List Manifest
      → ReportSigner
      → Result PublishError (List Publication)
  publish_for_audiences leaves meta manifests signer = do
    ensure (not (is_empty manifests)) no_audience
    let distinct = length (sort_dedup (map (λ (m : Manifest). m.audience) manifests))
    ensure (distinct == length manifests) repeated_audience
    collect (λ manifest. publish leaves (for_audience meta manifest) signer) manifests

unfoldable pub same_commitment : Report → Report → Bool
same_commitment a b =
    text_eq a.root_hash b.root_hash
    && (sums_eq a.root_sums b.root_sums && (a.leaf_count == b.leaf_count))
