-- ===== src/Report/Produce/Verified.antt =====
-- rust/solvency-report/src/produce.rs against rust/solvency-report/src/verify.rs: what `publish`
-- produces, `verify` accepts.
use canton_assurance_layer.Prelude.{
  ℕ, ◌+◌, ◌≡◌, sym, ap, ◌∙◌, arith, List, some, All, length, get_elem?, ltb, ok, ensure, collect,
  >>-eq-ok, ok-injective, some_inj, subst,
}
use canton_assurance_layer.Primitives.{Primitives, IsLawful}
use canton_assurance_layer.Merkle.Encoding.{index_out_of_range}
use canton_assurance_layer.Merkle.Node.{Node}
use canton_assurance_layer.Merkle.Tree.{SumTree, Proof, root, prove, build, leaf_count}
use canton_assurance_layer.Merkle.Proof as Climb
use canton_assurance_layer.Merkle.Proof.Inclusion.{prove-build}
use canton_assurance_layer.Merkle.Proof.Binding.{accepted}
use canton_assurance_layer.Report.Document.{Report, SignedReport, ProofDocument}
use canton_assurance_layer.Report.Digest.{report_digest_hex}
use canton_assurance_layer.Report.Sign.{ReportSigner, public_key_hex}
use canton_assurance_layer.Report.Profile.{customer}
use canton_assurance_layer.Report.Verify.Checks.{
  expect_leaf_kind, check_report_version_and_manifest,
}
use canton_assurance_layer.Report.Verify.Fold.{verify}
use canton_assurance_layer.Report.Verify.Accepted.{map_err-eq-ok}
use canton_assurance_layer.Report.Produce.{
  tree_error, LeafInput, ReportMetadata, Publication, collect_from, report_for, signed_by,
  input_node, proof_document, publish,
}
use canton_assurance_layer.Report.Produce.Hashes.{
  Is32, StepsHashed, path-StepsHashed, get_elem?-All, root-Hashed, build-Hashed,
}
use canton_assurance_layer.Report.Produce.Documents.{
  get-collect, get-collect_from, nodes-Hashed, document_of-verify, proof_document-steps,
}
use canton_assurance_layer.Report.Produce.Totals.{publish-parts}

module _ (p : Primitives) (lawful : IsLawful p) where
  -- One proof of a publication, over the nodes, the tree and the root that it was made from.
  published-verify :
      (leaves : List LeafInput) (meta : ReportMetadata) (signer : ReportSigner) (i : ℕ)
      (nodes : List Node) (tree : SumTree) (top : Node) (proofs : List ProofDocument)
      (proof : ProofDocument)
      → All (λ (l : LeafInput). Is32 l.salt) leaves
      → collect (input_node p) leaves ≡ ok nodes
      → build p nodes ≡ ok tree
      → root tree ≡ some top
      → collect_from
          (proof_document p tree
            (report_digest_hex p (report_for p meta meta.profile (length leaves) top)))
          0
          leaves
        ≡ ok proofs
      → get_elem? proofs i ≡ some proof
      → check_report_version_and_manifest (report_for p meta meta.profile (length leaves) top)
        ≡ ok tt
      → expect_leaf_kind (report_for p meta meta.profile (length leaves) top) customer ≡ ok tt
      → verify p
          (signed_by p signer (report_for p meta meta.profile (length leaves) top))
          proof
          (public_key_hex p signer)
        ≡ ok tt
  unfolding input_node prove
  published-verify leaves meta signer i nodes tree top proofs proof salts en built top_is ep gi cv
        ck =
      let report = report_for p meta meta.profile (length leaves) top in
      let digest_hex = report_digest_hex p report in
      let (l, gl, ed) =
        get-collect_from (proof_document p tree digest_hex) 0 leaves i {out = proofs} {b = proof} ep
          gi in
      let (node, gn, e) = get-collect (input_node p) leaves i {out = nodes} {a = l} en gl in
      let (path_proof, r, proved, top_r, acc) =
        prove-build p nodes i {tree = tree} {leaf = node} built gn in
      let q : r ≡ top = some_inj (sym top_r ∙ top_is) in
      let from_zero : 0 + i ≡ i = omega arith in
      let at_i = subst (λ m. proof_document p tree digest_hex m l ≡ ok proof) from_zero ed in
      let (in_range, shape) =
        >>-eq-ok (ensure (ltb i (leaf_count tree.levels)) (index_out_of_range i)) _ proved in
      let levels =
        build-Hashed p lawful nodes {tree = tree} (nodes-Hashed p lawful leaves {nodes = nodes} en)
          built in
      let hashed =
        subst (λ (x : Proof). StepsHashed x.steps) (ok-injective shape)
          (path-StepsHashed tree.levels i levels) in
      let reached : Climb.fold p node path_proof.steps ≡ ok top =
        accepted p node path_proof r acc ∙ ap ok q in
      subst
        (λ (d : ProofDocument).
          verify p (signed_by p signer report) d (public_key_hex p signer) ≡ ok tt)
        (proof_document-steps p lawful tree digest_hex i l path_proof {proof = proof} proved at_i)
        (document_of-verify p lawful meta (length leaves) signer top node l path_proof.steps
          (get_elem?-All (λ (l : LeafInput). Is32 l.salt) leaves i {a = l} salts gl)
          (root-Hashed tree {r = top} levels top_is) hashed (map_err-eq-ok tree_error _ e) reached
          cv ck)

  -- Every proof that `publish` returns is accepted by `verify` under the publisher's key, where the
  -- salts are 32 bytes and the report passes the checks of its version, its manifest and its profile:
  -- what is published can be verified by every customer. The signature scheme, the hash and the hex
  -- codec are lawful.
  pub verify-publish :
      (leaves : List LeafInput) (meta : ReportMetadata) (signer : ReportSigner)
      (published : Publication) (i : ℕ) (proof : ProofDocument)
      → All (λ (l : LeafInput). Is32 l.salt) leaves
      → publish p leaves meta signer ≡ ok published
      → check_report_version_and_manifest published.signed_report.report ≡ ok tt
      → expect_leaf_kind published.signed_report.report customer ≡ ok tt
      → get_elem? published.proofs i ≡ some proof
      → verify p published.signed_report proof (public_key_hex p signer) ≡ ok tt
  unfolding signed_by
  verify-publish leaves meta signer published i proof salts h cv ck g =
      let (nodes, tree, top, en, built, top_is, ep, same) =
        publish-parts p leaves meta signer published h in
      let reports = ap (λ (x : SignedReport). x.report) same in
      subst (λ (x : SignedReport). verify p x proof (public_key_hex p signer) ≡ ok tt) same
        (published-verify leaves meta signer i nodes tree top published.proofs proof salts en built
          top_is ep g
          (subst (λ (r : Report). check_report_version_and_manifest r ≡ ok tt) (sym reports) cv)
          (subst (λ (r : Report). expect_leaf_kind r customer ≡ ok tt) (sym reports) ck))
