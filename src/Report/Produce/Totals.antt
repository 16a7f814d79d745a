-- ===== src/Report/Produce/Totals.antt =====
-- rust/solvency-report/src/produce.rs: the steps that a publication took, and its totals against the
-- customers' balances.
use canton_assurance_layer.Prelude.{
  ℕ, ◌+◌, ◌≡◌, refl, ap, ◌∙◌, arith, List, [], ◌∷◌, some, Text, length, is_empty, not, ok, amount,
  amounts, ok_or, ensure, collect, map_err, >>=-eq-ok, >>-eq-ok, ok-injective, ok_or-eq-ok, subst,
}
use canton_assurance_layer.Primitives.{Primitives}
use canton_assurance_layer.Merkle.Node.{Node}
use canton_assurance_layer.Merkle.Tree.{SumTree, root, build}
use canton_assurance_layer.Merkle.Tree.Totals.{total, AllSorted, amount-root-build}
use canton_assurance_layer.Report.Document.{SignedReport}
use canton_assurance_layer.Report.Digest.{report_digest_hex}
use canton_assurance_layer.Report.Sign.{ReportSigner}
use canton_assurance_layer.Report.Verify.Accepted.{map_err-eq-ok, leaf_node-amount}
use canton_assurance_layer.Report.Produce.{
  nothing_to_publish, no_root, tree_error, LeafInput, ReportMetadata, Publication, collect_from,
  report_for, signed_by, input_node, proof_document, publish,
}

-- What the customers hold of an asset, all together.
unfoldable pub held : Text → List LeafInput → ℕ
held k [] = 0
held k (l ∷ leaves) = amounts k l.balances + held k leaves

module _ (p : Primitives) where
  -- What a publication is made of.
  pub publish-parts :
      (leaves : List LeafInput) (meta : ReportMetadata) (signer : ReportSigner)
      (published : Publication)
      → publish p leaves meta signer ≡ ok published
      → (nodes : List Node) × (tree : SumTree) × (top : Node) × (collect (input_node p) leaves
          ≡ ok nodes)
        × (build p nodes ≡ ok tree)
        × (root tree ≡ some top)
        × (collect_from
              (proof_document p tree
                (report_digest_hex p (report_for p meta meta.profile (length leaves) top)))
              0
              leaves
            ≡ ok published.proofs)
        × (signed_by p signer (report_for p meta meta.profile (length leaves) top)
            ≡ published.signed_report)
  unfolding publish
  publish-parts leaves meta signer published h =
      let (a, h1) = >>-eq-ok (ensure (not (is_empty leaves)) nothing_to_publish) _ h in
      let (nodes, en, h2) = >>=-eq-ok (collect (input_node p) leaves) _ h1 in
      let (tree, et, h3) = >>=-eq-ok (map_err tree_error (build p nodes)) _ h2 in
      let (top, er, h4) = >>=-eq-ok (ok_or (root tree) no_root) _ h3 in
      let digest_hex = report_digest_hex p (report_for p meta meta.profile (length leaves) top) in
      let (proofs, ep, h5) =
        >>=-eq-ok (collect_from (proof_document p tree digest_hex) 0 leaves) _ h4 in
      (
        nodes,
        tree,
        top,
        en,
        map_err-eq-ok tree_error _ et,
        ok_or-eq-ok (root tree) no_root er,
        ep ∙ ap ok (ap (λ (x : Publication). x.proofs) (ok-injective h5)),
        ap (λ (x : Publication). x.signed_report) (ok-injective h5),
      )

  nodes-total :
      (k : Text) (leaves : List LeafInput) {nodes : List Node}
      → collect (input_node p) leaves ≡ ok nodes
      → AllSorted nodes × (total k nodes ≡ held k leaves)
  unfolding total held input_node
  nodes-total k [] {nodes} h =
      subst (λ ns. AllSorted ns × (total k ns ≡ held k [])) (ok-injective h) (tt, refl)
  nodes-total k (l ∷ leaves) {nodes} h =
      let (n, e, h1) = >>=-eq-ok (input_node p l) _ h in
      let (ns, es, h2) = >>=-eq-ok (collect (input_node p) leaves) _ h1 in
      let (q, s) =
        leaf_node-amount p l.salt l.user_id l.balances {leaf = n} k
          (map_err-eq-ok tree_error _ e) in
      let (ss, qs) = nodes-total k leaves {nodes = ns} es in
      subst (λ ns. AllSorted ns × (total k ns ≡ held k (l ∷ leaves))) (ok-injective h2)
        ((s, ss), omega (arith, q, qs))

  -- What a report publishes of an asset is what the customers hold of it, all together.
  pub amount-publish :
      (k : Text) (leaves : List LeafInput) (meta : ReportMetadata) (signer : ReportSigner)
      {published : Publication}
      → publish p leaves meta signer ≡ ok published
      → amount k published.signed_report.report.root_sums ≡ held k leaves
  unfolding signed_by report_for
  amount-publish k leaves meta signer {published} h =
      let (nodes, tree, top, en, built, top_is, ep, same) =
        publish-parts leaves meta signer published h in
      let (s, q) = nodes-total k leaves {nodes = nodes} en in
      subst (λ (x : SignedReport). amount k x.report.root_sums ≡ held k leaves) same
        (amount-root-build p k nodes {tree = tree} {r = top} s built top_is ∙ q)
