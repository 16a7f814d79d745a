-- ===== src/Report/Produce/Documents.antt =====
-- rust/solvency-report/src/produce.rs: one document that `publish` makes, against the checks of
-- rust/solvency-report/src/verify.rs.
use canton_assurance_layer.Prelude.{
  ℕ, zero, suc, ◌+◌, ◌≡◌, refl, sym, ap, ◌∙◌, arith, List, [], ◌∷◌, some, Text, Bytes, codes, All,
  BTreeMap, get_elem?, map, text_eq_refl, Result, ok, collect, >>=-eq-ok, ok-injective, some_inj,
  subst,
}
use canton_assurance_layer.Primitives.{Primitives, IsLawful}
use canton_assurance_layer.Merkle.Encoding.{canonical_balances}
use canton_assurance_layer.Merkle.Node.{Node}
use canton_assurance_layer.Merkle.Leaf.{leaf_hash, leaf_node, insert_balances}
use canton_assurance_layer.Merkle.Tree.{SumTree, ProofStep, Proof, prove}
use canton_assurance_layer.Merkle.Proof as Climb
use canton_assurance_layer.Report.Document.{
  Report, ProofDocument, proof_format_version, signature_algorithm,
}
use canton_assurance_layer.Report.Digest.{report_digest, report_digest_hex}
use canton_assurance_layer.Report.Sign.{ReportSigner, public_key_hex, verify-sign_digest}
use canton_assurance_layer.Report.Profile.{customer}
use canton_assurance_layer.Report.Verify.Checks.{
  expect_version, expect_leaf_kind, check_report_version_and_manifest,
}
use canton_assurance_layer.Report.Verify.Fold.{
  check_signed, check_fold, verify_against_report, verify,
}
use canton_assurance_layer.Report.Verify.Totals.{fold-as_failure, first_sum_disagreement-none}
use canton_assurance_layer.Report.Verify.Accepted.{map_err-eq-ok}
use canton_assurance_layer.Report.Produce.{
  tree_error, LeafInput, ReportMetadata, collect_from, step_document, report_for, signed_by,
  input_node, proof_document,
}
use canton_assurance_layer.Report.Produce.Hashes.{
  Is32, Hashed, StepsHashed, sha256-Is32, hash32-hex_encode, collect-step_document,
}

pub get-collect {ℓ κ μ} :
    {E : Type ℓ} {A : Type κ} {B : Type μ} (f : A → Result E B) (l : List A) (i : ℕ) {out : List B}
    {a : A}
    → collect f l ≡ ok out
    → get_elem? l i ≡ some a
    → (b : B) × (get_elem? out i ≡ some b) × (f a ≡ ok b)
get-collect f [] i h g = absurd (cc)
get-collect {A = A} f (x ∷ l) zero {out} {a} h g =
    let (y, e, h1) = >>=-eq-ok (f x) _ h in
    let (ys, es, h2) = >>=-eq-ok (collect f l) _ h1 in
    let q : x ≡ a = some_inj g in
    (y, subst (λ o. get_elem? o zero ≡ some y) (ok-injective h2) refl, subst (λ z. f z ≡ ok y) q e)
get-collect f (x ∷ l) (suc i) {out} {a} h g =
    let (y, e, h1) = >>=-eq-ok (f x) _ h in
    let (ys, es, h2) = >>=-eq-ok (collect f l) _ h1 in
    let (b, gb, fb) = get-collect f l i {out = ys} {a = a} es g in
    (b, subst (λ o. get_elem? o (suc i) ≡ some b) (ok-injective h2) gb, fb)

pub get-collect_from {ℓ κ μ} :
    {E : Type ℓ} {A : Type κ} {B : Type μ} (f : ℕ → A → Result E B) (n : ℕ) (l : List A) (i : ℕ)
    {out : List B} {b : B}
    → collect_from f n l ≡ ok out
    → get_elem? out i ≡ some b
    → (a : A) × (get_elem? l i ≡ some a) × (f (n + i) a ≡ ok b)
get-collect_from f n [] i {out} {b} h g =
    absurd (let q = subst (λ o. get_elem? o i ≡ some b) (sym (ok-injective h)) g in cc q)
get-collect_from f n (x ∷ l) zero {out} {b} h g =
    let (y, e, h1) = >>=-eq-ok (f n x) _ h in
    let (ys, es, h2) = >>=-eq-ok (collect_from f (n + 1) l) _ h1 in
    let q : y ≡ b = some_inj (subst (λ o. get_elem? o zero ≡ some b) (sym (ok-injective h2)) g) in
    let z : n ≡ n + 0 = omega arith in (x, refl, subst (λ m. f m x ≡ ok b) z (e ∙ ap ok q))
get-collect_from f n (x ∷ l) (suc i) {out} {b} h g =
    let (y, e, h1) = >>=-eq-ok (f n x) _ h in
    let (ys, es, h2) = >>=-eq-ok (collect_from f (n + 1) l) _ h1 in
    let q = subst (λ o. get_elem? o (suc i) ≡ some b) (sym (ok-injective h2)) g in
    let (a, ga, fa) = get-collect_from f (n + 1) l i {out = ys} {b = b} es q in
    let z : n + 1 + i ≡ n + suc i = omega arith in (a, ga, subst (λ m. f m a ≡ ok b) z fa)

module _ (p : Primitives) (lawful : IsLawful p) where
  leaf_node-Hashed :
      (salt : Bytes) (user_id : Text) (balances : BTreeMap ℕ) {n : Node}
      → leaf_node p salt user_id balances ≡ ok n
      → Hashed n
  unfolding leaf_node leaf_hash
  leaf_node-Hashed salt user_id balances {n} h =
      let (hash, eh, h1) = >>=-eq-ok (leaf_hash p salt user_id balances) _ h in
      let (text, et, h2) = >>=-eq-ok (canonical_balances balances) _ eh in
      let (sums, es, h3) = >>=-eq-ok (insert_balances balances []) _ h1 in
      subst Hashed (ok-injective h3) (subst Is32 (ok-injective h2) (sha256-Is32 p lawful _))

  pub nodes-Hashed :
      (leaves : List LeafInput) {nodes : List Node}
      → collect (input_node p) leaves ≡ ok nodes
      → All Hashed nodes
  unfolding input_node
  nodes-Hashed [] {nodes} h = subst (All Hashed) (ok-injective h) tt
  nodes-Hashed (l ∷ leaves) {nodes} h =
      let (n, e, h1) = >>=-eq-ok (input_node p l) _ h in
      let (ns, es, h2) = >>=-eq-ok (collect (input_node p) leaves) _ h1 in
      subst (All Hashed) (ok-injective h2) (
        leaf_node-Hashed l.salt l.user_id l.balances {n = n} (map_err-eq-ok tree_error _ e),
        nodes-Hashed leaves {nodes = ns} es,
      )

  check_signed-signed_by :
      (signer : ReportSigner) (report : Report)
      → check_signed p
          (signed_by p signer report)
          (report_digest_hex p report)
          (public_key_hex p signer)
        ≡ ok tt
  unfolding check_signed signed_by report_digest_hex
  check_signed-signed_by signer report =
      rw
        (
          text_eq_refl (p.hex_encode (report_digest p report)),
          text_eq_refl (public_key_hex p signer),
          verify-sign_digest p lawful signer (report_digest p report),
        )
        refl

  check_fold-report_for :
      (meta : ReportMetadata) (profile : Text) (n : ℕ) (top leaf : Node) (steps : List ProofStep)
      → Hashed top
      → StepsHashed steps
      → Climb.fold p leaf steps ≡ ok top
      → check_fold p (report_for p meta profile n top) leaf (map (step_document p) steps) ≡ ok tt
  unfolding check_fold report_for
  check_fold-report_for meta profile n top leaf steps ht hs f =
      rw
        (
          collect-step_document p lawful steps hs,
          hash32-hex_encode p lawful top.hash (codes "report root hash") ht,
          fold-as_failure p leaf steps,
          f,
          text_eq_refl top.hash,
          (first_sum_disagreement-none top.sums top.sums).1 (λ k. refl),
        )
        refl

  -- The document that `publish` makes of a leaf and its path.
  abbrev pub document_of : Text → LeafInput → List ProofStep → ProofDocument
  document_of digest_hex l steps = record {
    format_version = proof_format_version;
    report_digest = digest_hex;
    leaf = record { salt = p.hex_encode l.salt; user_id = l.user_id; balances = l.balances };
    steps = map (step_document p) steps;
  }

  pub document_of-verify :
      (meta : ReportMetadata) (n : ℕ) (signer : ReportSigner) (top node : Node) (l : LeafInput)
      (steps : List ProofStep)
      → Is32 l.salt
      → Hashed top
      → StepsHashed steps
      → leaf_node p l.salt l.user_id l.balances ≡ ok node
      → Climb.fold p node steps ≡ ok top
      → check_report_version_and_manifest (report_for p meta meta.profile n top) ≡ ok tt
      → expect_leaf_kind (report_for p meta meta.profile n top) customer ≡ ok tt
      → verify p
          (signed_by p signer (report_for p meta meta.profile n top))
          (document_of (report_digest_hex p (report_for p meta meta.profile n top)) l steps)
          (public_key_hex p signer)
        ≡ ok tt
  unfolding verify verify_against_report expect_version signed_by
  document_of-verify meta n signer top node l steps hsalt ht hs en f cv ck =
      let report = report_for p meta meta.profile n top in
      rw
        (
          cv,
          ck,
          text_eq_refl proof_format_version,
          text_eq_refl signature_algorithm,
          hash32-hex_encode p lawful l.salt (codes "leaf salt") hsalt,
          en,
          check_signed-signed_by signer report,
          check_fold-report_for meta meta.profile n top node steps ht hs f,
        )
        refl

  pub proof_document-steps :
      (tree : SumTree) (digest_hex : Text) (i : ℕ) (l : LeafInput) (path_proof : Proof)
      {proof : ProofDocument}
      → prove tree i ≡ ok path_proof
      → proof_document p tree digest_hex i l ≡ ok proof
      → document_of digest_hex l path_proof.steps ≡ proof
  unfolding proof_document
  proof_document-steps tree digest_hex i l path_proof {proof} ep h =
      let q : ok (document_of digest_hex l path_proof.steps) ≡ ok proof = rw ep at h in
      ok-injective q
