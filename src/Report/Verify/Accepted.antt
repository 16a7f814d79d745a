-- ===== src/Report/Verify/Accepted.antt =====
-- rust/solvency-report/src/verify.rs: what an accepted proof establishes.
use canton_assurance_layer.Prelude.{
  ℕ, ◌+◌, ◌≤◌, ◌≡◌, refl, sym, ap, ◌∙◌, inl, inr, arith, Bool-cases, false, List, [], ◌∷◌, Option,
  none, some, Option-cases, Text, Bytes, codes, BTreeMap, get, get-insert, insert, contains_key,
  IsSorted, IsSorted-insert, amount, amounts, amounts-eq-amount, All, text_eq, text_eq→eq,
  text_eq_iff, Result, ok, err, ensure, collect, map_err, >>=-eq-ok, >>-eq-ok, ensure-eq-ok,
  ok-injective, if◌then◌else◌, subst, or_zero,
}
use canton_assurance_layer.Primitives.{Primitives}
use canton_assurance_layer.Merkle.Node.{Node}
use canton_assurance_layer.Merkle.Leaf.{leaf_hash, leaf_node, insert_balances}
use canton_assurance_layer.Merkle.Tree.{ProofStep}
use canton_assurance_layer.Merkle.Proof as Climb
use canton_assurance_layer.Merkle.Proof.Binding.{SiblingsSorted, amount-fold}
use canton_assurance_layer.Report.Document.{
  Report, SignedReport, ProofStepDocument, ProofDocument, proof_format_version, signature_algorithm,
}
use canton_assurance_layer.Report.Digest.{report_digest, report_digest_hex}
use canton_assurance_layer.Report.Sign.{verify_signature}
use canton_assurance_layer.Report.Profile.{customer}
use canton_assurance_layer.Report.Verify.Failure.{
  digest_mismatch, unknown_signer, root_hash_mismatch, malformed, bad_leaf,
}
use canton_assurance_layer.Report.Verify.Checks.{
  hash32, expect_version, expect_leaf_kind, check_report_version_and_manifest,
}
use canton_assurance_layer.Report.Verify.Fold.{
  fold, no_disagreement, signature_failure, decode_step, check_signed, check_fold,
  verify_against_report, verify,
}
use canton_assurance_layer.Report.Verify.Totals.{
  as_failure, fold-as_failure, first_sum_disagreement-none,
}

abbrev pub DocumentsSorted : List ProofStepDocument → Type 0
DocumentsSorted = All (λ (d : ProofStepDocument). IsSorted d.sibling_sums)

pub map_err-eq-ok {ℓ κ μ} :
    {E : Type ℓ} {F : Type κ} {A : Type μ} (g : E → F) (m : Result E A) {a : A}
    → map_err g m ≡ ok a
    → m ≡ ok a
map_err-eq-ok g (ok a) h = cc
map_err-eq-ok g (err e) h = cc

no_disagreement-none : (o : Option Text) → no_disagreement o ≡ ok tt → o ≡ none
no_disagreement-none none h = refl
no_disagreement-none (some a) h = cc

amount-insert_new :
    (k j : Text) (v : ℕ) (s : BTreeMap ℕ)
    → contains_key j s ≡ false
    → amount k (insert j v s) ≡ amount k s + (if text_eq j k then v else 0)
amount-insert_new k j v s h = elim (Bool-cases (text_eq j k)) [
  | inl e ↦
      let q = (text_eq_iff j k).0 e in
      elim (Option-cases (get j s)) [
        | inl absent ↦
            let zero_at : amount k s ≡ 0 = subst (λ t. amount t s ≡ 0) q (ap or_zero absent) in
            rw (get-insert j k v s, e, zero_at) (omega arith)
        | inr (w, present) ↦ absurd (cc (h, present))
      ]
  | inr e ↦ rw (get-insert j k v s, e) (omega arith)
]

-- The loop of `leaf_node` sums what the entries hold, and keeps the map in order.
amount-insert_balances :
    (k : Text) (b s : BTreeMap ℕ) {r : BTreeMap ℕ}
    → IsSorted s
    → insert_balances b s ≡ ok r
    → (amount k r ≡ amount k s + amounts k b) × IsSorted r
unfolding insert_balances amounts
amount-insert_balances k [] s {r} o h =
    let e : s ≡ r = ok-injective h in (omega (arith, ap (amount k) e), subst IsSorted e o)
amount-insert_balances k ((j, v) ∷ b) s {r} o h = elim (Bool-cases (contains_key j s)) [
  | inl dup ↦ absurd (cc (dup, h))
  | inr new ↦
      let rest : insert_balances b (insert j v s) ≡ ok r = rw new at h in
      let (e, q) =
        amount-insert_balances k b (insert j v s) {r = r} (IsSorted-insert j v s o) rest in
      (omega (arith, e, amount-insert_new k j v s new), q)
]

module _ (p : Primitives) where
  -- The signed part of what was accepted: the digest, its signer and the signature over it.
  pub record IsSigned (signed : SignedReport) (digest key : Text) : Type 0 where
    pub digest_hex : report_digest_hex p signed.report ≡ digest
    pub signer : signed.signature.public_key ≡ key
    pub signature :
        verify_signature p key (report_digest p signed.report) signed.signature.value ≡ ok tt

  pub check_signed-IsSigned :
      (signed : SignedReport) (digest key : Text)
      → check_signed p signed digest key ≡ ok tt
      → IsSigned signed digest key
  unfolding check_signed report_digest_hex
  check_signed-IsSigned signed digest key h =
      let (a, h1) =
        >>-eq-ok
          (ensure (text_eq (p.hex_encode (report_digest p signed.report)) digest) digest_mismatch) _
          h in
      let (b, h2) =
        >>-eq-ok (ensure (text_eq signed.signature.public_key key) unknown_signer) _ h1 in
      record {
        digest_hex = text_eq→eq _ _ (ensure-eq-ok _ _ a);
        signer = text_eq→eq _ _ (ensure-eq-ok _ _ b);
        signature = map_err-eq-ok signature_failure _ h2;
      }

  decode_step-sums :
      (d : ProofStepDocument) {step : ProofStep}
      → decode_step p d ≡ ok step
      → step.sibling.sums ≡ d.sibling_sums
  unfolding decode_step
  decode_step-sums d {step} h =
      let (hash, _, e) = >>=-eq-ok (hash32 p d.sibling_hash (codes "sibling hash")) _ h in
      sym (ap (λ (s : ProofStep). s.sibling.sums) (ok-injective e))

  collect-SiblingsSorted :
      (l : List ProofStepDocument) {steps : List ProofStep}
      → DocumentsSorted l
      → collect (decode_step p) l ≡ ok steps
      → SiblingsSorted steps
  collect-SiblingsSorted [] {steps} o h = subst SiblingsSorted (ok-injective h) tt
  collect-SiblingsSorted (d ∷ l) {steps} (o, os) h =
      let (step, e, h1) = >>=-eq-ok (decode_step p d) _ h in
      let (rest, e1, h2) = >>=-eq-ok (collect (decode_step p) l) _ h1 in
      subst SiblingsSorted (ok-injective h2) (
        subst IsSorted (sym (decode_step-sums d {step = step} e)) o,
        collect-SiblingsSorted l {steps = rest} os e1,
      )

  -- The published totals of an accepted path, asset by asset.
  pub check_fold-total :
      (report : Report) (leaf : Node) (documents : List ProofStepDocument)
      → IsSorted leaf.sums
      → DocumentsSorted documents
      → check_fold p report leaf documents ≡ ok tt
      → (k : Text) → amount k leaf.sums ≤ amount k report.root_sums
  unfolding check_fold
  check_fold-total report leaf documents ol od h k =
      let (steps, es, h1) = >>=-eq-ok (collect (decode_step p) documents) _ h in
      let (root_hash, er, h2) =
        >>=-eq-ok (hash32 p report.root_hash (codes "report root hash")) _ h1 in
      let (folded, ef, h3) = >>=-eq-ok (fold p leaf steps) _ h2 in
      let (eh, h4) = >>-eq-ok (ensure (text_eq folded.hash root_hash) root_hash_mismatch) _ h3 in
      let agree =
        (first_sum_disagreement-none folded.sums report.root_sums).0 (no_disagreement-none _ h4)
          k in
      let climbed : Climb.fold p leaf steps ≡ ok folded =
        map_err-eq-ok as_failure _ (sym (fold-as_failure p leaf steps) ∙ ef) in
      let total =
        amount-fold p k leaf steps {r = folded} ol
          (collect-SiblingsSorted documents {steps = steps} od es) climbed in
      omega (arith, agree, total)

  -- What a customer learns from an accepted proof.
  pub record IsAccepted (signed : SignedReport) (proof : ProofDocument) (key : Text) : Type 0 where
    pub signed_digest : IsSigned signed proof.report_digest key
    pub version : proof.format_version ≡ proof_format_version
    pub algorithm : signed.signature.algorithm ≡ signature_algorithm
    pub included : (k : Text) → amount k proof.leaf.balances ≤ amount k signed.report.root_sums

  pub leaf_node-amount :
      (salt : Bytes) (user_id : Text) (balances : BTreeMap ℕ) {leaf : Node} (k : Text)
      → leaf_node p salt user_id balances ≡ ok leaf
      → (amount k leaf.sums ≡ amounts k balances) × IsSorted leaf.sums
  unfolding leaf_node
  leaf_node-amount salt user_id balances {leaf} k h =
      let (hash, eh, h1) = >>=-eq-ok (leaf_hash p salt user_id balances) _ h in
      let (sums, es, h2) = >>=-eq-ok (insert_balances balances []) _ h1 in
      let e : sums ≡ leaf.sums = ap (λ (n : Node). n.sums) (ok-injective h2) in
      let (q, oq) = amount-insert_balances k balances [] {r = sums} tt es in
      (omega (arith, ap (amount k) e, q), subst IsSorted e oq)

  leaf_node-sums :
      (salt : Bytes) (user_id : Text) (balances : BTreeMap ℕ) {leaf : Node} (k : Text)
      → IsSorted balances
      → leaf_node p salt user_id balances ≡ ok leaf
      → (amount k leaf.sums ≡ amount k balances) × IsSorted leaf.sums
  leaf_node-sums salt user_id balances {leaf} k o h =
      let (q, s) = leaf_node-amount salt user_id balances {leaf = leaf} k h in
      (q ∙ amounts-eq-amount k balances o, s)

  -- A proof that `verify` accepts, of balances and sibling sums that are maps, carries the digest of
  -- the report; the report's signature block names the trusted key and the algorithm, and its
  -- signature of that digest verifies under that key; and for every asset the customer's balance is
  -- at most the published total, so it has not been left out of it.
  pub verify-IsAccepted :
      (signed : SignedReport) (proof : ProofDocument) (key : Text)
      → IsSorted proof.leaf.balances
      → DocumentsSorted proof.steps
      → verify p signed proof key ≡ ok tt
      → IsAccepted signed proof key
  unfolding verify verify_against_report expect_version
  verify-IsAccepted signed proof key ob od h =
      let (_, h1) = >>-eq-ok (check_report_version_and_manifest signed.report) _ h in
      let (_, h2) = >>-eq-ok (expect_leaf_kind signed.report customer) _ h1 in
      let (ev, h3) =
        >>-eq-ok
          (expect_version (codes "proof.format_version") proof.format_version proof_format_version)
          _ h2 in
      let (ea, h4) =
        >>-eq-ok
          (expect_version (codes "signature.algorithm") signed.signature.algorithm
            signature_algorithm)
          _ h3 in
      let (salt, _, h5) = >>=-eq-ok (hash32 p proof.leaf.salt (codes "leaf salt")) _ h4 in
      let (leaf, el, h6) =
        >>=-eq-ok
          (map_err (λ e. malformed (bad_leaf e))
            (leaf_node p salt proof.leaf.user_id proof.leaf.balances))
          _ h5 in
      let (es, ef) = >>-eq-ok (check_signed p signed proof.report_digest key) _ h6 in
      let sums = λ (k : Text).
        leaf_node-sums salt proof.leaf.user_id proof.leaf.balances {leaf = leaf} k ob
          (map_err-eq-ok (λ e. malformed (bad_leaf e)) _ el) in
      record {
        signed_digest = check_signed-IsSigned signed proof.report_digest key es;
        version = text_eq→eq _ _ (ensure-eq-ok _ _ ev);
        algorithm = text_eq→eq _ _ (ensure-eq-ok _ _ ea);
        included = λ k.
            omega (
              arith,
              (sums k).0,
              check_fold-total signed.report leaf proof.steps (sums k).1 od ef k,
            );
      }
