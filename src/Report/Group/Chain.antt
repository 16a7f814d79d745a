-- ===== src/Report/Group/Chain.antt =====
-- rust/solvency-report/src/group.rs: what `verify_chain` establishes, from a customer to the total of
-- the group.
use canton_assurance_layer.Prelude.{
  ℕ, ◌≤◌, ◌≡◌, refl, arith, inl, inr, Bool-cases, List, [], ◌∷◌, ◌++◌, none, Text, codes, BTreeMap,
  IsSorted, amount, keys, ◌==◌, text_eq, text_eq→eq, ok, ensure, ensure-eq-ok, >>=-eq-ok, >>-eq-ok,
}
use canton_assurance_layer.Primitives.{Primitives}
use canton_assurance_layer.Report.Document.{SignedReport, ProofDocument}
use canton_assurance_layer.Report.Profile.{LeafKind}
use canton_assurance_layer.Report.Verify.Failure.{entity_root_mismatch}
use canton_assurance_layer.Report.Verify.Checks.{hash32, expect_version, expect_leaf_kind}
use canton_assurance_layer.Report.Verify.Fold.{
  first_difference, first_sum_disagreement, check_signed, verify_against_report, verify,
}
use canton_assurance_layer.Report.Verify.Totals.{first_sum_disagreement-none}
use canton_assurance_layer.Report.Verify.Accepted.{
  DocumentsSorted, IsSigned, IsAccepted, check_signed-IsSigned, check_fold-total, verify-IsAccepted,
}
use canton_assurance_layer.Report.Group.{
  GroupMembershipDocument, group_membership_format_version, compare_sums, entity_leaf_node,
  verify_membership, verify_chain,
}

compare_sums-none :
    (assets : List Text) (c q : BTreeMap ℕ)
    → compare_sums assets c q ≡ ok tt
    → first_difference assets c q ≡ none
unfolding compare_sums first_difference
compare_sums-none [] c q h = refl
compare_sums-none (k ∷ assets) c q h = elim (Bool-cases (amount k c == amount k q)) [
  | inl e ↦
      let rest : compare_sums assets c q ≡ ok tt = rw e at h in
      rw e (compare_sums-none assets c q rest)
  | inr e ↦ absurd (cc (e, h))
]

-- The comparison of `verify_chain` accepts only maps that give every asset the same amount.
compare_sums-amount :
    (c q : BTreeMap ℕ)
    → compare_sums (keys c ++ keys q) c q ≡ ok tt
    → (k : Text) → amount k c ≡ amount k q
unfolding first_sum_disagreement
compare_sums-amount c q h =
    (first_sum_disagreement-none c q).0 (compare_sums-none (keys c ++ keys q) c q h)

module _ (p : Primitives) where
  verify_membership-total :
      (signed : SignedReport) (m : GroupMembershipDocument) (key : Text)
      → IsSorted m.entity.root_sums
      → DocumentsSorted m.steps
      → verify_membership p signed m key ≡ ok tt
      → IsSigned p signed m.group_report_digest key
        × ((k : Text) → amount k m.entity.root_sums ≤ amount k signed.report.root_sums)
  unfolding verify_membership verify_against_report entity_leaf_node
  verify_membership-total signed m key os od h =
      let (_, h1) =
        >>-eq-ok
          (expect_version (codes "membership.format_version") m.format_version
            group_membership_format_version)
          _ h in
      let (_, h2) = >>-eq-ok (expect_leaf_kind signed.report LeafKind.entity) _ h1 in
      let (root_hash, _, h3) =
        >>=-eq-ok (hash32 p m.entity.root_hash (codes "entity root hash")) _ h2 in
      let (s, f) = >>-eq-ok (check_signed p signed m.group_report_digest key) _ h3 in
      (
        check_signed-IsSigned p signed m.group_report_digest key s,
        λ k. check_fold-total p signed.report _ m.steps os od f k,
      )

  -- Where `verify_chain` accepts, and the balances, the sums and the siblings' sums are maps, the
  -- customer's proof is accepted against the entity's report; the group's report is signed under the
  -- key trusted for it; the membership is about the entity's book, by its root hash and its amount
  -- of every asset; and every balance of the customer is at most the total that the group publishes.
  pub verify_chain-IsAccepted :
      (group : SignedReport) (m : GroupMembershipDocument) (entity : SignedReport)
      (proof : ProofDocument) (group_key entity_key : Text)
      → IsSorted proof.leaf.balances
      → DocumentsSorted proof.steps
      → IsSorted m.entity.root_sums
      → DocumentsSorted m.steps
      → verify_chain p group m entity proof group_key entity_key ≡ ok tt
      → IsAccepted p entity proof entity_key
        × IsSigned p group m.group_report_digest group_key
        × (m.entity.root_hash ≡ entity.report.root_hash)
        × ((k : Text)
            → (amount k m.entity.root_sums ≡ amount k entity.report.root_sums)
              × (amount k proof.leaf.balances ≤ amount k group.report.root_sums))
  unfolding verify_chain
  verify_chain-IsAccepted group m entity proof group_key entity_key ob od os om h =
      let (v, h1) = >>-eq-ok (verify p entity proof entity_key) _ h in
      let (w, h2) = >>-eq-ok (verify_membership p group m group_key) _ h1 in
      let (e, h3) =
        >>-eq-ok (ensure (text_eq m.entity.root_hash entity.report.root_hash) entity_root_mismatch)
          _ h2 in
      let accepted = verify-IsAccepted p entity proof entity_key ob od v in
      let (signed, total) = verify_membership-total group m group_key os om w in
      let same = compare_sums-amount m.entity.root_sums entity.report.root_sums h3 in
      (
        accepted,
        signed,
        text_eq→eq _ _ (ensure-eq-ok _ _ e),
        λ k. (same k, omega (arith, accepted.included k, same k, total k)),
      )
