-- ===== src/Cli/Recompute/Match.antt =====
-- When a dump matches a report: its own tree has the published root, and its own balances the
-- published totals.
use canton_assurance_layer.Prelude.{
  ℕ, ◌≡◌, refl, sym, ap, ◌∙◌, subst, ◌↔◌, inl, inr, true, not, List, [], ◌∷◌, ◌++◌, some, Text,
  text_eq_iff, ◌==◌, ==_iff, &&_iff, is_empty, keys, BTreeMap, amount, or_zero, All, ok, ensure,
  map_err, collect, length, >>=-eq-ok, >>-eq-ok, ok-injective, Bool-cases,
}
use canton_assurance_layer.Primitives.{Primitives}
use canton_assurance_layer.Merkle.Node.{Node}
use canton_assurance_layer.Merkle.Tree.{SumTree, root, build}
use canton_assurance_layer.Report.Document.{Report, SignedReport}
use canton_assurance_layer.Report.Manifest.Diff.{sort_dedup}
use canton_assurance_layer.Report.Manifest.Changes.{All-sort_dedup, All-split, absent_or}
use canton_assurance_layer.Report.Verify.Accepted.{map_err-eq-ok}
use canton_assurance_layer.Report.Produce.{LeafInput, input_node, report_for, signed_by, publish}
use canton_assurance_layer.Report.Produce.Totals.{held, publish-parts, amount-publish}
use canton_assurance_layer.Cli.Recompute.{
  DumpEntry, RecomputeOutcome, empty_dump, not_rebuilt, matches, disagreeing, throwaway,
  metadata_of, outcome_of, input_of, recompute,
}

abbrev AgreeOn : BTreeMap ℕ → BTreeMap ℕ → Text → Type 0
AgreeOn ours theirs k = amount k ours ≡ amount k theirs

disagreeing-All :
    (assets : List Text) (ours theirs : BTreeMap ℕ)
    → disagreeing assets ours theirs ≡ []
    → All (AgreeOn ours theirs) assets
unfolding disagreeing
disagreeing-All [] ours theirs h = tt
disagreeing-All (k ∷ assets) ours theirs h = elim (Bool-cases (amount k ours == amount k theirs)) [
  | inl e ↦ (
    (==_iff (amount k ours) (amount k theirs)).0 e,
    disagreeing-All assets ours theirs (cc (e, h)),
  )
  | inr e ↦ absurd (cc (e, h))
]

disagreeing-same :
    (assets : List Text) (ours theirs : BTreeMap ℕ)
    → ((k : Text) → AgreeOn ours theirs k)
    → disagreeing assets ours theirs ≡ []
unfolding disagreeing
disagreeing-same [] ours theirs h = refl
disagreeing-same (k ∷ assets) ours theirs h =
    rw ((==_iff (amount k ours) (amount k theirs)).1 (h k)) (disagreeing-same assets ours theirs h)

none_left : (l : List Text) → All (λ k. ⊥) l → l ≡ []
none_left [] h = refl
none_left (k ∷ l) h = absurd (h.0)

empty_of_sorted : (l : List Text) → is_empty (sort_dedup l) ≡ true → l ≡ []
empty_of_sorted l h = none_left l (All-sort_dedup (λ k. ⊥) l (nothing (sort_dedup l) h))
  where
    nothing : (m : List Text) → is_empty m ≡ true → All (λ k. ⊥) m
    nothing [] e = tt
    nothing (k ∷ m) e = absurd (cc (e))

everywhere :
    (ours theirs : BTreeMap ℕ)
    → All (AgreeOn ours theirs) (keys ours ++ keys theirs)
    → (k : Text) → AgreeOn ours theirs k
everywhere ours theirs h k =
    let (a, b) = All-split (AgreeOn ours theirs) (keys ours) (keys theirs) h in
    elim (absent_or (AgreeOn ours theirs) k ours a) [
      | inr q ↦ q
      | inl x ↦ elim (absent_or (AgreeOn ours theirs) k theirs b) [
        | inr q ↦ q
        | inl y ↦ ap or_zero (x ∙ sym y)
      ]
    ]

-- A comparison that finds nothing: the roots are one, and so is every asset's total.
matches-outcome_of :
    (n : ℕ) (published recomputed : Report)
    → (matches (outcome_of n published recomputed) ≡ true) ↔ (
        (published.root_hash ≡ recomputed.root_hash)
        × ((k : Text) → AgreeOn recomputed.root_sums published.root_sums k))
unfolding matches sort_dedup
matches-outcome_of n published recomputed =
    let ks = keys recomputed.root_sums ++ keys published.root_sums in
    (
      (λ m.
          let (r, e) = (&&_iff _ _).0 m in
          (
            (text_eq_iff published.root_hash recomputed.root_hash).0 r,
            everywhere recomputed.root_sums published.root_sums
                (disagreeing-All ks recomputed.root_sums published.root_sums (empty_of_sorted _ e)),
          )),
      (λ q.
          rw
            (
              (text_eq_iff published.root_hash recomputed.root_hash).1 q.0,
              disagreeing-same ks recomputed.root_sums published.root_sums q.1,
            )
            refl),
    )

-- Where `recompute` runs on a dump, the dump's entries are read to leaves, and a tree is built from
-- those; the run matches exactly where that tree's root is the published root and every published
-- total is what the leaves hold of the asset, all together.
pub recompute-matches :
    (p : Primitives) (dump : List DumpEntry) (signed : SignedReport) (outcome : RecomputeOutcome)
    → recompute p dump signed ≡ ok outcome
    → (inputs : List LeafInput) × (nodes : List Node) × (tree : SumTree) × (top : Node) × (collect
          (input_of p)
          dump
        ≡ ok inputs)
      × (collect (input_node p) inputs ≡ ok nodes)
      × (build p nodes ≡ ok tree)
      × (root tree ≡ some top)
      × ((matches outcome ≡ true) ↔ (
          (signed.report.root_hash ≡ p.hex_encode top.hash)
          × ((k : Text) → held k inputs ≡ amount k signed.report.root_sums)))
unfolding recompute signed_by report_for
recompute-matches p dump signed outcome h =
    let (a, h1) = >>-eq-ok (ensure (not (is_empty dump)) empty_dump) _ h in
    let (inputs, ei, h2) = >>=-eq-ok (collect (input_of p) dump) _ h1 in
    let (rebuilt, er, h3) =
      >>=-eq-ok (map_err not_rebuilt (publish p inputs (metadata_of signed.report) throwaway)) _
        h2 in
    let done = map_err-eq-ok not_rebuilt _ er in
    let (nodes, tree, top, en, built, top_is, ep, same) =
      publish-parts p inputs (metadata_of signed.report) throwaway rebuilt done in
    let hash : rebuilt.signed_report.report.root_hash ≡ p.hex_encode top.hash =
      ap (λ (x : SignedReport). x.report.root_hash) (sym same) in
    let sums = λ (k : Text).
      amount-publish p k inputs (metadata_of signed.report) throwaway {published = rebuilt} done in
    let compared = matches-outcome_of (length inputs) signed.report rebuilt.signed_report.report in
    (
      inputs,
      nodes,
      tree,
      top,
      ei,
      en,
      built,
      top_is,
      (
        (λ m.
            let q = compared.0 (subst (λ o. matches o ≡ true) (sym (ok-injective h3)) m) in
            (q.0 ∙ hash, λ k. sym (sums k) ∙ q.1 k)),
        (λ q.
            subst (λ o. matches o ≡ true) (ok-injective h3)
              (compared.1 (q.0 ∙ sym hash, λ k. sums k ∙ q.1 k))),
      ),
    )
