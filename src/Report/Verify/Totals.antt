-- ===== src/Report/Verify/Totals.antt =====
-- rust/solvency-report/src/verify.rs: what its own fold and its comparison of totals compute.
use canton_assurance_layer.Prelude.{
  ℕ, ◌≡◌, ◌↔◌, ◌⊎◌, inl, inr, refl, Bool-cases, List, [], ◌∷◌, ◌++◌, none, Text, BTreeMap, get,
  insert, keys, amount, checked_add, All, text_eq, text_eq_iff, ◌==◌, ==_iff, Result, ok, err,
  map_err, ◌>>=◌, subst, Option-cases,
}
use canton_assurance_layer.Primitives.{Primitives}
use canton_assurance_layer.Merkle.Encoding.{MerkleError, sum_overflow}
use canton_assurance_layer.Merkle.Node as Tree
use canton_assurance_layer.Merkle.Node.{Node}
use canton_assurance_layer.Merkle.Tree.{ProofStep}
use canton_assurance_layer.Merkle.Proof as Climb
use canton_assurance_layer.Report.Verify.Failure.{
  VerificationFailure, malformed, Malformed, bad_leaf,
}
use canton_assurance_layer.Report.Verify.Fold.{
  add_sums, combine, fold, first_difference, first_sum_disagreement,
}

-- The failure that the verifier reports where the tree crate reports `e`.
abbrev pub as_failure : MerkleError → VerificationFailure
as_failure (sum_overflow asset) = malformed (Malformed.sum_overflow asset)
as_failure other = malformed (bad_leaf other)

-- A translation of the error goes through a chain, step by step.
map_err->>= {ℓ κ μ ν} :
    {E : Type ℓ} {F : Type κ} {A : Type μ} {B : Type ν} (g : E → F) (m : Result E A)
    (f : A → Result F B) (f' : A → Result E B)
    → ((a : A) → f a ≡ map_err g (f' a))
    → (map_err g m >>= f) ≡ map_err g (m >>= f')
map_err->>= g (ok a) f f' h = h a
map_err->>= g (err e) f f' h = refl

add_sums-as_failure : (s r : BTreeMap ℕ) → add_sums s r ≡ map_err as_failure (Tree.add_sums s r)
unfolding add_sums Tree.add_sums
add_sums-as_failure s [] = refl
add_sums-as_failure s ((asset, v) ∷ r) = elim (Option-cases (checked_add (amount asset s) v)) [
  | inl none_added ↦ rw none_added refl
  | inr (slot, added) ↦ rw added (add_sums-as_failure (insert asset slot s) r)
]

module _ (p : Primitives) where
  combine-as_failure : (x y : Node) → combine p x y ≡ map_err as_failure (Tree.combine p x y)
  unfolding combine Tree.combine
  combine-as_failure x y =
      rw (add_sums-as_failure x.sums y.sums)
        (map_err->>= as_failure (Tree.add_sums x.sums y.sums) _ _ (λ sums. refl))

  -- The verifier's own fold computes what the fold of the tree crate computes, and on an overflow
  -- reports the failure that names the same asset.
  pub fold-as_failure :
      (x : Node) (steps : List ProofStep)
      → fold p x steps ≡ map_err as_failure (Climb.fold p x steps)
  unfolding fold Climb.fold Climb.fold_step
  fold-as_failure x [] = refl
  fold-as_failure x (step ∷ steps) = elim (Bool-cases step.sibling_on_left) [
    | inl left ↦
        rw (left, combine-as_failure step.sibling x)
          (map_err->>= as_failure (Tree.combine p step.sibling x) _ _
            (λ next. fold-as_failure next steps))
    | inr right ↦
        rw (right, combine-as_failure x step.sibling)
          (map_err->>= as_failure (Tree.combine p x step.sibling) _ _
            (λ next. fold-as_failure next steps))
  ]

first_difference-All :
    (assets : List Text) (f q : BTreeMap ℕ)
    → first_difference assets f q ≡ none
    → All (λ k. amount k f ≡ amount k q) assets
unfolding first_difference
first_difference-All [] f q h = tt
first_difference-All (k ∷ assets) f q h = elim (Bool-cases (amount k f == amount k q)) [
  | inl e ↦
      let rest : first_difference assets f q ≡ none = rw e at h in
      ((==_iff _ _).0 e, first_difference-All assets f q rest)
  | inr e ↦ absurd (cc (h, e))
]

first_difference-none :
    (assets : List Text) (f q : BTreeMap ℕ)
    → ((k : Text) → amount k f ≡ amount k q)
    → first_difference assets f q ≡ none
unfolding first_difference
first_difference-none [] f q h = refl
first_difference-none (k ∷ assets) f q h =
    rw ((==_iff _ _).1 (h k)) (first_difference-none assets f q h)

All-of-append {κ} : (P : Text → Type κ) (xs ys : List Text) → All P (xs ++ ys) → All P xs × All P ys
All-of-append P [] ys h = (tt, h)
All-of-append P (x ∷ xs) ys (h, hs) = let (a, b) = All-of-append P xs ys hs in ((h, a), b)

-- A key is absent, or what holds of every key holds of it.
get-cases :
    (P : Text → Type 0) (k : Text) (m : BTreeMap ℕ) → All P (keys m) → (get k m ≡ none) ⊎ P k
get-cases P k [] h = inl refl
get-cases P k ((j, v) ∷ m) (h, hs) = elim (Bool-cases (text_eq j k)) [
  | inl e ↦ inr (subst P ((text_eq_iff j k).0 e) h)
  | inr e ↦ rw e (get-cases P k m hs)
]

-- The comparison of the totals finds no disagreement exactly where the two maps give every asset,
-- listed or not, the same amount.
pub first_sum_disagreement-none :
    (folded published : BTreeMap ℕ)
    → (first_sum_disagreement folded published ≡ none)
      ↔ ((k : Text) → amount k folded ≡ amount k published)
unfolding first_sum_disagreement
first_sum_disagreement-none f q = (to, first_difference-none (keys f ++ keys q) f q)
  where
    P : Text → Type 0
    P k = amount k f ≡ amount k q

    to : first_difference (keys f ++ keys q) f q ≡ none → (k : Text) → amount k f ≡ amount k q
    to h k =
        let (a, b) =
          All-of-append P (keys f) (keys q) (first_difference-All (keys f ++ keys q) f q h) in
        elim (get-cases P k f a) [
          | inr e ↦ e
          | inl e ↦ elim (get-cases P k q b) [ inr r ↦ r | inl r ↦ (cc (e, r)) ]
        ]
