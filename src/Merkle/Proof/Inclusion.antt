-- ===== src/Merkle/Proof/Inclusion.antt =====
-- Completeness: every leaf of a tree that was built has a path, and the path verifies.
use canton_assurance_layer.Prelude.{
  ℕ, zero, suc, ◌/◌, ◌<◌, ◌≤◌, ◌≡◌, refl, sym, ap, ◌∙◌, arith, true, not, List, [], ◌∷◌, some,
  lt→ltb, length, get_elem?, get_last?, is_empty, and_then, ok, ensure, >>=-eq-ok, >>-eq-ok,
  ok-injective, subst,
}
use canton_assurance_layer.Primitives.{Primitives}
use canton_assurance_layer.Merkle.Encoding.{no_leaves}
use canton_assurance_layer.Merkle.Node.{Node}
use canton_assurance_layer.Merkle.Node.Sums.{node_eq_refl}
use canton_assurance_layer.Merkle.Tree.{
  SumTree, Proof, head?, root, sibling_step, path, path_from, leaf_count, prove, next_level, grow,
  build,
}
use canton_assurance_layer.Merkle.Tree.Totals.{grow_first}
use canton_assurance_layer.Merkle.Proof.{fold, verify_proof}
use canton_assurance_layer.Merkle.Proof.Climb.{climb, fold-append, length-next_level}

get_elem?_bound {ℓ} :
    {A : Type ℓ} (xs : List A) (i : ℕ) {x : A} → get_elem? xs i ≡ some x → i < length xs
get_elem?_bound [] i h = absurd (cc)
get_elem?_bound (x ∷ xs) zero h = omega arith
get_elem?_bound (x ∷ xs) (suc i) h = omega (arith, get_elem?_bound xs i h)

module _ (p : Primitives) where
  -- What a path promises: it folds to the one node of the last level.
  abbrev Reaches : Node → List (List Node) → ℕ → Type 0
  Reaches x levels i =
      (r : Node) × (and_then (get_last? levels) head? ≡ some r) × (fold p x (path levels i) ≡ ok r)

  -- A level on top of levels whose paths hold.
  reach_up :
      (level : List Node) (next : List Node) (above : List (List Node)) (i : ℕ) (x y : Node)
      → fold p x (sibling_step level i) ≡ ok y
      → Reaches y (next ∷ above) (i / 2)
      → Reaches x (level ∷ next ∷ above) i
  unfolding path path_from
  reach_up level next above i x y s (r, top, folds) =
      (r, top, fold-append p x (sibling_step level i) _ s ∙ folds)

  reach_single : (x y : Node) (i : ℕ) → get_elem? (y ∷ []) i ≡ some x → Reaches x ((y ∷ []) ∷ []) i
  unfolding path path_from head? fold
  reach_single x y zero h = (y, refl, ap ok (cc))
  reach_single x y (suc i) h = absurd (cc)

  -- As much fuel as there are nodes is enough.
  grow-Reaches :
      (fuel : ℕ) (level : List Node) (i : ℕ) {levels : List (List Node)} {x : Node}
      → grow p fuel level ≡ ok levels
      → length level ≤ fuel
      → get_elem? level i ≡ some x
      → Reaches x levels i
  unfolding grow
  grow-Reaches fuel [] i h n g = absurd (cc)
  grow-Reaches zero (a ∷ l) i h n g = absurd (omega arith)
  grow-Reaches (suc fuel) (a ∷ []) i {x = x} h n g =
      subst (λ levels. Reaches x levels i) (ok-injective h) (reach_single x a i g)
  grow-Reaches (suc fuel) (a ∷ b ∷ l) i {x = x} h n g =
      let (next, e, r) = >>=-eq-ok (next_level p (a ∷ b ∷ l)) _ h in
      let (above, f, o) = >>=-eq-ok (grow p fuel next) _ r in
      let (y, at, folds) = climb p (a ∷ b ∷ l) i next e g in
      let up =
        grow-Reaches fuel next (i / 2) f (omega (arith, length-next_level p (a ∷ b ∷ l) e)) at in
      let (above', first) = grow_first p fuel next f in
      let up' : Reaches y (next ∷ above') (i / 2) =
        subst (λ levels. Reaches y levels (i / 2)) first up in
      subst (λ levels. Reaches x levels i)
        (ap (λ a'. (a ∷ b ∷ l) ∷ a') (sym first) ∙ ok-injective o)
        (reach_up (a ∷ b ∷ l) next above' i x y folds up')

  -- In a tree that `build` returned, `prove` succeeds for the index of every leaf, the tree has a
  -- root, and `verify_proof` accepts that leaf with that proof against that root.
  pub prove-build :
      (leaves : List Node) (i : ℕ) {tree : SumTree} {leaf : Node}
      → build p leaves ≡ ok tree
      → get_elem? leaves i ≡ some leaf
      → (proof : Proof) × (r : Node) × (prove tree i ≡ ok proof)
        × (root tree ≡ some r)
        × (verify_proof p leaf proof r ≡ true)
  unfolding build prove root leaf_count
  prove-build leaves i {tree} {leaf} h g =
      let (s, t) = >>-eq-ok (ensure (not (is_empty leaves)) no_leaves) _ h in
      let (levels, e, o) = >>=-eq-ok (grow p (length leaves) leaves) _ t in
      let (above, first) = grow_first p (length leaves) leaves e in
      let (r, top, folds) = grow-Reaches (length leaves) leaves i e (omega arith) g in
      let same : levels ≡ tree.levels = ap (λ (x : SumTree). x.levels) (ok-injective o) in
      (
        record { steps = path tree.levels i },
        r,
        rw (← same, first, lt→ltb i (length leaves) (get_elem?_bound leaves i g)),
        rw (← same) top,
        unfold verify_proof in rw (← same, folds) (node_eq_refl r),
      )
