-- ===== src/Merkle/Proof/Climb.antt =====
-- One round of `build` against one round of `prove`: the step taken from a level leads to the node
-- of the next one.
use canton_assurance_layer.Prelude.{
  ℕ, zero, suc, ◌+◌, ◌*◌, ◌/◌, ◌≤◌, ◌≡◌, refl, arith, List, [], ◌∷◌, ◌++◌, Option, none, some, ltb,
  length, get_elem?, ok, >>=-eq-ok, ok-injective,
}
use canton_assurance_layer.Primitives.{Primitives}
use canton_assurance_layer.Merkle.Node.{Node, combine}
use canton_assurance_layer.Merkle.Tree.{ProofStep, sibling_of, sibling_step, step_to, next_level}
use canton_assurance_layer.Merkle.Proof.{fold, fold_step}

sibling_of-suc-suc : (i : ℕ) → sibling_of (suc (suc i)) ≡ suc (suc (sibling_of i))
unfolding sibling_of
sibling_of-suc-suc i = ground arith

ltb-suc-suc : (i j : ℕ) → ltb (suc (suc i)) (suc (suc j)) ≡ ltb i j
ltb-suc-suc i j = ground arith

-- Two nodes further along, the step is the same.
sibling_step-suc-suc :
    (x y : Node) (l : List Node) (i : ℕ) → sibling_step (x ∷ y ∷ l) (suc (suc i)) ≡ sibling_step l i
unfolding sibling_step
sibling_step-suc-suc x y l i = rw (sibling_of-suc-suc i) (same (get_elem? l (sibling_of i)))
  where
    same :
        (o : Option Node)
        → step_to (suc (suc i)) (suc (suc (sibling_of i))) o ≡ step_to i (sibling_of i) o
    same none = refl
    same (some n) = rw (ltb-suc-suc (sibling_of i) i)

module _ (p : Primitives) where
  pub fold-append :
      (x : Node) (s t : List ProofStep) {y : Node}
      → fold p x s ≡ ok y
      → fold p x (s ++ t) ≡ fold p y t
  unfolding fold
  fold-append x [] t h = rw (ok-injective h)
  fold-append x (a ∷ s) t h =
      let (n, e, r) = >>=-eq-ok (fold_step p x a) _ h in rw e (fold-append n s t r)

  pub climb :
      (level : List Node) (i : ℕ) (next : List Node) {x : Node}
      → next_level p level ≡ ok next
      → get_elem? level i ≡ some x
      → (y : Node) × (get_elem? next (i / 2) ≡ some y) × (fold p x (sibling_step level i) ≡ ok y)
  unfolding next_level
  climb [] i next h g = absurd (cc)
  climb (a ∷ []) zero next {x} h g =
      (x, rw (← ok-injective h) g, unfold fold sibling_step sibling_of in refl)
  climb (a ∷ []) (suc i) next h g = absurd (cc)
  climb (a ∷ b ∷ l) zero next {x} h g =
      let (n, e, r) = >>=-eq-ok (combine p a b) _ h in
      let (ns, f, o) = >>=-eq-ok (next_level p l) _ r in
      let ax : a ≡ x = cc in
      (
        n,
        rw (← ok-injective o) refl,
        rw (← ax) (unfold fold fold_step sibling_step sibling_of in rw e),
      )
  climb (a ∷ b ∷ l) (suc zero) next {x} h g =
      let (n, e, r) = >>=-eq-ok (combine p a b) _ h in
      let (ns, f, o) = >>=-eq-ok (next_level p l) _ r in
      let bx : b ≡ x = cc in
      (
        n,
        rw (← ok-injective o) refl,
        rw (← bx) (unfold fold fold_step sibling_step sibling_of in rw e),
      )
  climb (a ∷ b ∷ l) (suc (suc i)) next {x} h g =
      let (n, e, r) = >>=-eq-ok (combine p a b) _ h in
      let (ns, f, o) = >>=-eq-ok (next_level p l) _ r in
      let (y, at, folds) = climb l i ns f g in
      let half : suc (suc i) / 2 ≡ suc (i / 2) = omega arith in
      (y, rw (half, ← ok-injective o) at, rw (sibling_step-suc-suc a b l i) folds)

  -- A level of two nodes or more shrinks, and does not vanish.
  pub length-next_level :
      (level : List Node) {next : List Node}
      → next_level p level ≡ ok next
      → (2 * length next ≤ length level + 1) × (length level ≤ 2 * length next)
  unfolding next_level
  length-next_level [] {next} h = rw (← ok-injective h) (omega arith)
  length-next_level (a ∷ []) {next} h = rw (← ok-injective h) (omega arith)
  length-next_level (a ∷ b ∷ l) {next} h =
      let (n, e, r) = >>=-eq-ok (combine p a b) _ h in
      let (ns, f, o) = >>=-eq-ok (next_level p l) _ r in
      rw (← ok-injective o) (omega (arith, length-next_level l f))
