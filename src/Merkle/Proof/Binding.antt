-- ===== src/Merkle/Proof/Binding.antt =====
-- Soundness of `verify_proof`: what an accepted proof says of the leaf's amounts and of its hash.
use canton_assurance_layer.Prelude.{
  ℕ, ◌+◌, ◌≤◌, ◌≡◌, refl, sym, ap, ◌∙◌, ◌⊎◌, inl, inr, arith, Bool, true, List, [], ◌∷◌, ◌++◌,
  if◌then◌else◌, Text, Bytes, BTreeMap, IsSorted, amount, All, length, append_inj, text_eq,
  text_eq_iff, Bool-cases, Result, ok, err, >>=-eq-ok, ok-injective,
}
use canton_assurance_layer.Primitives.{Primitives, Collision, CollisionIn, IsLawful}
use canton_assurance_layer.Merkle.Encoding.{MerkleError, sums_canonical}
use canton_assurance_layer.Merkle.Node.{Node, add_sums, node_domain, node_hash, combine}
use canton_assurance_layer.Merkle.Node.Sums.{amount-combine, combine-IsSorted, node_eq→eq}
use canton_assurance_layer.Merkle.Tree.{ProofStep, Proof}
use canton_assurance_layer.Merkle.Proof.{fold_step, fold, compare_root, verify_proof}

-- What the siblings of a path add to an asset.
unfoldable pub siblings_total : Text → List ProofStep → ℕ
siblings_total k [] = 0
siblings_total k (step ∷ steps) = amount k step.sibling.sums + siblings_total k steps

abbrev pub SiblingsSorted : List ProofStep → Type 0
SiblingsSorted = All (λ (s : ProofStep). IsSorted s.sibling.sums)

-- The directions of a path: the position that it proves.
unfoldable pub directions : List ProofStep → List Bool
directions [] = []
directions (step ∷ steps) = step.sibling_on_left ∷ directions steps

abbrev pub Siblings32 : List ProofStep → Type 0
Siblings32 = All (λ (s : ProofStep). length s.sibling.hash ≡ 32)

-- Two inputs of the hash with one digest are equal, or are a collision.
pub equal_or_Collision :
    (p : Primitives) (a b : Bytes) → p.sha256 a ≡ p.sha256 b → (a ≡ b) ⊎ Collision p a b
equal_or_Collision p a b h = elim (Bool-cases (text_eq a b)) [
  | inl e ↦ inl ((text_eq_iff a b).0 e)
  | inr e ↦ inr ((λ q. cc (e, (text_eq_iff a b).1 q)), h)
]

-- What is hashed for a node over two children.
unfoldable pub node_preimage : Bytes → Bytes → BTreeMap ℕ → Bytes
node_preimage l r sums = node_domain ++ (l ++ (r ++ sums_canonical sums))

module _ (p : Primitives) where
  -- What the verification of a path hashes at one step, for the node that it makes there.
  unfoldable pub step_preimage : Node → ProofStep → Node → Bytes
  step_preimage x step made =
      if step.sibling_on_left
      then node_preimage step.sibling.hash x.hash made.sums
      else node_preimage x.hash step.sibling.hash made.sums

  abbrev pub step_or_none :
      Node → ProofStep → Result MerkleError Node → (Node → List Bytes) → List Bytes
  step_or_none x step (ok made) behind = step_preimage x step made ∷ behind made
  step_or_none x step (err e) behind = []

  -- What the verification of a path hashes, from the leaf to the root.
  unfoldable pub path_preimages : Node → List ProofStep → List Bytes
  path_preimages x [] = []
  path_preimages x (step ∷ steps) =
      step_or_none x step (fold_step p x step) (λ made. path_preimages made steps)

  amount-fold_step :
      (k : Text) (x : Node) (step : ProofStep) {y : Node}
      → IsSorted x.sums
      → IsSorted step.sibling.sums
      → fold_step p x step ≡ ok y
      → (amount k y.sums ≡ amount k x.sums + amount k step.sibling.sums) × IsSorted y.sums
  unfolding fold_step
  amount-fold_step k x step {y} sx ss h = elim (Bool-cases step.sibling_on_left) [
    | inl left ↦
        let e : combine p step.sibling x ≡ ok y = rw left at h in
        (
          omega (arith, amount-combine p k step.sibling x {n = y} sx e),
          combine-IsSorted p step.sibling x {n = y} ss e,
        )
    | inr right ↦
        let e : combine p x step.sibling ≡ ok y = rw right at h in
        (
          amount-combine p k x step.sibling {n = y} ss e,
          combine-IsSorted p x step.sibling {n = y} sx e,
        )
  ]

  pub amount-fold :
      (k : Text) (x : Node) (steps : List ProofStep) {r : Node}
      → IsSorted x.sums
      → SiblingsSorted steps
      → fold p x steps ≡ ok r
      → amount k r.sums ≡ amount k x.sums + siblings_total k steps
  unfolding fold siblings_total
  amount-fold k x [] {r} sx ss h =
      omega (arith, ap (λ (n : Node). amount k n.sums) (ok-injective h))
  amount-fold k x (step ∷ steps) {r} sx (s, ss) h =
      let (y, e, f) = >>=-eq-ok (fold_step p x step) _ h in
      let (ay, sy) = amount-fold_step k x step {y = y} sx s e in
      omega (arith, ay, amount-fold k y steps {r = r} sy ss f)

  pub accepted :
      (leaf : Node) (proof : Proof) (root : Node)
      → verify_proof p leaf proof root ≡ true
      → fold p leaf proof.steps ≡ ok root
  unfolding verify_proof
  accepted leaf proof root h = go (fold p leaf proof.steps) h
    where
      go : (o : Result MerkleError Node) → compare_root root o ≡ true → o ≡ ok root
      go (ok n) e = ap ok (node_eq→eq n root e)
      go (err m) e = absurd (cc)

  -- An accepted proof fixes the root's totals: for every asset the published total is the leaf's
  -- amount and the siblings' amounts together, where the leaf's and the siblings' sums are maps.
  -- So no total below the leaf's own amount is accepted.
  pub verify_proof-total :
      (k : Text) (leaf : Node) (proof : Proof) (root : Node)
      → IsSorted leaf.sums
      → SiblingsSorted proof.steps
      → verify_proof p leaf proof root ≡ true
      → (amount k root.sums ≡ amount k leaf.sums + siblings_total k proof.steps)
        × (amount k leaf.sums ≤ amount k root.sums)
  verify_proof-total k leaf proof root sl ss h =
      let e = amount-fold k leaf proof.steps {r = root} sl ss (accepted leaf proof root h) in
      (e, omega (arith, e))

  -- The hash of a node determines its children's hashes and the joined text of its sums.
  node_hash_inj :
      (l r l' r' : Bytes) (s s' : BTreeMap ℕ)
      → length l ≡ length l'
      → length r ≡ length r'
      → node_hash p l r s ≡ node_hash p l' r' s'
      → ((l ≡ l') × (r ≡ r') × (sums_canonical s ≡ sums_canonical s'))
        ⊎ Collision p (node_preimage l r s) (node_preimage l' r' s')
  unfolding node_hash node_preimage
  node_hash_inj l r l' r' s s' hl hr h = elim (equal_or_Collision p _ _ h) [
    | inr c ↦ inr c
    | inl e ↦
        let (d, e1) = append_inj node_domain node_domain _ _ refl e in
        let (el, e2) = append_inj l l' _ _ hl e1 in
        let (er, e3) = append_inj r r' _ _ hr e2 in inl (el, er, e3)
  ]

  combine_hash :
      (l r : Node) {n : Node} → combine p l r ≡ ok n → n.hash ≡ node_hash p l.hash r.hash n.sums
  unfolding combine
  combine_hash l r {n} h =
      let (sums, e, o) = >>=-eq-ok (add_sums l.sums r.sums) _ h in
      let q = ok-injective o in
      ap (λ (x : Node). x.hash) (sym q) ∙ ap (λ (x : Node). node_hash p l.hash r.hash x.sums) q

  -- Both children of a combined node, from its hash.
  combine_inj :
      (l r l' r' : Node) {n n' : Node}
      → length l.hash ≡ length l'.hash
      → length r.hash ≡ length r'.hash
      → combine p l r ≡ ok n
      → combine p l' r' ≡ ok n'
      → n.hash ≡ n'.hash
      → ((l.hash ≡ l'.hash) × (r.hash ≡ r'.hash))
        ⊎ Collision p (node_preimage l.hash r.hash n.sums) (node_preimage l'.hash r'.hash n'.sums)
  combine_inj l r l' r' {n} {n'} hl hr c c' h =
      elim (node_hash_inj l.hash r.hash l'.hash r'.hash n.sums n'.sums hl hr
        (sym (combine_hash l r {n = n} c) ∙ h ∙ combine_hash l' r' {n = n'} c')) [
          | inl e ↦ inl (e.0, e.1)
          | inr c ↦ inr c
        ]

  fold_step_inj :
      (x x' : Node) (s s' : ProofStep) {y y' : Node}
      → length x.hash ≡ length x'.hash
      → length s.sibling.hash ≡ length s'.sibling.hash
      → s.sibling_on_left ≡ s'.sibling_on_left
      → fold_step p x s ≡ ok y
      → fold_step p x' s' ≡ ok y'
      → y.hash ≡ y'.hash
      → (x.hash ≡ x'.hash) ⊎ Collision p (step_preimage x s y) (step_preimage x' s' y')
  unfolding fold_step step_preimage
  fold_step_inj x x' s s' {y} {y'} hx hs d f f' h = elim (Bool-cases s.sibling_on_left) [
    | inl left ↦
        let e : combine p s.sibling x ≡ ok y = rw left at f in
        let e' : combine p s'.sibling x' ≡ ok y' = rw (sym d ∙ left) at f' in
        elim (combine_inj s.sibling x s'.sibling x' {n = y} {n' = y'} hs hx e e' h) [
          | inl q ↦ inl q.1
          | inr c ↦ inr (rw (left, sym d ∙ left) c)
        ]
    | inr right ↦
        let e : combine p x s.sibling ≡ ok y = rw right at f in
        let e' : combine p x' s'.sibling ≡ ok y' = rw (sym d ∙ right) at f' in
        elim (combine_inj x s.sibling x' s'.sibling {n = y} {n' = y'} hx hs e e' h) [
          | inl q ↦ inl q.0
          | inr c ↦ inr (rw (right, sym d ∙ right) c)
        ]
  ]

module _ (p : Primitives) (lawful : IsLawful p) where
  length-fold_step :
      (x : Node) (s : ProofStep) {y : Node} → fold_step p x s ≡ ok y → length y.hash ≡ 32
  unfolding fold_step node_hash
  length-fold_step x s {y} h = elim (Bool-cases s.sibling_on_left) [
    | inl left ↦
        let e : combine p s.sibling x ≡ ok y = rw left at h in
        rw (combine_hash p s.sibling x {n = y} e) (lawful.sha256_length _)
    | inr right ↦
        let e : combine p x s.sibling ≡ ok y = rw right at h in
        rw (combine_hash p x s.sibling {n = y} e) (lawful.sha256_length _)
  ]

  pub fold_inj :
      (x x' : Node) (steps steps' : List ProofStep) {r r' : Node}
      → length x.hash ≡ 32
      → length x'.hash ≡ 32
      → Siblings32 steps
      → Siblings32 steps'
      → directions steps ≡ directions steps'
      → fold p x steps ≡ ok r
      → fold p x' steps' ≡ ok r'
      → r.hash ≡ r'.hash
      → (x.hash ≡ x'.hash) ⊎ CollisionIn p (path_preimages p x steps) (path_preimages p x' steps')
  unfolding fold directions path_preimages
  fold_inj x x' [] [] hx hx' hs hs' d f f' h = inl (
      ap (λ (n : Node). n.hash) (ok-injective f)
      ∙ h
      ∙ ap (λ (n : Node). n.hash) (sym (ok-injective f')))
  fold_inj x x' [] (s' ∷ t') hx hx' hs hs' d f f' h = absurd (cc)
  fold_inj x x' (s ∷ t) [] hx hx' hs hs' d f f' h = absurd (cc)
  fold_inj x x' (s ∷ t) (s' ∷ t') {r} {r'} hx hx' (hs, ht) (hs', ht') d f f' h =
      let (y, e, g) = >>=-eq-ok (fold_step p x s) _ f in
      let (y', e', g') = >>=-eq-ok (fold_step p x' s') _ f' in
      let up =
        fold_inj y y' t t' {r = r} {r' = r'} (length-fold_step x s {y = y} e)
          (length-fold_step x' s' {y = y'} e') ht ht' (cc) g g' h in
      rw (e, e')
        (elim up [
          | inr c ↦ inr (inr c)
          | inl q ↦
              elim (fold_step_inj p x x' s s' {y = y} {y' = y'} (hx ∙ sym hx') (hs ∙ sym hs') (cc) e
                e' q) [ inl same ↦ inl same | inr c ↦ inr (inl c) ]
        ])

  -- A root binds its leaves: if two leaves are both accepted at one position (the same directions)
  -- against one root, their hashes are equal, or at some step of the two paths the two inputs that
  -- the verification hashes there are different and have one SHA-256 digest. All hashes of the leaves
  -- and the siblings are 32 bytes.
  pub verify_proof-binding :
      (leaf leaf' : Node) (proof proof' : Proof) (root : Node)
      → length leaf.hash ≡ 32
      → length leaf'.hash ≡ 32
      → Siblings32 proof.steps
      → Siblings32 proof'.steps
      → directions proof.steps ≡ directions proof'.steps
      → verify_proof p leaf proof root ≡ true
      → verify_proof p leaf' proof' root ≡ true
      → (leaf.hash ≡ leaf'.hash)
        ⊎ CollisionIn p (path_preimages p leaf proof.steps) (path_preimages p leaf' proof'.steps)
  verify_proof-binding leaf leaf' proof proof' root hl hl' hs hs' d v v' =
      fold_inj leaf leaf' proof.steps proof'.steps {r = root} {r' = root} hl hl' hs hs' d
        (accepted p leaf proof root v) (accepted p leaf' proof' root v') refl
