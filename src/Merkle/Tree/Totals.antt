-- ===== src/Merkle/Tree/Totals.antt =====
-- Aggregation: every level of a tree carries the leaves' totals, asset by asset.
use canton_assurance_layer.Prelude.{
  ℕ, zero, suc, ◌+◌, ◌<◌, ◌≤◌, ◌≡◌, refl, sym, ap, ◌∙◌, arith, false, not, List, [], ◌∷◌, some,
  none, Text, IsSorted, amount, All, length, get_last?, is_empty, and_then, u128_mod, ok, ensure,
  >>=-eq-ok, >>-eq-ok, ok-injective, subst,
}
use canton_assurance_layer.Primitives.{Primitives}
use canton_assurance_layer.Merkle.Encoding.{no_leaves}
use canton_assurance_layer.Merkle.Node.{Node, combine}
use canton_assurance_layer.Merkle.Node.Sums.{amount-combine, combine-IsSorted, combine_total}
use canton_assurance_layer.Merkle.Tree.{SumTree, head?, root, next_level, grow, build}
use canton_assurance_layer.Merkle.Proof.Climb.{length-next_level}

-- The total of an asset over a level.
unfoldable pub total : Text → List Node → ℕ
total k [] = 0
total k (x ∷ l) = amount k x.sums + total k l

-- Every node's sums are a map: the keys rise.
abbrev pub AllSorted : List Node → Type 0
AllSorted = All (λ (x : Node). IsSorted x.sums)

-- The last level of a stack is the last level of what lies above the first.
top_under :
    (level next : List Node) (above : List (List Node)) {levels : List (List Node)} {r : Node}
    → levels ≡ level ∷ next ∷ above
    → and_then (get_last? levels) head? ≡ some r
    → and_then (get_last? (next ∷ above)) head? ≡ some r
top_under level next above e t = rw e at t

no_top :
    {levels : List (List Node)} {r : Node}
    → levels ≡ [] ∷ []
    → and_then (get_last? levels) head? ≡ some r
    → ⊥
unfolding head?
no_top {levels} {r} e t = let q : none ≡ some r = rw e at t in cc

single :
    (k : Text) (x : Node) {levels : List (List Node)} {r : Node}
    → levels ≡ (x ∷ []) ∷ []
    → and_then (get_last? levels) head? ≡ some r
    → amount k r.sums ≡ total k (x ∷ [])
unfolding head? total
single k x {levels} {r} e t =
    let q : some x ≡ some r = rw e at t in let xr : x ≡ r = cc in rw (← xr) (omega arith)

total_pair :
    (k : Text) (a b n : Node) (l ns : List Node)
    → amount k n.sums ≡ amount k a.sums + amount k b.sums
    → total k ns ≡ total k l
    → total k (n ∷ ns) ≡ total k (a ∷ b ∷ l)
unfolding total
total_pair k a b n l ns h t = omega (arith)

module _ (p : Primitives) where
  next_level-AllSorted :
      (level : List Node) {next : List Node}
      → AllSorted level
      → next_level p level ≡ ok next
      → AllSorted next
  unfolding next_level
  next_level-AllSorted [] s h = subst AllSorted (ok-injective h) s
  next_level-AllSorted (a ∷ []) s h = subst AllSorted (ok-injective h) s
  next_level-AllSorted (a ∷ b ∷ l) (sa, (sb, sl)) h =
      let (n, e, r) = >>=-eq-ok (combine p a b) _ h in
      let (ns, f, o) = >>=-eq-ok (next_level p l) _ r in
      subst AllSorted (ok-injective o) (combine-IsSorted p a b sa e, next_level-AllSorted l sl f)

  total-next_level :
      (k : Text) (level : List Node) {next : List Node}
      → AllSorted level
      → next_level p level ≡ ok next
      → total k next ≡ total k level
  unfolding next_level
  total-next_level k [] s h = rw (ok-injective h)
  total-next_level k (a ∷ []) s h = rw (← ok-injective h)
  total-next_level k (a ∷ b ∷ l) (sa, (sb, sl)) h =
      let (n, e, r) = >>=-eq-ok (combine p a b) _ h in
      let (ns, f, o) = >>=-eq-ok (next_level p l) _ r in
      ap (total k) (sym (ok-injective o))
      ∙ total_pair k a b n l ns (amount-combine p k a b {n = n} sb e) (total-next_level k l sl f)

  -- The first level is the one that the loop started from.
  pub grow_first :
      (fuel : ℕ) (level : List Node) {levels : List (List Node)}
      → grow p fuel level ≡ ok levels
      → (above : List (List Node)) × (levels ≡ level ∷ above)
  unfolding grow
  grow_first zero level h = ([], sym (ok-injective h))
  grow_first (suc fuel) [] h = ([], sym (ok-injective h))
  grow_first (suc fuel) (x ∷ []) h = ([], sym (ok-injective h))
  grow_first (suc fuel) (x ∷ y ∷ l) h =
      let (next, e, r) = >>=-eq-ok (next_level p (x ∷ y ∷ l)) _ h in
      let (above, f, o) = >>=-eq-ok (grow p fuel next) _ r in (above, sym (ok-injective o))

  -- Whatever loop produced the levels, a node at the top carries the totals.
  total-grow :
      (k : Text) (fuel : ℕ) (level : List Node) {levels : List (List Node)} {r : Node}
      → AllSorted level
      → length level ≤ fuel
      → grow p fuel level ≡ ok levels
      → and_then (get_last? levels) head? ≡ some r
      → amount k r.sums ≡ total k level
  unfolding grow
  total-grow k zero [] s n h t = absurd (no_top (sym (ok-injective h)) t)
  total-grow k zero (x ∷ l) s n h t = absurd (omega arith)
  total-grow k (suc fuel) [] s n h t = absurd (no_top (sym (ok-injective h)) t)
  total-grow k (suc fuel) (x ∷ []) s n h t = single k x (sym (ok-injective h)) t
  total-grow k (suc fuel) (x ∷ y ∷ l) {r = r} s n h t =
      let (next, e, g) = >>=-eq-ok (next_level p (x ∷ y ∷ l)) _ h in
      let (above, f, o) = >>=-eq-ok (grow p fuel next) _ g in
      let (above', first) = grow_first fuel next f in
      total-grow k fuel next {r = r} (next_level-AllSorted (x ∷ y ∷ l) s e)
        (omega (arith, length-next_level p (x ∷ y ∷ l) e)) f
        (rw first (
          top_under (x ∷ y ∷ l) next above' (sym (ok-injective o) ∙ ap (λ a. (x ∷ y ∷ l) ∷ a) first)
            t))
      ∙ total-next_level k (x ∷ y ∷ l) s e

  -- The root that a tree publishes carries, for every asset, exactly the sum of the leaves' amounts.
  pub amount-root-build :
      (k : Text) (leaves : List Node) {tree : SumTree} {r : Node}
      → AllSorted leaves
      → build p leaves ≡ ok tree
      → root tree ≡ some r
      → amount k r.sums ≡ total k leaves
  unfolding build root
  amount-root-build k leaves {tree} {r} s h t =
      let (g, b) = >>-eq-ok (ensure (not (is_empty leaves)) no_leaves) _ h in
      let (levels, e, o) = >>=-eq-ok (grow p (length leaves) leaves) _ b in
      let same : levels ≡ tree.levels = ap (λ (x : SumTree). x.levels) (ok-injective o) in
      total-grow k (length leaves) leaves {r = r} s (omega arith) e (rw same t)

  next_level-total :
      (level : List Node)
      → AllSorted level
      → ((k : Text) → total k level < u128_mod)
      → (next : List Node) × (next_level p level ≡ ok next)
  unfolding next_level
  next_level-total [] s h = ([], refl)
  next_level-total (a ∷ []) s h = (a ∷ [], refl)
  next_level-total (a ∷ b ∷ l) (sa, (sb, sl)) h =
      let (n, e) = combine_total p a b sb (λ k. unfold total in omega (arith, h k)) in
      let (ns, f) = next_level-total l sl (λ k. unfold total in omega (arith, h k)) in
      (n ∷ ns, rw (e, f))

  grow-total :
      (fuel : ℕ) (level : List Node)
      → AllSorted level
      → ((k : Text) → total k level < u128_mod)
      → (levels : List (List Node)) × (grow p fuel level ≡ ok levels)
  unfolding grow
  grow-total zero level s h = (level ∷ [], refl)
  grow-total (suc fuel) [] s h = ([] ∷ [], refl)
  grow-total (suc fuel) (x ∷ []) s h = ((x ∷ []) ∷ [], refl)
  grow-total (suc fuel) (x ∷ y ∷ l) s h =
      let (next, e) = next_level-total (x ∷ y ∷ l) s h in
      let (above, f) =
        grow-total fuel next (next_level-AllSorted (x ∷ y ∷ l) s e)
          (λ k. rw (total-next_level k (x ∷ y ∷ l) s e) (h k)) in
      ((x ∷ y ∷ l) ∷ above, rw (e, f))

  -- `build` succeeds on every list of leaves with at least one leaf in which no asset's total
  -- overflows a `u128`: the checked additions on the way up then all fit.
  pub build-total :
      (leaves : List Node)
      → is_empty leaves ≡ false
      → AllSorted leaves
      → ((k : Text) → total k leaves < u128_mod)
      → (tree : SumTree) × (build p leaves ≡ ok tree)
  unfolding build
  build-total leaves n s h =
      let (levels, e) = grow-total (length leaves) leaves s h in
      (record { levels = levels }, rw (n, e))
