-- ===== src/Merkle/Node/Sums.antt =====
-- What `combine` does to the sums.
use canton_assurance_layer.Prelude.{
  ℕ, ◌+◌, ◌<◌, ◌≡◌, refl, arith, [], ◌∷◌, Text, text_eq, text_eq_iff, BTreeMap, IsSorted, insert,
  get-insert, IsSorted-insert, amount, amounts, amounts-eq-amount, checked_add, u128_mod,
  checked_add-eq-some, checked_add_fits, ok, ok_or, >>=-eq-ok, ok_or-eq-ok, if◌then◌else◌, true, ap,
  text_eq_refl, ok-injective, subst,
}
use canton_assurance_layer.Primitives.{Primitives}
use canton_assurance_layer.Merkle.Encoding.{sum_overflow}
use canton_assurance_layer.Merkle.Node.{Node, sums_eq, node_eq, add_sums, node_hash, combine}

amount-insert :
    (k j : Text) (v : ℕ) (m : BTreeMap ℕ)
    → amount j (insert k v m) ≡ (if text_eq k j then v else amount j m)
amount-insert k j v m = ground (arith, get-insert k j v m)

-- Per asset, a success has added the amounts.
pub amount-add_sums :
    (k : Text) (sums right : BTreeMap ℕ) {r : BTreeMap ℕ}
    → add_sums sums right ≡ ok r
    → amount k r ≡ amount k sums + amounts k right
unfolding add_sums amounts
amount-add_sums k sums [] h = omega (arith, ap (λ s. amount k s) (ok-injective h))
amount-add_sums k sums ((j, v) ∷ right) {r} h =
    let (slot, e, rest) = >>=-eq-ok (ok_or (checked_add (amount j sums) v) (sum_overflow j)) _ h in
    let s = checked_add-eq-some (amount j sums) v (ok_or-eq-ok _ _ e) in
    ground (
      arith,
      s,
      amount-add_sums k (insert j slot sums) right {r = r} rest,
      amount-insert j k slot sums,
      text_eq_iff j k,
    )

pub IsSorted-add_sums :
    (sums right : BTreeMap ℕ) {r : BTreeMap ℕ}
    → IsSorted sums
    → add_sums sums right ≡ ok r
    → IsSorted r
unfolding add_sums
IsSorted-add_sums sums [] s h = subst IsSorted (ok-injective h) s
IsSorted-add_sums sums ((j, v) ∷ right) s h =
    let (slot, e, rest) = >>=-eq-ok (ok_or (checked_add (amount j sums) v) (sum_overflow j)) _ h in
    IsSorted-add_sums (insert j slot sums) right (IsSorted-insert j slot sums s) rest

-- Where every asset's total fits a `u128`, the addition succeeds.
pub add_sums_total :
    (sums right : BTreeMap ℕ)
    → ((k : Text) → amount k sums + amounts k right < u128_mod)
    → (r : BTreeMap ℕ) × (add_sums sums right ≡ ok r)
unfolding add_sums
add_sums_total sums [] h = (sums, refl)
add_sums_total sums ((j, v) ∷ right) h =
    let fits : amount j sums + v < u128_mod =
      unfold amounts in ground (arith, h j, text_eq_refl j) in
    let rest = add_sums_total (insert j (amount j sums + v) sums) right (λ k.
      unfold amounts in
      ground (arith, h k, amount-insert j k (amount j sums + v) sums, text_eq_iff j k)) in
    (rest.0, rw (checked_add_fits (amount j sums) v fits) rest.1)

module _ (p : Primitives) where
  -- The node's total of an asset is the sum of its children's.
  pub amount-combine :
      (k : Text) (l r : Node) {n : Node}
      → IsSorted r.sums
      → combine p l r ≡ ok n
      → amount k n.sums ≡ amount k l.sums + amount k r.sums
  unfolding combine
  amount-combine k l r {n} s h =
      let (sums, e, o) = >>=-eq-ok (add_sums l.sums r.sums) _ h in
      ground (arith, amount-add_sums k l.sums r.sums e, amounts-eq-amount k r.sums s)

  pub combine-IsSorted :
      (l r : Node) {n : Node} → IsSorted l.sums → combine p l r ≡ ok n → IsSorted n.sums
  unfolding combine
  combine-IsSorted l r {n} s h =
      let (sums, e, o) = >>=-eq-ok (add_sums l.sums r.sums) _ h in
      subst IsSorted (ap (λ (x : Node). x.sums) (ok-injective o))
        (IsSorted-add_sums l.sums r.sums s e)

  pub combine_total :
      (l r : Node)
      → IsSorted r.sums
      → ((k : Text) → amount k l.sums + amount k r.sums < u128_mod)
      → (n : Node) × (combine p l r ≡ ok n)
  unfolding combine
  combine_total l r s h =
      let t = add_sums_total l.sums r.sums (λ k. rw (amounts-eq-amount k r.sums s) (h k)) in
      (record { hash = node_hash p l.hash r.hash t.0; sums = t.0 }, rw (t.1))

sums_eq→eq : (m n : BTreeMap ℕ) → sums_eq m n ≡ true → m ≡ n
unfolding sums_eq
sums_eq→eq [] [] h = refl
sums_eq→eq [] (b ∷ n) h = cc
sums_eq→eq (a ∷ m) [] h = cc
sums_eq→eq ((j, v) ∷ m) ((k, w) ∷ n) h = ground (arith, sums_eq→eq m n, text_eq_iff j k)

sums_eq_refl : (m : BTreeMap ℕ) → sums_eq m m ≡ true
unfolding sums_eq
sums_eq_refl [] = refl
sums_eq_refl ((j, v) ∷ m) = ground (arith, sums_eq_refl m, text_eq_refl j)

pub node_eq→eq : (a b : Node) → node_eq a b ≡ true → a ≡ b
unfolding node_eq
node_eq→eq a b h = ground (arith, text_eq_iff a.hash b.hash, sums_eq→eq a.sums b.sums)

pub node_eq_refl : (a : Node) → node_eq a a ≡ true
unfolding node_eq
node_eq_refl a = ground (arith, text_eq_refl a.hash, sums_eq_refl a.sums)
