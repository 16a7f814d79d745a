-- ===== src/Merkle/Node.antt =====
-- rust/solvency-merkle/src/lib.rs: `Node` and `combine`, the rule for an internal node.
pub mod Sums
use canton_assurance_layer.Prelude.{
  ℕ, List, [], ◌∷◌, ◌++◌, Bytes, codes, BTreeMap, insert, amount, checked_add, Result, ok, err,
  ok_or, ◌>>=◌, Bool, ◌&&◌, text_eq, true, false, ◌==◌,
}
use canton_assurance_layer.Primitives.{Primitives}
use canton_assurance_layer.Merkle.Encoding.{MerkleError, sum_overflow, sums_canonical}

pub record Node : Type 0 where
  pub hash : Bytes
  pub sums : BTreeMap ℕ

-- The derived `==` of a map of amounts, and of a node.
unfoldable pub sums_eq : BTreeMap ℕ → BTreeMap ℕ → Bool
sums_eq [] [] = true
sums_eq [] (b ∷ n) = false
sums_eq (a ∷ m) [] = false
sums_eq ((j, v) ∷ m) ((k, w) ∷ n) = (text_eq j k && (v == w)) && sums_eq m n

unfoldable pub node_eq : Node → Node → Bool
node_eq a b = text_eq a.hash b.hash && sums_eq a.sums b.sums

abbrev pub node_domain : Bytes
node_domain = codes "rocky-solvency-node-v1"

-- The loop over the right sums: `*slot = slot.checked_add(*v)?`
unfoldable pub add_sums : BTreeMap ℕ → BTreeMap ℕ → Result MerkleError (BTreeMap ℕ)
add_sums sums [] = ok sums
add_sums sums ((asset, v) ∷ right) = do
  slot ← ok_or (checked_add (amount asset sums) v) (sum_overflow asset)
  add_sums (insert asset slot sums) right

module _ (p : Primitives) where
  unfoldable pub node_hash : Bytes → Bytes → BTreeMap ℕ → Bytes
  node_hash left right sums = p.sha256 (node_domain ++ (left ++ (right ++ sums_canonical sums)))

  unfoldable pub combine : Node → Node → Result MerkleError Node
  combine left right = do
    sums ← add_sums left.sums right.sums
    ok (record { hash = node_hash left.hash right.hash sums; sums = sums })
