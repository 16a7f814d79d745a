-- ===== src/Examples/Trees.antt =====
-- A tree of three leaves: its root, its proofs and their soundness.
use canton_assurance_layer.Prelude.{
  ℕ, ◌+◌, ◌≤◌, ◌<◌, ◌≡◌, ◌⊎◌, refl, arith, true, List, [], ◌∷◌, Option, none, some, Text, codes,
  BTreeMap, amount, All, u128_mod, Result, ok, err, cmp, insert, text_eq, checked_add, le_bytes,
  Bool-cases, inl, inr,
}
use canton_assurance_layer.Primitives.{CollisionIn}
use canton_assurance_layer.Merkle.Proof.Binding.{path_preimages}
use canton_assurance_layer.Merkle.Encoding.{sums_canonical, join, entry_text}
use canton_assurance_layer.Merkle.Amount.{format_amount_18dp, decimal, emit, padded}
use canton_assurance_layer.Merkle.Node.{Node, add_sums, node_hash, combine, node_eq, sums_eq}
use canton_assurance_layer.Merkle.Tree.{
  SumTree, Proof, head?, root, sibling_of, sibling_step, path_from, path, leaf_count, prove,
  next_level, grow, build,
}
use canton_assurance_layer.Merkle.Tree.Totals.{total, AllSorted, amount-root-build, build-total}
use canton_assurance_layer.Merkle.Proof.{fold_step, fold, verify_proof}
use canton_assurance_layer.Merkle.Proof.Inclusion.{prove-build}
use canton_assurance_layer.Merkle.Proof.Binding.{
  siblings_total, SiblingsSorted, Siblings32, verify_proof-total, verify_proof-binding,
}
use canton_assurance_layer.Examples.Crypto.{crypto, crypto-IsLawful, checksum, digest}

abbrev pub leaf_of : Text → BTreeMap ℕ → Node
leaf_of name sums = record { hash = digest name; sums = sums }

abbrev pub alice : Node
alice = leaf_of (codes "alice") ((codes "BTC", 5) ∷ (codes "USD", 70) ∷ [])

abbrev pub bob : Node
bob = leaf_of (codes "bob") ((codes "USD", 30) ∷ [])

abbrev pub carol : Node
carol = leaf_of (codes "carol") ((codes "BTC", 2) ∷ (codes "ETH", 9) ∷ [])

abbrev pub leaves : List Node
leaves = alice ∷ bob ∷ carol ∷ []

abbrev pub or_else {ℓ} : {E A : Type ℓ} → Result E A → A → A
or_else (ok a) b = a
or_else (err e) b = b

abbrev pub option_or {ℓ} : {A : Type ℓ} → Option A → A → A
option_or none b = b
option_or (some a) b = a

abbrev tree : SumTree
tree = or_else (build crypto leaves) (record { levels = [] })

built : build crypto leaves ≡ ok tree
unfolding build grow next_level combine add_sums checked_add text_eq insert cmp
built = refl

abbrev root_node : Node
root_node = option_or (root tree) alice

-- `prove` for the second leaf.
abbrev bob_proof : Proof
bob_proof = or_else (prove tree 1) (record { steps = [] })

bob_accepted : verify_proof crypto bob bob_proof root_node ≡ true
unfolding verify_proof fold fold_step node_eq sums_eq root head? prove leaf_count path path_from
    sibling_step sibling_of build grow next_level combine add_sums checked_add text_eq insert cmp
    node_hash sums_canonical join entry_text format_amount_18dp decimal emit padded checksum
    le_bytes
bob_accepted = refl

prove-build_example :
    (proof : Proof) × (r : Node) × (prove tree 1 ≡ ok proof)
    × (root tree ≡ some r)
    × (verify_proof crypto bob proof r ≡ true)
prove-build_example = prove-build crypto leaves 1 {tree = tree} {leaf = bob} built refl

root_is : root tree ≡ some root_node
unfolding root head? build grow next_level combine add_sums checked_add text_eq insert cmp
root_is = refl

leaves-AllSorted : AllSorted leaves
unfolding cmp
leaves-AllSorted = (((refl, tt), (tt, tt)), ((tt, tt), (((refl, tt), (tt, tt)), tt)))

-- The total of the published root, over the three holders.
amount-root-build_example : amount (codes "BTC") root_node.sums ≡ total (codes "BTC") leaves
amount-root-build_example =
    amount-root-build crypto (codes "BTC") leaves {tree = tree} {r = root_node} leaves-AllSorted
      built root_is

amount_at_most :
    (b : ℕ) (k : Text) (m : BTreeMap ℕ) → All (λ (e : Text × ℕ). e.1 ≤ b) m → amount k m ≤ b
amount_at_most b k [] h = omega arith
amount_at_most b k ((j, v) ∷ m) (h, hs) = elim (Bool-cases (text_eq j k)) [
  | inl e ↦ rw e h
  | inr e ↦ rw e (amount_at_most b k m hs)
]

leaves_fit : (k : Text) → total k leaves < u128_mod
unfolding total
leaves_fit k = omega (
  arith,
  amount_at_most 70 k alice.sums (omega arith, (omega arith, tt)),
  amount_at_most 30 k bob.sums (omega arith, tt),
  amount_at_most 9 k carol.sums (omega arith, (omega arith, tt)),
)

build-total_example : (t : SumTree) × (build crypto leaves ≡ ok t)
build-total_example = build-total crypto leaves refl leaves-AllSorted leaves_fit

bob-SiblingsSorted : SiblingsSorted bob_proof.steps
unfolding prove leaf_count path path_from sibling_step sibling_of build grow next_level combine
    add_sums checked_add text_eq insert cmp
bob-SiblingsSorted = ((((refl, tt), (tt, tt)), (((refl, tt), (tt, tt)), tt)))

bob_siblings_32 : Siblings32 bob_proof.steps
unfolding prove leaf_count path path_from sibling_step sibling_of build grow next_level combine
    add_sums checked_add text_eq insert cmp le_bytes
bob_siblings_32 = (refl, (refl, tt))

verify_proof-total_example :
    (amount (codes "USD") root_node.sums
      ≡ amount (codes "USD") bob.sums + siblings_total (codes "USD") bob_proof.steps)
    × (amount (codes "USD") bob.sums ≤ amount (codes "USD") root_node.sums)
verify_proof-total_example =
    verify_proof-total crypto (codes "USD") bob bob_proof root_node (tt, tt) bob-SiblingsSorted
      bob_accepted

verify_proof-binding_example :
    (bob.hash ≡ bob.hash)
    ⊎ CollisionIn crypto
        (path_preimages crypto bob bob_proof.steps)
        (path_preimages crypto bob bob_proof.steps)
unfolding le_bytes
verify_proof-binding_example =
    verify_proof-binding crypto crypto-IsLawful bob bob bob_proof bob_proof root_node refl refl
      bob_siblings_32 bob_siblings_32 refl bob_accepted bob_accepted
