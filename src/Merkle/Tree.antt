-- ===== src/Merkle/Tree.antt =====
-- rust/solvency-merkle/src/lib.rs: `SumTree`, its levels from the leaves up, and the sibling path
-- of a leaf.

pub mod Totals
use canton_assurance_layer.Prelude.{
  ℕ, zero, suc, ◌+◌, ◌-◌, ◌/◌, ◌%◌, Bool, not, List, [], ◌∷◌, ◌++◌, Option, none, some, ltb, ◌==◌,
  if◌then◌else◌, length, get_elem?, get_last?, is_empty, Result, ok, err, ensure, and_then, ◌>>=◌,
  ◌>>◌,
}
use canton_assurance_layer.Primitives.{Primitives}
use canton_assurance_layer.Merkle.Encoding.{MerkleError, no_leaves, index_out_of_range}
use canton_assurance_layer.Merkle.Node.{Node, combine}

pub record SumTree : Type 0 where
  pub levels : List (List Node)

pub record ProofStep : Type 0 where
  pub sibling : Node
  pub sibling_on_left : Bool

pub record Proof : Type 0 where
  pub steps : List ProofStep

-- `self.levels.last().unwrap()[0]`
unfoldable pub head? : List Node → Option Node
head? [] = none
head? (x ∷ l) = some x

unfoldable pub root : SumTree → Option Node
root tree = and_then (get_last? tree.levels) head?

-- `idx ^ 1`
unfoldable pub sibling_of : ℕ → ℕ
sibling_of idx = if idx % 2 == 0 then idx + 1 else idx - 1

-- One round of the loop of `prove`.
abbrev pub step_to : ℕ → ℕ → Option Node → List ProofStep
step_to idx sibling_idx none = []
step_to idx sibling_idx (some node) =
    (record { sibling = node; sibling_on_left = ltb sibling_idx idx }) ∷ []

unfoldable pub sibling_step : List Node → ℕ → List ProofStep
sibling_step level idx = step_to idx (sibling_of idx) (get_elem? level (sibling_of idx))

-- The levels below the last, from `level` up.
unfoldable pub path_from : List Node → List (List Node) → ℕ → List ProofStep
path_from level [] idx = []
path_from level (next ∷ above) idx = sibling_step level idx ++ path_from next above (idx / 2)

unfoldable pub path : List (List Node) → ℕ → List ProofStep
path [] idx = []
path (level ∷ above) idx = path_from level above idx

-- `self.levels[0].len()`
unfoldable pub leaf_count : List (List Node) → ℕ
leaf_count [] = 0
leaf_count (level ∷ above) = length level

unfoldable pub prove : SumTree → ℕ → Result MerkleError Proof
prove tree leaf_index = do
  ensure (ltb leaf_index (leaf_count tree.levels)) (index_out_of_range leaf_index)
  ok (record { steps = path tree.levels leaf_index })

module _ (p : Primitives) where
  -- The loop over `prev.chunks(2)`: a pair is combined, an odd node goes up unchanged.
  unfoldable pub next_level : List Node → Result MerkleError (List Node)
  next_level [] = ok []
  next_level (odd ∷ []) = ok (odd ∷ [])
  next_level (left ∷ right ∷ prev) = do
    node ← combine p left right
    next ← next_level prev
    ok (node ∷ next)

  -- `while levels.last().len() > 1`. Each round takes one of `fuel`; `build` gives as much as there
  -- are leaves, and the level shrinks in every round.
  unfoldable pub grow : ℕ → List Node → Result MerkleError (List (List Node))
  grow zero level = ok (level ∷ [])
  grow (suc fuel) [] = ok ([] ∷ [])
  grow (suc fuel) (x ∷ []) = ok ((x ∷ []) ∷ [])
  grow (suc fuel) (x ∷ y ∷ l) = do
    next ← next_level (x ∷ y ∷ l)
    above ← grow fuel next
    ok ((x ∷ y ∷ l) ∷ above)

  unfoldable pub build : List Node → Result MerkleError SumTree
  build leaves = do
    ensure (not (is_empty leaves)) no_leaves
    levels ← grow (length leaves) leaves
    ok (record { levels = levels })
