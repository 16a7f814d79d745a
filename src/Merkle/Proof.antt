-- ===== src/Merkle/Proof.antt =====
-- rust/solvency-merkle/src/lib.rs: `verify_proof`, the fold of a path and the comparison with the
-- published root.
pub mod Climb
pub mod Inclusion
pub mod Binding
use canton_assurance_layer.Prelude.{
  Bool, false, List, [], ◌∷◌, Result, ok, err, ◌>>=◌, if◌then◌else◌,
}
use canton_assurance_layer.Primitives.{Primitives}
use canton_assurance_layer.Merkle.Encoding.{MerkleError}
use canton_assurance_layer.Merkle.Node.{Node, combine, node_eq}
use canton_assurance_layer.Merkle.Tree.{ProofStep, Proof}

-- `Err(_) => return false`
abbrev pub compare_root : Node → Result MerkleError Node → Bool
compare_root root (ok current) = node_eq current root
compare_root root (err e) = false

module _ (p : Primitives) where
  -- One step of the fold, the sibling on its side.
  unfoldable pub fold_step : Node → ProofStep → Result MerkleError Node
  fold_step current step =
      if step.sibling_on_left
      then combine p step.sibling current
      else combine p current step.sibling

  unfoldable pub fold : Node → List ProofStep → Result MerkleError Node
  fold current [] = ok current
  fold current (step ∷ steps) = do next ← fold_step current step; fold next steps

  unfoldable pub verify_proof : Node → Proof → Node → Bool
  verify_proof leaf proof root = compare_root root (fold leaf proof.steps)
