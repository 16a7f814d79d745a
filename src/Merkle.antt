-- ===== src/Merkle.antt =====
-- rust/solvency-merkle/src/lib.rs, one child for each part of the crate.
pub mod Amount
pub mod Encoding
pub mod Node
pub mod Leaf
pub mod Tree
pub mod Proof
