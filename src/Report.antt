-- ===== src/Report.antt =====
-- rust/solvency-report/src, one child for each file of the crate.
pub mod Document
pub mod Manifest
pub mod Digest
pub mod Sign
pub mod Profile
pub mod Verify
pub mod Group
pub mod Instant
pub mod Coverage
pub mod Anchor
pub mod Provenance
pub mod Assurance
pub mod Produce
pub mod Pack
