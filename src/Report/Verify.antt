-- ===== src/Report/Verify.antt =====
-- rust/solvency-report/src/verify.rs: the check of a proof against a signed report. The message
-- texts of the source are constructors here; what they quote is kept.
pub mod Failure
pub mod Checks
pub mod Fold
pub mod Totals
pub mod Accepted
