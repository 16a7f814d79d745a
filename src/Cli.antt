-- ===== src/Cli.antt =====
-- rust/solvency-cli/src: the command line `canton-solvency-verify`, from its arguments to its exit
-- code, with the files and the JSON decoding as parameters.
pub mod Args
pub mod Run
pub mod Recompute
pub mod Verbs
