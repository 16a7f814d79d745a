-- ===== src/Cli/Args.antt =====
-- rust/solvency-cli/src/args.rs: argument parsing. A path is the text that named it.
pub mod Values
pub mod Keys
pub use Values.{
  ProofSource, one_file, directory, Command, verify, verify_group, verify_chain, recompute,
  verify_pack, anchors, coverage, assurance, provenance, manifest_diff, digest, help, version,
  UsageError, no_command, unknown_command, unknown_flag, needs_value, required, bad_key,
  bad_attestor, bad_role, bad_skew, one_required, exclusive, unsigned,
}
unfoldable pub use Values.{
  is_key, validate_key, split_on, add_attestors, parse_attestors, parse_u64,
}
use canton_assurance_layer.Prelude.{
  ℕ, ◌+◌, Bool, true, false, not, ◌&&◌, ◌||◌, List, [], ◌∷◌, Option, none, some, Text, codes,
  text_eq, ◌==◌, ltb, any, all, is_empty, length, BTreeMap, get, insert, if◌then◌else◌, Result, ok,
  err, ok_or, ensure, u64_mod, ◌>>=◌, ◌>>◌,
}
use canton_assurance_layer.Merkle.Amount.{split_once, is_digit, decimal_value}
use canton_assurance_layer.Reserve.{is_hex_digit}
use canton_assurance_layer.Report.Coverage.{same_run}

abbrev pub one_of : List Text → Text → Bool
one_of names s = any (text_eq s) names

abbrev pub command_names : List Text
command_names =
    codes "verify"
    ∷ codes "verify-group"
    ∷ codes "verify-chain"
    ∷ codes "coverage"
    ∷ codes "anchors"
    ∷ codes "manifest-diff"
    ∷ codes "recompute"
    ∷ codes "digest"
    ∷ codes "verify-pack"
    ∷ codes "assurance"
    ∷ codes "provenance"
    ∷ []

abbrev pub value_flags : List Text
value_flags =
    codes "--report"
    ∷ codes "--proof"
    ∷ codes "--proof-dir"
    ∷ codes "--key"
    ∷ codes "--group-report"
    ∷ codes "--membership"
    ∷ codes "--membership-dir"
    ∷ codes "--group-key"
    ∷ codes "--previous"
    ∷ codes "--current"
    ∷ codes "--custody"
    ∷ codes "--liabilities"
    ∷ codes "--statement"
    ∷ codes "--custody-key"
    ∷ codes "--chain"
    ∷ codes "--leaves"
    ∷ codes "--pack-dir"
    ∷ codes "--assurance"
    ∷ codes "--anchor"
    ∷ codes "--attestations"
    ∷ codes "--attestor"
    ∷ codes "--provenance"
    ∷ codes "--max-skew"
    ∷ []

pub record Flags : Type 0 where
  pub values : BTreeMap Text
  pub json : Bool

-- The loop over the arguments behind the command: `none` is an early `help`.
unfoldable pub read_flags : List Text → Flags → Result UsageError (Option Flags)
read_flags [] flags = ok (some flags)
read_flags (flag ∷ []) flags =
    if text_eq flag (codes "--json")
    then ok (some (record flags { json = true }))
    else if one_of (codes "--help" ∷ codes "-h" ∷ []) flag
    then ok none
    else if one_of value_flags flag
    then err (needs_value flag)
    else err (unknown_flag flag)
read_flags (flag ∷ value ∷ args) flags =
    let plain = read_flags (value ∷ args) (record flags { json = true }) in
    let valued = read_flags args (record flags { values = insert flag value flags.values }) in
    if text_eq flag (codes "--json")
    then plain
    else if one_of (codes "--help" ∷ codes "-h" ∷ []) flag
    then ok none
    else if one_of value_flags flag
    then valued
    else err (unknown_flag flag)

module _ (flags : Flags) where
  abbrev pub path : Text → Option Text
  path name = get name flags.values

  abbrev pub required_path : Text → Result UsageError Text
  required_path name = ok_or (path name) (required name)

  unfoldable pub key : Result UsageError Text
  key = do
    k ← ok_or (get (codes "--key") flags.values) (required (codes "--key"))
    validate_key k
    ok k

  abbrev pub source_of : Text → Text → Option Text → Option Text → Result UsageError ProofSource
  source_of file dir (some p) none = ok (one_file p)
  source_of file dir none (some d) = ok (directory d)
  source_of file dir none none = err (one_required file dir)
  source_of file dir (some p) (some d) = err (exclusive file dir)

  unfoldable pub source : Text → Text → Result UsageError ProofSource
  source file dir = source_of file dir (path file) (path dir)

  abbrev pub key_or : Option Text → Text → Result UsageError Text
  key_or none trusted_key = ok trusted_key
  key_or (some k) trusted_key = validate_key k >> ok k

  abbrev pub skew_of : Option Text → Result UsageError ℕ
  skew_of none = ok same_run
  skew_of (some raw) = ok_or (parse_u64 raw) (bad_skew raw)

  unfoldable pub coverage_command : Result UsageError Command
  coverage_command = do
    trusted_key ← key
    custody_key ← key_or (path (codes "--custody-key")) trusted_key
    custody ← required_path (codes "--custody")
    liabilities ← required_path (codes "--liabilities")
    statement ← required_path (codes "--statement")
    skew ← skew_of (path (codes "--max-skew"))
    ok (coverage custody liabilities statement trusted_key custody_key skew flags.json)

  unfoldable pub assurance_command : Result UsageError Command
  assurance_command = do
    report ← required_path (codes "--report")
    statement ← required_path (codes "--assurance")
    attestors ← parse_attestors (path (codes "--attestor"))
    trusted_key ← key
    ok (
        assurance report statement (path (codes "--proof")) (path (codes "--anchor"))
          (path (codes "--attestations")) (path (codes "--provenance")) attestors trusted_key
          flags.json)

  unfoldable pub provenance_command : Result UsageError Command
  provenance_command = do
    report ← required_path (codes "--report")
    graph ← required_path (codes "--provenance")
    trusted_key ← key
    ok (provenance report graph (path (codes "--assurance")) trusted_key flags.json)

  unfoldable pub verify_command : Result UsageError Command
  verify_command = do
    report ← required_path (codes "--report")
    proofs ← source (codes "--proof") (codes "--proof-dir")
    trusted_key ← key
    ok (verify report proofs trusted_key flags.json)

  unfoldable pub verify_group_command : Result UsageError Command
  verify_group_command = do
    report ← required_path (codes "--report")
    memberships ← source (codes "--membership") (codes "--membership-dir")
    trusted_key ← key
    ok (verify_group report memberships trusted_key flags.json)

  unfoldable pub verify_chain_command : Result UsageError Command
  verify_chain_command = do
    trusted_key ← key
    group_key ← key_or (path (codes "--group-key")) trusted_key
    group_report ← required_path (codes "--group-report")
    membership ← required_path (codes "--membership")
    report ← required_path (codes "--report")
    proof ← required_path (codes "--proof")
    ok (verify_chain group_report membership report proof trusted_key group_key flags.json)

  unfoldable pub verify_pack_command : Result UsageError Command
  verify_pack_command = do
    pack_dir ← required_path (codes "--pack-dir")
    trusted_key ← key
    ok (verify_pack pack_dir trusted_key flags.json)

  -- The last `match`, on a name that the first has let through.
  unfoldable pub command_of : Text → Result UsageError Command
  command_of first =
      if text_eq first (codes "digest")
      then required_path (codes "--report") >>= (λ report. ok (digest report))
      else if text_eq first (codes "coverage")
      then coverage_command
      else if text_eq first (codes "assurance")
      then assurance_command
      else if text_eq first (codes "provenance")
      then provenance_command
      else if text_eq first (codes "recompute")
      then (do
        leaves ← required_path (codes "--leaves")
        report ← required_path (codes "--report")
        ok (recompute leaves report flags.json))
      else if text_eq first (codes "verify-pack")
      then verify_pack_command
      else if text_eq first (codes "anchors")
      then required_path (codes "--chain") >>= (λ chain. ok (anchors chain flags.json))
      else if text_eq first (codes "manifest-diff")
      then (do
        previous ← required_path (codes "--previous")
        current ← required_path (codes "--current")
        ok (manifest_diff previous current flags.json))
      else if text_eq first (codes "verify")
      then verify_command
      else if text_eq first (codes "verify-group")
      then verify_group_command
      else verify_chain_command

abbrev pub finish : Text → Option Flags → Result UsageError Command
finish first none = ok help
finish first (some flags) = command_of flags first

unfoldable pub parse : List Text → Result UsageError Command
parse [] = err no_command
parse (first ∷ args) =
    let behind = read_flags args (record { values = []; json = false }) >>= finish first in
    if one_of (codes "--help" ∷ codes "-h" ∷ codes "help" ∷ []) first
    then ok help
    else if one_of (codes "--version" ∷ codes "-V" ∷ []) first
    then ok version
    else if one_of command_names first
    then behind
    else err (unknown_command first)
