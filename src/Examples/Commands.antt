-- ===== src/Examples/Commands.antt =====
-- Commands as they are typed, a directory that holds the report alone, a dump against its report,
-- and a rejected submission.
use canton_assurance_layer.Prelude.{
  ◌≡◌, refl, ◌↔◌, true, List, [], ◌∷◌, none, some, Text, codes, text_eq, replicate, ok, amount,
  collect, if◌then◌else◌, All, checked_add, checked_mul, cmp, insert,
}
use canton_assurance_layer.Merkle.Node.{Node}
use canton_assurance_layer.Merkle.Tree.{SumTree, root, build}
use canton_assurance_layer.Report.Document.{SignedReport, proof_format_version}
use canton_assurance_layer.Report.Produce.{LeafInput, input_node}
use canton_assurance_layer.Report.Produce.Totals.{held}
use canton_assurance_layer.Cli.Args.{Command, directory, coverage, parse}
use canton_assurance_layer.Cli.Args.Keys.{HasKeys, parse-HasKeys}
use canton_assurance_layer.Cli.Run.{
  Host, exit_code, load, proof_paths, is_sibling_document, judge_proof, run_verify,
}
use canton_assurance_layer.Prelude.Iffs.{Some}
use canton_assurance_layer.Cli.Run.Clean.{IsJson, IsFineFile, exit_code-IsFineFile}
use canton_assurance_layer.Cli.Recompute.{DumpEntry, RecomputeOutcome, matches, input_of, recompute}
use canton_assurance_layer.Cli.Recompute.Match.{recompute-matches}
use canton_assurance_layer.Cli.Args as Args
use canton_assurance_layer.Cli.Recompute as Dump
use canton_assurance_layer.Cli.Run as Run
use canton_assurance_layer.Examples.Crypto as Crypto
use canton_assurance_layer.Merkle.Amount as Amount
use canton_assurance_layer.Merkle.Encoding as Encoding
use canton_assurance_layer.Merkle.Leaf as Leaves
use canton_assurance_layer.Merkle.Tree as Trees
use canton_assurance_layer.Report.Produce as Produce
use canton_assurance_layer.Examples.Crypto.{crypto}
use canton_assurance_layer.Examples.Trees.{or_else}
use canton_assurance_layer.Examples.Reports.{key, signed, proof}

abbrev hex_key : Text
hex_key = replicate 64 97

abbrev typed : List Text
typed =
    codes "coverage"
    ∷ codes "--custody"
    ∷ codes "c.json"
    ∷ codes "--liabilities"
    ∷ codes "l.json"
    ∷ codes "--json"
    ∷ codes "--statement"
    ∷ codes "s.json"
    ∷ codes "--key"
    ∷ hex_key
    ∷ codes "--max-skew"
    ∷ codes "60"
    ∷ []

abbrev command : Command
command = coverage (codes "c.json") (codes "l.json") (codes "s.json") hex_key hex_key 60 true

typed_parsed : parse typed ≡ ok command
unfolding text_eq cmp insert Amount.decimal_value Args.is_key Args.validate_key Args.parse_u64
    Args.read_flags Args.key Args.coverage_command Args.command_of Args.parse
typed_parsed = refl

parse-HasKeys_example : HasKeys command
parse-HasKeys_example = parse-HasKeys typed command typed_parsed

-- A directory with `report.json` alone.
abbrev host : Host
host = record {
  read = λ path. if text_eq path (codes "out/report.json") then some (codes "R") else none;
  entries = λ dir. some (codes "out/report.json" ∷ codes "out/notes.txt" ∷ []);
  as_report = λ text. if text_eq text (codes "R") then some signed else none;
  format_version = λ text. if text_eq text (codes "P") then some proof_format_version else none;
  as_proof = λ text. some proof;
  as_proof_v2 = λ text. none;
  as_membership = λ text. none;
  as_anchor = λ text. none;
  as_pack = λ text. none;
}

exit_code-IsFineFile_example :
    (exit_code (run_verify host crypto (codes "out/report.json") (directory (codes "out")) key) ≡ 0)
    ↔ ((report : SignedReport) × (text : Text) × (names : List Text) × (host.read
            (codes "out/report.json")
          ≡ some text)
        × (host.as_report text ≡ some report)
        × (host.entries (codes "out") ≡ some names)
        × Some IsJson names
        × All (λ path. IsJson path → IsFineFile host crypto report key path) names)
exit_code-IsFineFile_example =
    exit_code-IsFineFile crypto host (codes "out/report.json") (codes "out") key

-- No proof is checked, and the run exits with 0.
nothing_checked :
    exit_code (run_verify host crypto (codes "out/report.json") (directory (codes "out")) key) ≡ 0
unfolding text_eq Run.all_passed Run.exit_code Run.ends_with Run.is_json Run.insert_sorted
    Run.json_paths Run.judged Run.load Run.proof_paths Run.parse_proof Run.is_sibling_document
    Run.sweep Run.judge_proof Run.run_verify
nothing_checked = refl

abbrev dump : List DumpEntry
dump =
    record {
      salt = replicate 64 48;
      user_id = codes "alice";
      balances = (codes "USD", codes "2.5") ∷ [];
    }
    ∷ []

abbrev no_outcome : RecomputeOutcome
no_outcome = record {
  leaves = 0;
  published_root = [];
  recomputed_root = [];
  disagreeing_assets = [];
}

abbrev outcome : RecomputeOutcome
outcome = or_else (recompute crypto dump signed) no_outcome

recomputed : recompute crypto dump signed ≡ ok outcome
unfolding checked_add checked_mul Amount.split_once Amount.decimal_value Amount.parse_u128
    Amount.join_parts Amount.fraction_units Amount.parse_parts Amount.parse_amount_18dp
    Encoding.sort_into Encoding.sort_by_key Encoding.check_windows Encoding.canonical_balances
    Leaves.insert_balances Leaves.leaf_hash Leaves.leaf_node Trees.head? Trees.root Trees.leaf_count
    Trees.prove Trees.grow Trees.build Produce.input_node Produce.proof_document Produce.publish
    Dump.dump_amounts Dump.input_of Dump.recompute Crypto.digit_value Crypto.hex_decode
recomputed = refl

recompute-matches_example :
    (inputs : List LeafInput) × (nodes : List Node) × (tree : SumTree) × (top : Node) × (collect
        (input_of crypto)
        dump
      ≡ ok inputs)
    × (collect (input_node crypto) inputs ≡ ok nodes)
    × (build crypto nodes ≡ ok tree)
    × (root tree ≡ some top)
    × ((matches outcome ≡ true) ↔ (
        (signed.report.root_hash ≡ crypto.hex_encode top.hash)
        × ((k : Text) → held k inputs ≡ amount k signed.report.root_sums)))
recompute-matches_example = recompute-matches crypto dump signed outcome recomputed
