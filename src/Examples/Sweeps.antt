-- ===== src/Examples/Sweeps.antt =====
-- A delivered directory: a report, a proof and the index of both.
use canton_assurance_layer.Prelude.{
  ◌≡◌, ◌↔◌, false, List, [], ◌∷◌, none, some, Text, Bytes, codes, text_eq, ok, if◌then◌else◌, ◌++◌,
  Option,
}
use canton_assurance_layer.Report.Document.{proof_format_version}
use canton_assurance_layer.Report.Pack.{SignedPack}
use canton_assurance_layer.Report.Pack as Pack
use canton_assurance_layer.Cli.Args.{directory, verify, verify_pack}
use canton_assurance_layer.Cli.Run.{load}
use canton_assurance_layer.Cli.Verbs.{Library, pack_file, delivered, exit_of}
use canton_assurance_layer.Cli.Verbs.Delivery.{exit_of-verify_pack}
use canton_assurance_layer.Examples.Crypto.{crypto}
use canton_assurance_layer.Examples.Reports.{key, signed, proof}
use canton_assurance_layer.Examples.Deliveries.{files, pack}

abbrev read : Text → Option Text
read path =
    if text_eq path (codes "d/pack.json")
    then some (codes "K")
    else if text_eq path (codes "d/report.json")
    then some (codes "{}")
    else if text_eq path (codes "d/proof.json")
    then some (codes "{1}")
    else none

abbrev library : Library
library = record {
  host = record {
    read = read;
    entries = λ dir. some (codes "d/proof.json" ∷ codes "d/pack.json" ∷ codes "d/report.json" ∷ []);
    as_report = λ text. if text_eq text (codes "{}") then some signed else none;
    format_version = λ text. if text_eq text (codes "{1}") then some proof_format_version else none;
    as_proof = λ text. if text_eq text (codes "{1}") then some proof else none;
    as_proof_v2 = λ text. none;
    as_membership = λ text. none;
    as_anchor = λ text. none;
    as_pack = λ text. if text_eq text (codes "K") then some pack else none;
  };
  is_dir = text_eq (codes "d");
  join = λ dir name. dir ++ codes "/" ++ name;
  members = λ dir. some ((codes "pack.json", codes "K") ∷ files);
  as_coverage = λ text. none;
  as_assurance = λ text. none;
  as_attestations = λ text. none;
  as_provenance = λ text. none;
  as_anchors = λ text. none;
  as_dump = λ text. none;
}

exit_of-verify_pack_example : (exit_of library crypto (verify_pack (codes "d") key false) ≡ 0) ↔ (
    (index : SignedPack) × (members : List (Text × Bytes)) × (load library.host library.host.as_pack
        (library.join (codes "d") pack_file)
      ≡ ok index)
    × (library.members (codes "d") ≡ some members)
    × (Pack.verify_pack crypto index key (delivered members []) ≡ ok tt)
    × (exit_of library crypto (
          verify (library.join (codes "d") (codes "report.json")) (directory (codes "d")) key false)
        ≡ 0))
exit_of-verify_pack_example = exit_of-verify_pack crypto library (codes "d") key false
