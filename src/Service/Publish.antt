-- ===== src/Service/Publish.antt =====
-- rust/solvency-service/src/api.rs: the publish route's `do_publish`, from a request to the files of
-- a delivery. The JSON printer is serde's: a parameter, as are the bytes of the master salt.
pub mod Accounts
pub mod Delivery
use canton_assurance_layer.Prelude.{
  ℕ, ◌+◌, Bool, true, false, not, List, [], ◌∷◌, ◌++◌, Option, none, some, Text, Bytes, codes,
  is_empty, text_eq, BTreeMap, map, take, Result, ok, err, ok_or, ensure, map_err, collect, ◌>>=◌,
  ◌>>◌,
}
use canton_assurance_layer.Primitives.{Primitives}
use canton_assurance_layer.Merkle.Amount.{format_amount_18dp}
use canton_assurance_layer.Merkle.Leaf.{leaf_salt}
use canton_assurance_layer.Report.Document.{Manifest, Disclosures, SignedReport, ProofDocument}
use canton_assurance_layer.Report.Digest.{report_digest_hex}
use canton_assurance_layer.Report.Sign.{ReportSigner, public_key_hex}
use canton_assurance_layer.Report.Anchor.{Anchor, anchor_report, anchor_digest_hex}
use canton_assurance_layer.Report.Pack.{SignedPack, PackFailure, build_pack}
use canton_assurance_layer.Report.Produce.{
  LeafInput, ReportMetadata, Publication, PublishError, publish,
}
use canton_assurance_layer.Service.Intake.{IntakeError, LeafIn, Book, parsed_amounts, enter_leaves}

abbrev pub liabilities_profile : Text
liabilities_profile = codes "solvency.liabilities"

pub record FileOut : Type 0 where
  pub name : Text
  pub content : Text

pub record DisclosuresIn : Type 0 where
  pub bad_debt : BTreeMap Text
  pub excluded_house_accounts : ℕ
  pub excluded_house_totals : BTreeMap Text

pub record PublishRequest : Type 0 where
  pub org_id : Text
  pub publisher : Text
  pub profile : Text
  pub snapshot_time : Text
  pub ledger_offset : Text
  pub leaves : List LeafIn
  pub mark_prices : BTreeMap Text
  pub disclosures : DisclosuresIn
  pub manifest : Option Manifest
  pub previous_anchor : Option Anchor

pub record ProofOut : Type 0 where
  pub user_id : Text
  pub file_name : Text

pub record PublishResponse : Type 0 where
  pub public_key : Text
  pub format_version : Text
  pub report_digest : Text
  pub anchor_digest : Text
  pub root_hash : Text
  pub leaf_count : ℕ
  pub root_sums : BTreeMap Text
  pub clamped : ℕ
  pub proofs : List ProofOut
  pub files : List FileOut

pub data ServiceError : Type 0 where
  no_leaves printing_failed : ServiceError
  wrong_profile : Text → ServiceError
  bad_request : IntakeError → ServiceError
  not_published : PublishError → ServiceError
  not_packed : PackFailure → ServiceError

-- `serde_json::to_string_pretty`, which may fail.
pub record Printer : Type 0 where
  pub report : SignedReport → Option Text
  pub anchor : Anchor → Option Text
  pub proof : ProofDocument → Option Text
  pub pack : SignedPack → Option Text

-- `pretty`
unfoldable pub pretty : Option Text → Result ServiceError Text
pretty printed = do text ← ok_or printed printing_failed; ok (text ++ 10 ∷ [])

unfoldable pub display_amounts : BTreeMap ℕ → BTreeMap Text
display_amounts [] = []
display_amounts ((k, v) ∷ m) = (k, format_amount_18dp v) ∷ display_amounts m

abbrev pub file : Text → Text → FileOut
file name content = record { name = name; content = content }

-- The checks of a request, and the loop over its leaves.
unfoldable pub book_of : PublishRequest → Result ServiceError Book
book_of req = do
  ensure (not (is_empty req.leaves)) no_leaves
  ensure (text_eq req.profile liabilities_profile) (wrong_profile req.profile)
  debt ← map_err bad_request (parsed_amounts req.disclosures.bad_debt)
  map_err bad_request (enter_leaves 0 req.leaves (record { debt = debt; clamps = 0; users = [] }))

unfoldable pub metadata_of : PublishRequest → Book → Result ServiceError ReportMetadata
metadata_of req book = do
  prices ← map_err bad_request (parsed_amounts req.mark_prices)
  totals ← map_err bad_request (parsed_amounts req.disclosures.excluded_house_totals)
  ok (record {
    profile = req.profile;
    publisher = req.publisher;
    snapshot_time = req.snapshot_time;
    ledger_offset = req.ledger_offset;
    mark_prices = prices;
    disclosures = record {
      bad_debt = book.debt;
      excluded_house_accounts = req.disclosures.excluded_house_accounts;
      excluded_house_totals = totals;
    };
    manifest = req.manifest;
  })

abbrev pub member : FileOut → Text × Bytes
member f = (f.name, f.content)

module _ (p : Primitives) where
  unfoldable pub proof_file_name : Text → Text
  proof_file_name user_id =
      codes "proof-" ++ (p.hex_encode (take 12 (p.sha256 user_id)) ++ codes ".json")

  abbrev pub leaf_input : Bytes → Text × BTreeMap ℕ → LeafInput
  leaf_input master_salt (user_id, balances) = record {
    salt = leaf_salt p master_salt user_id;
    user_id = user_id;
    balances = balances;
  }

  abbrev pub proof_out : ProofDocument → ProofOut
  proof_out proof = record {
    user_id = proof.leaf.user_id;
    file_name = proof_file_name proof.leaf.user_id;
  }

  -- As far as the call of `publish`.
  unfoldable pub publication_of :
      Bytes → PublishRequest → ReportSigner → Result ServiceError (Book × Publication)
  publication_of master_salt req signer = do
    book ← book_of req
    meta ← metadata_of req book
    published ←
        map_err not_published (publish p (map (leaf_input master_salt) book.users) meta signer)
    ok (book, published)

  unfoldable pub pack_of :
      Publication → List FileOut → ReportSigner → Result ServiceError SignedPack
  pack_of published files signer = map_err not_packed (
      build_pack p published.signed_report.report.publisher
        published.signed_report.report.snapshot_time
        (report_digest_hex p published.signed_report.report) (map member files) signer)

module _ (p : Primitives) (printer : Printer) where
  unfoldable pub proof_file : ProofDocument → Result ServiceError FileOut
  proof_file proof = do
    text ← pretty (printer.proof proof)
    ok (file (proof_file_name p proof.leaf.user_id) text)

  -- The files that the pack commits to: the report, its anchor and a file for each proof.
  unfoldable pub packed_files : PublishRequest → Publication → Result ServiceError (List FileOut)
  packed_files req published = do
    report ← pretty (printer.report published.signed_report)
    anchor ← pretty (printer.anchor (anchor_report p published.signed_report req.previous_anchor))
    proofs ← collect proof_file published.proofs
    ok (file (codes "report.json") report ∷ file (codes "anchor.json") anchor ∷ proofs)

  unfoldable pub do_publish :
      Bytes → PublishRequest → ReportSigner → Result ServiceError PublishResponse
  do_publish master_salt req signer = do
    (book, published) ← publication_of p master_salt req signer
    files ← packed_files req published
    pack ← pack_of p published files signer
    text ← pretty (printer.pack pack)
    let report = published.signed_report.report
    ok (record {
      public_key = public_key_hex p signer;
      format_version = report.format_version;
      report_digest = report_digest_hex p report;
      anchor_digest =
          anchor_digest_hex p (anchor_report p published.signed_report req.previous_anchor);
      root_hash = report.root_hash;
      leaf_count = report.leaf_count;
      root_sums = display_amounts report.root_sums;
      clamped = book.clamps;
      proofs = map (proof_out p) published.proofs;
      files = files ++ file (codes "pack.json") text ∷ [];
    })
