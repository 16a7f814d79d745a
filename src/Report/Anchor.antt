-- ===== src/Report/Anchor.antt =====
-- rust/solvency-report/src/anchor.rs: a publisher's history as a chain of anchors.
pub mod Fields
pub mod History
use canton_assurance_layer.Prelude.{
  ℕ, ◌+◌, Bool, true, not, ◌&&◌, List, [], ◌∷◌, ◌++◌, Option, none, some, Bytes, Text, codes,
  text_eq, text_lt, if◌then◌else◌, Result, ok, err, ensure, ◌>>=◌, ◌>>◌,
}
use canton_assurance_layer.Primitives.{Primitives}
use canton_assurance_layer.Merkle.Encoding.{lp}
use canton_assurance_layer.Report.Document.{Report, SignedReport, ProofDocument}
use canton_assurance_layer.Report.Digest.{report_digest_hex}
use canton_assurance_layer.Report.Verify.Failure.{VerificationFailure, digest_mismatch}
use canton_assurance_layer.Report.Verify.Fold.{verify}

abbrev pub anchor_format_version : Text
anchor_format_version = codes "canton-solvency-anchor-v1"

abbrev pub anchor_digest_domain : Bytes
anchor_digest_domain = codes "rocky-solvency-anchor-v1"

pub record Anchor : Type 0 where
  pub format_version : Text
  pub report_digest : Text
  pub root_hash : Text
  pub snapshot_time : Text
  pub ledger_offset : Text
  pub publisher : Text
  pub publisher_key : Text
  pub prev_anchor : Option Text

-- The presence byte, and the predecessor behind it.
unfoldable pub prev_bytes : Option Text → Bytes
prev_bytes none = 0 ∷ []
prev_bytes (some prev) = 1 ∷ lp prev

unfoldable pub anchor_fields : Anchor → Bytes
anchor_fields a =
    lp a.format_version
    ++ (lp a.report_digest
        ++ (lp a.root_hash
            ++ (lp a.snapshot_time
                ++ (lp a.ledger_offset
                    ++ (lp a.publisher ++ (lp a.publisher_key ++ prev_bytes a.prev_anchor))))))

pub data BackwardsField : Type 0 where
  snapshot_time ledger_offset : BackwardsField

pub data ChainFailure : Type 0 where
  not_genesis : ChainFailure
  broken : ℕ → ChainFailure
  went_backwards : ℕ → BackwardsField → ChainFailure
  publisher_changed : ℕ → ChainFailure
  unsupported_version : ℕ → Text → ChainFailure
  report_mismatch : ℕ → ChainFailure

module _ (p : Primitives) where
  unfoldable pub anchor_digest : Anchor → Bytes
  anchor_digest a = p.sha256 (anchor_digest_domain ++ anchor_fields a)

  unfoldable pub anchor_digest_hex : Anchor → Text
  anchor_digest_hex a = p.hex_encode (anchor_digest a)

  -- The checks of an anchor against the one before it.
  unfoldable pub check_previous : ℕ → Anchor → Text → Anchor → Result ChainFailure (Unit {0})
  check_previous index previous prev anchor = do
    ensure (text_eq prev (anchor_digest_hex previous)) (broken index)
    ensure (text_eq anchor.publisher previous.publisher) (publisher_changed index)
    ensure (text_lt previous.snapshot_time anchor.snapshot_time)
        (went_backwards index BackwardsField.snapshot_time)
    ensure (not (text_lt anchor.ledger_offset previous.ledger_offset))
        (went_backwards index BackwardsField.ledger_offset)

  -- `match (index, &anchor.prev_anchor)`: at index 0 there is no previous anchor.
  unfoldable pub check_link :
      ℕ → Option Anchor → Option Text → Anchor → Result ChainFailure (Unit {0})
  check_link index none (some prev) anchor = err not_genesis
  check_link index none none anchor = ok tt
  check_link index (some previous) none anchor = err (broken index)
  check_link index (some previous) (some prev) anchor = check_previous index previous prev anchor

  -- The loop of `verify_chain`, with `anchors[index - 1]` at hand.
  unfoldable pub walk : ℕ → Option Anchor → List Anchor → Result ChainFailure (Unit {0})
  walk index previous [] = ok tt
  walk index previous (anchor ∷ anchors) = do
    ensure (text_eq anchor.format_version anchor_format_version)
        (ChainFailure.unsupported_version index anchor.format_version)
    check_link index previous anchor.prev_anchor anchor
    walk (index + 1) (some anchor) anchors

  unfoldable pub verify_chain : List Anchor → Result ChainFailure (Unit {0})
  verify_chain anchors = walk 0 none anchors

  unfoldable pub verify_with_anchor :
      SignedReport → ProofDocument → Anchor → Result VerificationFailure (Unit {0})
  verify_with_anchor signed proof anchor = do
    ensure (text_eq anchor.format_version anchor_format_version) (
        VerificationFailure.unsupported_version (codes "anchor.format_version")
          anchor.format_version)
    ensure (text_eq anchor.report_digest (report_digest_hex p signed.report)) digest_mismatch
    verify p signed proof anchor.publisher_key

  -- `anchors.iter().zip(reports)`, from `index` on.
  unfoldable pub match_reports :
      ℕ → List Anchor → List SignedReport → Result ChainFailure (Unit {0})
  match_reports index [] reports = ok tt
  match_reports index (anchor ∷ anchors) [] = ok tt
  match_reports index (anchor ∷ anchors) (signed ∷ reports) = do
    ensure
        (text_eq anchor.report_digest (report_digest_hex p signed.report)
          && text_eq anchor.root_hash signed.report.root_hash)
        (report_mismatch index)
    match_reports (index + 1) anchors reports

  unfoldable pub verify_anchored_reports :
      List Anchor → List SignedReport → Result ChainFailure (Unit {0})
  verify_anchored_reports anchors reports = match_reports 0 anchors reports

  abbrev pub digest_of : Option Anchor → Option Text
  digest_of none = none
  digest_of (some previous) = some (anchor_digest_hex previous)

  unfoldable pub anchor_report : SignedReport → Option Anchor → Anchor
  anchor_report signed previous = record {
    format_version = anchor_format_version;
    report_digest = report_digest_hex p signed.report;
    root_hash = signed.report.root_hash;
    snapshot_time = signed.report.snapshot_time;
    ledger_offset = signed.report.ledger_offset;
    publisher = signed.report.publisher;
    publisher_key = signed.signature.public_key;
    prev_anchor = digest_of previous;
  }
