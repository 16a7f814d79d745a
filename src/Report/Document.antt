-- ===== src/Report/Document.antt =====
-- rust/solvency-report/src/document.rs: the wire types. A map of amounts here is what its serde
-- codec has already parsed to 18-decimal fixed point.
pub mod Codec
use canton_assurance_layer.Prelude.{ℕ, Bool, List, Option, Text, codes, BTreeMap}

abbrev pub report_format_version : Text
report_format_version = codes "canton-solvency-report-v1"

abbrev pub report_format_version_v2 : Text
report_format_version_v2 = codes "canton-solvency-report-v2"

abbrev pub proof_format_version : Text
proof_format_version = codes "canton-solvency-proof-v1"

abbrev pub proof_format_version_v2 : Text
proof_format_version_v2 = codes "canton-solvency-proof-v2"

abbrev pub signature_algorithm : Text
signature_algorithm = codes "ed25519"

-- manifest.rs: `Disclosure` and `Manifest` stand here, since a report holds one.
pub data Disclosure : Type 0 where
  published committed withheld : Disclosure

pub record Manifest : Type 0 where
  pub audience : Text
  pub fields : BTreeMap Disclosure

pub record Disclosures : Type 0 where
  pub bad_debt : BTreeMap ℕ
  pub excluded_house_accounts : ℕ
  pub excluded_house_totals : BTreeMap ℕ

pub record Report : Type 0 where
  pub format_version : Text
  pub profile : Text
  pub publisher : Text
  pub snapshot_time : Text
  pub ledger_offset : Text
  pub root_hash : Text
  pub leaf_count : ℕ
  pub root_sums : BTreeMap ℕ
  pub mark_prices : BTreeMap ℕ
  pub disclosures : Disclosures
  pub manifest : Option Manifest

pub record SignatureBlock : Type 0 where
  pub algorithm : Text
  pub public_key : Text
  pub value : Text

pub record SignedReport : Type 0 where
  pub report : Report
  pub signature : SignatureBlock

pub record LeafPreimage : Type 0 where
  pub salt : Text
  pub user_id : Text
  pub balances : BTreeMap ℕ

pub record ProofStepDocument : Type 0 where
  pub sibling_hash : Text
  pub sibling_sums : BTreeMap ℕ
  pub sibling_on_left : Bool

pub record LeafPreimageV2 : Type 0 where
  pub salt : Text
  pub subject_id : Text
  pub maps : BTreeMap (BTreeMap ℕ)

pub record ProofDocumentV2 : Type 0 where
  pub format_version : Text
  pub report_digest : Text
  pub leaf : LeafPreimageV2
  pub steps : List ProofStepDocument

pub record ProofDocument : Type 0 where
  pub format_version : Text
  pub report_digest : Text
  pub leaf : LeafPreimage
  pub steps : List ProofStepDocument
