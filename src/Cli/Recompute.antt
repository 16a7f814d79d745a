-- ===== src/Cli/Recompute.antt =====
-- rust/solvency-cli/src/recompute.rs: rebuilding a root from a full dump of the leaves; and
-- rust/solvency-cli/src/diff.rs: comparing two reports' manifests.
pub mod Match
use canton_assurance_layer.Prelude.{
  ℕ, ◌≡◌, Bool, true, false, not, ◌&&◌, List, [], ◌∷◌, ◌++◌, Option, none, some, Text, Bytes,
  text_eq, ◌==◌, any, length, is_empty, map, replicate, keys, BTreeMap, amount, if◌then◌else◌,
  Result, ok, err, ok_or, and_then, ensure, map_err, collect, ◌>>=◌, ◌>>◌,
}
use canton_assurance_layer.Primitives.{Primitives}
use canton_assurance_layer.Merkle.Amount.{AmountError, parse_amount_18dp}
use canton_assurance_layer.Report.Document.{Manifest, Report, SignedReport}
use canton_assurance_layer.Report.Manifest.Diff.{ManifestChange, diff, is_reduction, sort_dedup}
use canton_assurance_layer.Report.Sign.{ReportSigner}
use canton_assurance_layer.Report.Produce.{
  LeafInput, ReportMetadata, Publication, PublishError, publish,
}

pub record DumpEntry : Type 0 where
  pub salt : Text
  pub user_id : Text
  pub balances : BTreeMap Text

pub data RecomputeError : Type 0 where
  empty_dump : RecomputeError
  bad_salt : Text → RecomputeError
  bad_amount : AmountError → RecomputeError
  not_rebuilt : PublishError → RecomputeError

pub record RecomputeOutcome : Type 0 where
  pub leaves : ℕ
  pub published_root : Text
  pub recomputed_root : Text
  pub disagreeing_assets : List Text

unfoldable pub matches : RecomputeOutcome → Bool
matches outcome =
    text_eq outcome.published_root outcome.recomputed_root && is_empty outcome.disagreeing_assets

unfoldable pub dump_amounts : BTreeMap Text → Result RecomputeError (BTreeMap ℕ)
dump_amounts [] = ok []
dump_amounts ((asset, raw) ∷ balances) = do
  units ← map_err bad_amount (parse_amount_18dp raw)
  rest ← dump_amounts balances
  ok ((asset, units) ∷ rest)

-- The assets, of both maps, on which they differ: a set, read in order.
unfoldable pub disagreeing : List Text → BTreeMap ℕ → BTreeMap ℕ → List Text
disagreeing [] ours theirs = []
disagreeing (asset ∷ assets) ours theirs =
    let rest = disagreeing assets ours theirs in
    if amount asset ours == amount asset theirs then rest else asset ∷ rest

-- The throwaway key: 32 zero bytes.
abbrev pub throwaway : ReportSigner
throwaway = record { seed = replicate 32 0 }

abbrev pub metadata_of : Report → ReportMetadata
metadata_of report = record {
  profile = report.profile;
  publisher = report.publisher;
  snapshot_time = report.snapshot_time;
  ledger_offset = report.ledger_offset;
  mark_prices = [];
  disclosures = record { bad_debt = []; excluded_house_accounts = 0; excluded_house_totals = [] };
  manifest = none;
}

abbrev pub outcome_of : ℕ → Report → Report → RecomputeOutcome
outcome_of leaves published recomputed = record {
  leaves = leaves;
  published_root = published.root_hash;
  recomputed_root = recomputed.root_hash;
  disagreeing_assets = sort_dedup (
      disagreeing (keys recomputed.root_sums ++ keys published.root_sums) recomputed.root_sums
        published.root_sums);
}

module _ (p : Primitives) where
  abbrev pub thirty_two : Bytes → Option Bytes
  thirty_two bytes = if length bytes == 32 then some bytes else none

  unfoldable pub input_of : DumpEntry → Result RecomputeError LeafInput
  input_of entry = do
    salt ← ok_or (and_then (p.hex_decode entry.salt) thirty_two) (bad_salt entry.user_id)
    balances ← dump_amounts entry.balances
    ok (record { salt = salt; user_id = entry.user_id; balances = balances })

  -- `run_recompute`, on the two documents that it loads.
  unfoldable pub recompute : List DumpEntry → SignedReport → Result RecomputeError RecomputeOutcome
  recompute dump signed = do
    ensure (not (is_empty dump)) empty_dump
    inputs ← collect input_of dump
    rebuilt ← map_err not_rebuilt (publish p inputs (metadata_of signed.report) throwaway)
    ok (outcome_of (length inputs) signed.report rebuilt.signed_report.report)

-- diff.rs: a report without a manifest is compared as an empty one.
abbrev pub manifest_or_empty : Option Manifest → Manifest
manifest_or_empty none = record { audience = []; fields = [] }
manifest_or_empty (some manifest) = manifest

unfoldable pub manifest_changes : SignedReport → SignedReport → List ManifestChange
manifest_changes previous current =
    diff (manifest_or_empty previous.report.manifest) (manifest_or_empty current.report.manifest)

unfoldable pub has_reductions : List ManifestChange → Bool
has_reductions changes = any is_reduction changes
