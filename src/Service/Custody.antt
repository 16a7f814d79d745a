-- ===== src/Service/Custody.antt =====
-- rust/solvency-service/src/api.rs: the custody route's `do_custody`, and rust/solvency-service/src/main.rs:
-- the bearer token that guards the routes.
use canton_assurance_layer.Prelude.{
  ℕ, Bool, not, ◌&&◌, List, [], ◌∷◌, Option, none, some, Text, Bytes, codes, text_eq, ◌==◌, length,
  is_empty, map, BTreeMap, Result, ok, ensure, map_err, strip_prefix, ◌>>=◌, ◌>>◌,
}
use canton_assurance_layer.Primitives.{Primitives}
use canton_assurance_layer.Merkle.Amount.{format_amount_18dp}
use canton_assurance_layer.Report.Digest.{report_digest_hex}
use canton_assurance_layer.Report.Sign.{ReportSigner, public_key_hex}
use canton_assurance_layer.Report.Produce.{ReportMetadata}
use canton_assurance_layer.Reserve.{
  Json, HoldingFields, CustodyPosition, ReserveError, parse_holdings, totals,
}
use canton_assurance_layer.Reserve.Custody.{CustodyError, build_custody_report}
use canton_assurance_layer.Service.Publish.{
  FileOut, ServiceError, Printer, file, pretty, display_amounts,
}

abbrev pub custody_profile : Text
custody_profile = codes "coverage.custody"

pub record CustodyRequest : Type 0 where
  pub org_id : Text
  pub publisher : Text
  pub snapshot_time : Text
  pub ledger_offset : Text
  pub response_json : Text
  pub asset_field : Text
  pub amount_field : Text

pub record PositionOut : Type 0 where
  pub contract_id : Text
  pub asset : Text
  pub amount : Text

pub record CustodyResponse : Type 0 where
  pub public_key : Text
  pub report_digest : Text
  pub root_hash : Text
  pub leaf_count : ℕ
  pub root_sums : BTreeMap Text
  pub positions : List PositionOut
  pub files : List FileOut

pub data CustodyRouteError : Type 0 where
  empty_snapshot : CustodyRouteError
  bad_holdings : ReserveError → CustodyRouteError
  not_built : CustodyError → CustodyRouteError
  not_printed : ServiceError → CustodyRouteError

unfoldable pub position_out : CustodyPosition → PositionOut
position_out position = record {
  contract_id = position.contract_id;
  asset = position.asset;
  amount = format_amount_18dp position.amount;
}

abbrev pub custody_metadata : CustodyRequest → ReportMetadata
custody_metadata req = record {
  profile = custody_profile;
  publisher = req.publisher;
  snapshot_time = req.snapshot_time;
  ledger_offset = req.ledger_offset;
  mark_prices = [];
  disclosures = record { bad_debt = []; excluded_house_accounts = 0; excluded_house_totals = [] };
  manifest = none;
}

module _ (p : Primitives) (json : Json) (printer : Printer) where
  unfoldable pub do_custody :
      Bytes → CustodyRequest → ReportSigner → Result CustodyRouteError CustodyResponse
  do_custody master_salt req signer = do
    let fields : HoldingFields = record {
      asset_field = req.asset_field;
      amount_field = req.amount_field;
    }
    positions ← map_err bad_holdings (parse_holdings json req.response_json fields)
    ensure (not (is_empty positions)) empty_snapshot
    sums ← map_err bad_holdings (totals positions)
    signed ← map_err not_built (
        build_custody_report p positions (custody_metadata req) req.ledger_offset master_salt
          signer)
    content ← map_err not_printed (pretty (printer.report signed))
    ok (record {
      public_key = public_key_hex p signer;
      report_digest = report_digest_hex p signed.report;
      root_hash = signed.report.root_hash;
      leaf_count = signed.report.leaf_count;
      root_sums = display_amounts signed.report.root_sums;
      positions = map position_out positions;
      files = file (codes "custody-report.json") content ∷ [];
    })

-- What `require_token` compares: the header's text behind `Bearer `, or nothing.
abbrev pub presented : Option Text → Text
presented none = []
presented (some header) = elim (strip_prefix (codes "Bearer ") header) [
  | none ↦ []
  | some token ↦ token
]

-- `require_token`: the lengths, and the bytes by a comparison in constant time.
unfoldable pub is_authorized : Text → Option Text → Bool
is_authorized expected header =
    (length (presented header) == length expected) && text_eq (presented header) expected
