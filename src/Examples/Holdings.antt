-- ===== src/Examples/Holdings.antt =====
-- A participant's answer of two positions: what is read of it, its totals, and the report of them in
-- two orders.
use mathlib.Core.List.Permᴰ.{swap}
use canton_assurance_layer.Prelude.{
  ℕ, ◌<◌, ◌≡◌, refl, ◌↔◌, Bool, false, List, [], ◌∷◌, Option, none, some, Text, codes, ok, amount,
  BTreeMap, u128_mod, text_eq, replicate, if◌then◌else◌, checked_add, checked_mul, cmp, insert,
}
use canton_assurance_layer.Reserve.{Json, CustodyPosition, HoldingFields, parse_holdings, totals}
use canton_assurance_layer.Reserve.Holdings.{AreRead, IsApart, parse_holdings-AreRead}
use canton_assurance_layer.Reserve.Totals.{held_in, totals-held_in}
use canton_assurance_layer.Reserve.Custody.{build_custody_report}
use canton_assurance_layer.Reserve.Custody.Order.{build_custody_report_reordered}
use canton_assurance_layer.Merkle.Amount as Amount
use canton_assurance_layer.Reserve as Reserve
use canton_assurance_layer.Examples.Crypto.{crypto}
use canton_assurance_layer.Examples.Reports.{signer}
use canton_assurance_layer.Examples.Publishing.{metadata}

-- A value is a text or the entries of an object or an array, keyed by their fields.
data Value : Type 0 where
  word : Text → Value
  item : Text → Text → Text → Value
  arguments : Text → Text → Value
  items : Text → Value

abbrev an_item : Text → Text → Text → Value
an_item id asset units = item id asset units

abbrev answer : List Value
answer =
    an_item (codes "c2") (codes "USD") (codes "70.5")
    ∷ an_item (codes "c1") (codes "USD") (codes "3")
    ∷ []

abbrev field : Text → Value → Option Value
field name (item id asset units) =
    if text_eq name (codes "contractId") then some (word id) else some (arguments asset units)
field name (arguments asset units) =
    if text_eq name (codes "instrument") then some (word asset) else some (word units)
field name (word s) = none
field name (items s) = none

abbrev as_text : Value → Option Text
as_text (word s) = some s
as_text (item id asset units) = none
as_text (arguments asset units) = none
as_text (items s) = none

abbrev as_list : Value → Option (List Value)
as_list (items s) = some answer
as_list (word s) = none
as_list (item id asset units) = none
as_list (arguments asset units) = none

abbrev json : Json
json = record {
  Value = Value;
  from_str = λ body. some (items body);
  to_string = λ v. [];
  get = field;
  pointer = λ path v. some v;
  as_str = as_text;
  as_array = as_list;
  is_null = λ v. false;
  text = word;
  flag = λ b. word [];
  array = λ l. word [];
  object = λ l. word [];
}

abbrev fields : HoldingFields
fields = record { asset_field = codes "instrument"; amount_field = codes "amount" }

abbrev first : CustodyPosition
first = record {
  contract_id = codes "c2";
  asset = codes "USD";
  amount = 70_500_000_000_000_000_000;
}

abbrev second : CustodyPosition
second = record {
  contract_id = codes "c1";
  asset = codes "USD";
  amount = 3_000_000_000_000_000_000;
}

abbrev positions : List CustodyPosition
positions = first ∷ second ∷ []

parse_holdings-AreRead_example : (parse_holdings json (codes "[]") fields ≡ ok positions) ↔ (
    (parsed : json.Value) × (entries : List json.Value) × (json.from_str (codes "[]") ≡ some parsed)
    × (json.as_array parsed ≡ some entries)
    × AreRead json fields entries positions
    × IsApart positions)
parse_holdings-AreRead_example = parse_holdings-AreRead json fields (codes "[]") positions

holdings_read : parse_holdings json (codes "[]") fields ≡ ok positions
unfolding text_eq checked_add checked_mul Amount.split_once Amount.decimal_value Amount.parse_u128
    Amount.join_parts Amount.fraction_units Amount.parse_parts Amount.parse_amount_18dp
    Reserve.contract_id_of Reserve.position_of Reserve.read_items Reserve.parse_holdings
holdings_read = refl

totals-held_in_example :
    (((k : Text) → held_in k positions < u128_mod)
      → (out : BTreeMap ℕ) × (totals positions ≡ ok out))
    × ((out : BTreeMap ℕ)
        → totals positions ≡ ok out
        → (k : Text) → (amount k out ≡ held_in k positions) × (held_in k positions < u128_mod))
totals-held_in_example = totals-held_in positions

totals_of_two : totals positions ≡ ok ((codes "USD", 73_500_000_000_000_000_000) ∷ [])
unfolding text_eq cmp insert checked_add Reserve.totals_from Reserve.totals
totals_of_two = refl

ids_differ : Path Bool (text_eq (codes "c2") (codes "c1")) false
unfolding text_eq
ids_differ = refl

build_custody_report_reordered_example :
    build_custody_report crypto positions metadata (codes "00ff") (replicate 32 9) signer
    ≡ build_custody_report crypto
        (second ∷ first ∷ [])
        metadata
        (codes "00ff")
        (replicate 32 9)
        signer
build_custody_report_reordered_example =
    build_custody_report_reordered crypto positions (second ∷ first ∷ []) metadata (codes "00ff")
      (replicate 32 9) signer (swap refl refl) ((ids_differ, tt), (tt, tt))
