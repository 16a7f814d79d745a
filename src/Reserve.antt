-- ===== src/Reserve.antt =====
-- rust/reserve-attest/src/lib.rs: reading custody holdings from a participant, and their totals. The
-- JSON library and the transport are parameters: the first is a third-party crate, the second the
-- caller's.
pub mod Custody
pub mod Holdings
pub mod Totals
use canton_assurance_layer.Prelude.{
  ℕ, ◌+◌, Bool, true, false, not, ◌&&◌, ◌||◌, List, [], ◌∷◌, ◌++◌, Option, none, some, Text, codes,
  text_eq, ◌==◌, leb, any, all, length, is_empty, map, BTreeMap, insert, amount, Result, ok, err,
  ok_or, ensure, map_err, checked_add, ◌>>=◌, ◌>>◌,
}
use canton_assurance_layer.Merkle.Amount.{AmountError, parse_amount_18dp, split_once}

-- What the crate uses of `serde_json`: values, their accessors and their construction.
pub record Json : Type 1 where
  pub Value : Type 0
  pub from_str : Text → Option Value
  pub to_string : Value → Text
  pub get : Text → Value → Option Value
  pub pointer : Text → Value → Option Value
  pub as_str : Value → Option Text
  pub as_array : Value → Option (List Value)
  pub is_null : Value → Bool
  pub text : Text → Value
  pub flag : Bool → Value
  pub array : List Value → Value
  pub object : List (Text × Value) → Value

pub record CustodyPosition : Type 0 where
  pub contract_id : Text
  pub asset : Text
  pub amount : ℕ

pub record HoldingFields : Type 0 where
  pub asset_field : Text
  pub amount_field : Text

pub data ReserveError : Type 0 where
  not_json not_an_array no_offset no_created_event no_contract_id no_parties null_offset :
      ReserveError
  package_id_qualified : Text → ReserveError
  appears_twice no_arguments no_asset no_amount : Text → ReserveError
  bad_amount : Text → AmountError → ReserveError
  total_overflows : Text → ReserveError
  ledger_end_failed query_failed : ReserveError

-- `char::is_ascii_hexdigit`
abbrev pub is_hex_digit : ℕ → Bool
is_hex_digit c =
    (leb b'0' c && leb c b'9') || ((leb b'A' c && leb c b'F') || (leb b'a' c && leb c b'f'))

abbrev pub is_package_name : Option (Text × Text) → Bool
is_package_name none = false
is_package_name (some (prefix, rest)) = not ((length prefix == 64) && all is_hex_digit prefix)

unfoldable pub is_package_name_qualified : Text → Bool
is_package_name_qualified template_id = is_package_name (split_once b':' template_id)

abbrev pub ledger_end_path : Text
ledger_end_path = codes "/state/ledger-end"

abbrev pub active_contracts_path : Text
active_contracts_path = codes "/state/active-contracts"

module _ (json : Json) where
  open json use {Value}

  pub record HoldingsQuery : Type 0 where
    pub custody_parties : List Text
    pub template_id : Text
    pub active_at_offset : Value

  abbrev pub offset_text : Value → Option Text → Text
  offset_text value none = json.to_string value
  offset_text value (some s) = s

  unfoldable pub offset_string : HoldingsQuery → Text
  offset_string query = offset_text query.active_at_offset (json.as_str query.active_at_offset)

  unfoldable pub parse_ledger_end : Text → Result ReserveError Value
  parse_ledger_end body = do
    parsed ← ok_or (json.from_str body) not_json
    ok_or (json.get (codes "offset") parsed) no_offset

  unfoldable pub party_filter : Text → Value
  party_filter template_id = json.object (
      (
        codes "cumulative",
        json.array (
            json.object (
              (
                codes "identifierFilter",
                json.object (
                    (
                      codes "TemplateFilter",
                      json.object (
                          (
                            codes "value",
                            json.object (
                                (codes "templateId", json.text template_id)
                                ∷ (codes "includeCreatedEventBlob", json.flag false)
                                ∷ []),
                          )
                          ∷ []),
                    )
                    ∷ []),
              )
              ∷ [])
            ∷ []),
      )
      ∷ [])

  unfoldable pub active_contracts_request : HoldingsQuery → Result ReserveError Value
  active_contracts_request query = do
    ensure (not (is_empty query.custody_parties)) no_parties
    ensure (is_package_name_qualified query.template_id) (package_id_qualified query.template_id)
    ensure (not (json.is_null query.active_at_offset)) null_offset
    ok (
        json.object (
          (
            codes "filter",
            json.object (
                (
                  codes "filtersByParty",
                  json.object
                      (map (λ p. (p, party_filter query.template_id)) query.custody_parties),
                )
                ∷ []),
          )
          ∷ (codes "verbose", json.flag true)
          ∷ (codes "activeAtOffset", query.active_at_offset)
          ∷ []))

  -- `createdEvent`'s `contractId`
  unfoldable pub contract_id_of : Value → Result ReserveError (Value × Text)
  contract_id_of item = do
    created ←
        ok_or (json.pointer (codes "/contractEntry/JsActiveContract/createdEvent") item)
          no_created_event
    field ← ok_or (json.get (codes "contractId") created) no_contract_id
    contract_id ← ok_or (json.as_str field) no_contract_id
    ok (created, contract_id)

  -- What `parse_holdings` reads behind the contract id.
  unfoldable pub position_of : HoldingFields → Value → Text → Result ReserveError CustodyPosition
  position_of fields created contract_id = do
    arguments ← ok_or (json.get (codes "createArgument") created) (no_arguments contract_id)
    asset_value ← ok_or (json.get fields.asset_field arguments) (no_asset contract_id)
    asset ← ok_or (json.as_str asset_value) (no_asset contract_id)
    raw_value ← ok_or (json.get fields.amount_field arguments) (no_amount contract_id)
    raw ← ok_or (json.as_str raw_value) (no_amount contract_id)
    amount ← map_err (bad_amount contract_id) (parse_amount_18dp raw)
    ok (record { contract_id = contract_id; asset = asset; amount = amount })

  -- The loop over the items; `seen` are the ids of the items before.
  unfoldable pub read_items :
      HoldingFields → List Text → List Value → Result ReserveError (List CustodyPosition)
  read_items fields seen [] = ok []
  read_items fields seen (item ∷ items) = do
    (created, contract_id) ← contract_id_of item
    ensure (not (any (text_eq contract_id) seen)) (appears_twice contract_id)
    position ← position_of fields created contract_id
    positions ← read_items fields (contract_id ∷ seen) items
    ok (position ∷ positions)

  unfoldable pub parse_holdings : Text → HoldingFields → Result ReserveError (List CustodyPosition)
  parse_holdings body fields = do
    parsed ← ok_or (json.from_str body) not_json
    items ← ok_or (json.as_array parsed) not_an_array
    read_items fields [] items

  -- `Transport`: a path, and a path with a body.
  pub record Transport : Type 0 where
    pub fetch : Text → Option Text
    pub post : Text → Text → Option Text

  unfoldable pub read_holdings :
      Transport
      → List Text
      → Text
      → HoldingFields
      → Result ReserveError (List CustodyPosition × Value)
  read_holdings transport custody_parties template_id fields = do
    end ← ok_or (transport.fetch ledger_end_path) ledger_end_failed
    offset ← parse_ledger_end end
    let query : HoldingsQuery = record {
      custody_parties = custody_parties;
      template_id = template_id;
      active_at_offset = offset;
    }
    request ← active_contracts_request query
    body ← ok_or (transport.post active_contracts_path (json.to_string request)) query_failed
    positions ← parse_holdings body fields
    ok (positions, offset)

unfoldable pub totals_from : List CustodyPosition → BTreeMap ℕ → Result ReserveError (BTreeMap ℕ)
totals_from [] out = ok out
totals_from (position ∷ positions) out = do
  slot ←
      ok_or (checked_add (amount position.asset out) position.amount)
        (total_overflows position.asset)
  totals_from positions (insert position.asset slot out)

unfoldable pub totals : List CustodyPosition → Result ReserveError (BTreeMap ℕ)
totals positions = totals_from positions []
