-- ===== src/Diagnose/Ledger.antt =====
-- rust/sim-diagnose/src/ledger_error.rs: the parsing of an error, from a JSON body, from the form of
-- gRPC and log lines, and from a text that has either in it. The JSON library and the regular
-- expressions are parameters.
use canton_assurance_layer.Prelude.{
  ℕ, ◌%◌, ◌^◌, Bool, List, [], ◌∷◌, Option, none, some, Text, codes, BTreeMap, get, collect_into,
  map, is_empty, and_then, if◌then◌else◌,
}
use canton_assurance_layer.Prelude.Space.{trim}
use canton_assurance_layer.Prelude.Int.{ℤ}
use canton_assurance_layer.Report.Pack.{eq_ignore_ascii_case}
use canton_assurance_layer.Diagnose.{LedgerError, CatalogEntry, lookup, is_some}
use canton_assurance_layer.Diagnose.Scan.{
  unwrap_or, or_else, option_map, parse_unsigned, parse_bool, as_i32, find_json_object,
}

-- What the module uses of `serde_json`: the reader and the accessors of a value. The entries of an
-- object come in the order of the library's map.
pub record Json : Type 1 where
  pub Value : Type 0
  pub from_str : Text → Option Value
  pub as_object : Value → Option (BTreeMap Value)
  pub as_array : Value → Option (List Value)
  pub as_str : Value → Option Text
  pub as_bool : Value → Option Bool
  pub as_u64 : Value → Option ℕ
  pub as_i64 : Value → Option ℤ
  pub is_null : Value → Bool
  pub to_string : Value → Text

-- The regular expressions: the groups of the first match of a gRPC text (code, category, correlation,
-- cause), all bare codes, and the digits of `returned <digits>`.
pub record Patterns : Type 0 where
  pub grpc : Text → Option (Text × Text × Text × Text)
  pub bare : Text → List Text
  pub returned : Text → Option Text

-- The fields that nothing has set yet.
abbrev pub default_error : LedgerError
default_error = record {
  http_status = none;
  code = [];
  cause = [];
  error_category = none;
  grpc_code = none;
  definite_answer = none;
  correlation_id = none;
  trace_id = none;
  context = [];
  resources = [];
  raw = [];
}

module _ (json : Json) where
  abbrev pub value_text : Option Text → json.Value → Text
  value_text (some s) v = s
  value_text none v = if json.is_null v then [] else json.to_string v

  unfoldable pub value_to_string : json.Value → Text
  value_to_string v = value_text (json.as_str v) v

  -- `o.get(first).or_else(|| o.get(second))`, as a text
  abbrev pub field_text : Text → Text → BTreeMap json.Value → Text
  field_text first second o =
      unwrap_or [] (option_map value_to_string (or_else (get first o) (get second o)))

  abbrev pub pair_of : List json.Value → Option (Text × Text)
  pair_of (kind ∷ name ∷ []) = some (value_to_string kind, value_to_string name)
  pair_of _ = none

  abbrev pub resource_from :
      Option (List json.Value) → Option (BTreeMap json.Value) → Option (Text × Text)
  resource_from (some pair) o = pair_of pair
  resource_from none none = none
  resource_from none (some o) = some (
    field_text (codes "type") (codes "resourceType") o,
    field_text (codes "name") (codes "value") o,
  )

  abbrev pub pushed : Option (Text × Text) → List (Text × Text) → List (Text × Text)
  pushed none resources = resources
  pushed (some r) resources = r ∷ resources

  unfoldable pub resources_of : List json.Value → List (Text × Text)
  resources_of [] = []
  resources_of (item ∷ items) =
      pushed (resource_from (json.as_array item) (json.as_object item)) (resources_of items)

  unfoldable pub context_of : BTreeMap json.Value → BTreeMap Text
  context_of obj = collect_into [] (
      map (λ e. (e.0, value_to_string e.1))
        (unwrap_or [] (and_then (get (codes "context") obj) json.as_object)))

  abbrev pub text_at : Text → BTreeMap json.Value → Option Text
  text_at name obj = and_then (get name obj) json.as_str

  unfoldable pub category_at : BTreeMap json.Value → Option ℕ
  category_at obj =
      or_else
        (option_map (λ c. c % 2 ^ 32) (and_then (get (codes "errorCategory") obj) json.as_u64))
        (and_then (get (codes "category") (context_of obj)) (parse_unsigned (2 ^ 32)))

  unfoldable pub definite_at : BTreeMap json.Value → Option Bool
  definite_at obj =
      or_else (and_then (get (codes "definiteAnswer") obj) json.as_bool)
        (and_then (get (codes "definite_answer") (context_of obj)) parse_bool)

  abbrev pub error_of : BTreeMap json.Value → Text → LedgerError
  error_of obj code = record {
    http_status = none;
    code = code;
    cause = unwrap_or [] (text_at (codes "cause") obj);
    error_category = category_at obj;
    grpc_code = option_map as_i32 (and_then (get (codes "grpcCodeValue") obj) json.as_i64);
    definite_answer = definite_at obj;
    correlation_id = text_at (codes "correlationId") obj;
    trace_id = text_at (codes "traceId") obj;
    context = context_of obj;
    resources = resources_of (unwrap_or [] (and_then (get (codes "resources") obj) json.as_array));
    raw = [];
  }

  abbrev pub error_with : BTreeMap json.Value → Text → Option LedgerError
  error_with obj code = if is_empty code then none else some (error_of obj code)

  unfoldable pub from_json : json.Value → Option LedgerError
  from_json v =
      and_then (json.as_object v)
        (λ obj. and_then (text_at (codes "code") obj) (λ code. error_with obj (trim code)))

unfoldable pub extract_wrapped_status : Patterns → Text → Option ℕ
extract_wrapped_status patterns text = and_then (patterns.returned text) (parse_unsigned (2 ^ 16))

module _ (catalog : Text → Option CatalogEntry) (patterns : Patterns) where
  -- The first of the bare codes that the catalogue has.
  unfoldable pub known_code : List Text → Text
  known_code [] = codes "UNKNOWN"
  known_code (c ∷ found) =
      let rest = known_code found in if is_some (lookup catalog c) then c else rest

  abbrev pub matched_or_bare : Option (Text × Text × Text × Text) → Text → LedgerError
  matched_or_bare (some (code, category, correlation, cause)) text = record default_error {
    code = code;
    error_category = parse_unsigned (2 ^ 32) category;
    correlation_id = some correlation;
    cause = trim cause;
  }
  matched_or_bare none text = record default_error {
    code = known_code (patterns.bare text);
    cause = text;
  }

  unfoldable pub from_grpc_text : Text → LedgerError
  from_grpc_text text = matched_or_bare (patterns.grpc text) text

  module _ (json : Json) where
    unfoldable pub parse_inner : Text → LedgerError
    parse_inner body =
        let trimmed = trim body in
        unwrap_or (from_grpc_text trimmed) (
          and_then (find_json_object trimmed)
            (λ found. and_then (json.from_str found) (from_json json)))

    unfoldable pub parse : Option ℕ → Text → LedgerError
    parse http_status body = record (parse_inner body) { http_status = http_status; raw = body }

    unfoldable pub from_text : Text → LedgerError
    from_text text = parse (extract_wrapped_status patterns text) text

abbrev pub found_resource : Text → List (Text × Text) → Option Text
found_resource kind [] = none
found_resource kind ((k, v) ∷ resources) =
    if eq_ignore_ascii_case k kind then some v else found_resource kind resources

abbrev pub resource : LedgerError → Text → Option Text
resource error kind = found_resource kind error.resources
