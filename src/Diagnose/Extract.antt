-- ===== src/Diagnose/Extract.antt =====
-- rust/sim-diagnose/src/classify.rs: the facts that `extract` reads out of a cause. The regular
-- expressions are parameters.
use canton_assurance_layer.Prelude.{
  ℕ, Bool, not, ◌&&◌, ◌||◌, List, [], ◌∷◌, ◌++◌, Option, none, some, Text, codes, BTreeMap, get,
  keys, collect_into, ◌==◌, map, is_empty, and_then, if◌then◌else◌,
}
use canton_assurance_layer.Prelude.Space.{is_space1, is_space2, is_space3}
use canton_assurance_layer.Merkle.Amount.{split_once}
use canton_assurance_layer.Diagnose.{LedgerError, one_of, starts_with}
use canton_assurance_layer.Diagnose.Ledger.{resource}
use canton_assurance_layer.Diagnose.Scan.{or_else, option_map}

-- The regular expressions: of a match the group that is read or, where none is named, the whole.
pub record CausePatterns : Type 0 where
  pub precondition_template : Text → Option Text
  pub template : Text → Option Text
  pub contract_id : Text → List Text
  pub party : Text → List Text
  pub authorizers : Text → Option (Text × Text)
  pub missing_auth : Text → Option Text
  pub exception : Text → Option (Text × Text)
  pub message_field : Text → Option Text
  pub error_id : Text → Option Text
  pub choice : Text → Option Text
  pub sync_id : Text → List Text

pub record Extracted : Type 0 where
  pub template_id : Option Text
  pub choice : Option Text
  pub contract_ids : List Text
  pub parties : List Text
  pub required_authorizers : List Text
  pub given_authorizers : List Text
  pub missing_authorizers : List Text
  pub exception_type : Option Text
  pub message : Option Text
  pub error_id : Option Text
  pub package_id : Option Text
  pub synchronizer_id : Option Text

-- `Iterator::filter`
abbrev pub filter {ℓ} : {A : Type ℓ} → (A → Bool) → List A → List A
filter p [] = []
filter p (x ∷ xs) = let rest = filter p xs in if p x then x ∷ rest else rest

-- `trim_start_matches`, `trim_end_matches` and both, for characters of one byte
unfoldable pub trim_start_matches : (ℕ → Bool) → Text → Text
trim_start_matches p [] = []
trim_start_matches p (c ∷ s) = let rest = trim_start_matches p s in if p c then rest else c ∷ s

unfoldable pub trim_end_matches : (ℕ → Bool) → Text → Text
trim_end_matches p [] = []
trim_end_matches p (c ∷ s) =
    let rest = trim_end_matches p s in if p c && is_empty rest then [] else c ∷ rest

abbrev pub trim_matches : (ℕ → Bool) → Text → Text
trim_matches p s = trim_end_matches p (trim_start_matches p s)

abbrev pub prefixed : ℕ → List Text → List Text
prefixed c [] = (c ∷ []) ∷ []
prefixed c (part ∷ parts) = (c ∷ part) ∷ parts

-- `split` at commas and at white space of one, two or three bytes
unfoldable pub split_words : Text → List Text
split_words [] = [] ∷ []
split_words (a ∷ []) = if (a == 44) || is_space1 a then [] ∷ [] ∷ [] else (a ∷ []) ∷ []
split_words (a ∷ b ∷ []) =
    let one = split_words (b ∷ []) in
    if (a == 44) || is_space1 a
    then [] ∷ one
    else if is_space2 a b
    then [] ∷ [] ∷ []
    else prefixed a one
split_words (a ∷ b ∷ c ∷ s) =
    let one = split_words (b ∷ c ∷ s) in
    let two = split_words (c ∷ s) in
    let three = split_words s in
    if (a == 44) || is_space1 a
    then [] ∷ one
    else if is_space2 a b
    then [] ∷ two
    else if is_space3 a b c
    then [] ∷ three
    else prefixed a one

-- An opening or closing square bracket, or a quotation mark.
abbrev pub is_quote : ℕ → Bool
is_quote c = (c == 91) || ((c == 93) || ((c == 39) || (c == 34)))

unfoldable pub split_parties : Text → List Text
split_parties s = filter (λ p. not (is_empty p)) (map (trim_matches is_quote) (split_words s))

-- `str::replace` of two characters by one
unfoldable pub replace : ℕ → ℕ → ℕ → Text → Text
replace a b c [] = []
replace a b c (x ∷ []) = x ∷ []
replace a b c (x ∷ y ∷ s) =
    let behind = replace a b c s in
    let rest = replace a b c (y ∷ s) in if (x == a) && (y == b) then c ∷ behind else x ∷ rest

-- An escaped quotation mark first, then an escaped line feed.
unfoldable pub unescape : Text → Text
unescape s = replace 92 110 10 (replace 92 34 34 s)

-- Ids that are not there yet are pushed at the end.
unfoldable pub push_new : List Text → List Text → List Text
push_new ids [] = ids
push_new ids (id ∷ found) = push_new (if one_of ids id then ids else ids ++ id ∷ []) found

abbrev pub one_or_none : Option Text → List Text
one_or_none none = []
one_or_none (some id) = id ∷ []

-- `BTreeSet::extend`
abbrev pub extended : BTreeMap (Unit {0}) → List Text → BTreeMap (Unit {0})
extended set names = collect_into set (map (λ name. (name, tt)) names)

-- The authorizers, required, given and missing.
abbrev pub Authorizers : Type 0
Authorizers = List Text × List Text × List Text

abbrev pub without : List Text → List Text → List Text
without given required = filter (λ p. not (one_of given p)) required

unfoldable pub authorizers_of : Option (Text × Text) → Option Text → Authorizers
authorizers_of (some (required, given)) absent = (
  split_parties required,
  split_parties given,
  without (split_parties given) (split_parties required),
)
authorizers_of none (some absent) = (split_parties absent, [], split_parties absent)
authorizers_of none none = ([], [], [])

unfoldable pub package_of : Text → Option Text
package_of template =
    and_then (split_once 58 template)
      (λ parts. if starts_with (codes "#") parts.0 then none else some parts.0)

unfoldable pub first_other : List Text → List Text → Option Text
first_other parties [] = none
first_other parties (s ∷ found) =
    let rest = first_other parties found in if one_of parties s then rest else some s

module _ (re : CausePatterns) where
  abbrev pub template_of : Text → Option Text
  template_of cause =
      or_else (option_map (trim_end_matches (λ c. c == 44)) (re.precondition_template cause))
        (re.template cause)

  abbrev pub message_in : Text → Option Text
  message_in text = option_map unescape (re.message_field text)

  abbrev pub message_of : Option (Text × Text) → Text → Option Text
  message_of none cause = message_in cause
  message_of (some (kind, fields)) cause = or_else (message_in fields) (message_in cause)

  unfoldable pub parties_of : Text → Authorizers → BTreeMap (Unit {0})
  parties_of cause (required, given, missing) =
      extended (extended (extended [] (re.party cause)) required) given

  unfoldable pub extract : LedgerError → Extracted
  extract error =
      let cause = error.cause in
      let named = authorizers_of (re.authorizers cause) (re.missing_auth cause) in
      let parties = keys (parties_of cause named) in
      let exception = re.exception cause in
      let template = template_of cause in
      record {
        template_id = template;
        choice = re.choice cause;
        contract_ids =
            push_new (one_or_none (resource error (codes "CONTRACT_ID"))) (re.contract_id cause);
        parties = parties;
        required_authorizers = named.0;
        given_authorizers = named.1;
        missing_authorizers = named.2;
        exception_type = option_map (λ e. e.0) exception;
        message = message_of exception cause;
        error_id = re.error_id cause;
        package_id = and_then template package_of;
        synchronizer_id = or_else (get (codes "synchronizer_id") error.context) (
            or_else (get (codes "synchronizerId") error.context)
              (first_other parties (re.sync_id cause)));
      }
