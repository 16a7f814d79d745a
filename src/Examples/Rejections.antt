-- ===== src/Examples/Rejections.antt =====
-- Rejections of submissions, parsed and diagnosed on concrete inputs.
use canton_assurance_layer.Prelude.{
  cmp, strip_prefix, All, ℕ, ◌<◌, ◌≡◌, ◌↔◌, refl, arith, true, false, not, ◌&&◌, ◌||◌, List, [],
  ◌∷◌, ◌++◌, Option, none, some, Text, codes, text_eq, replicate, get_elem?, if◌then◌else◌,
  collect_into,
}
use canton_assurance_layer.Prelude.Int.{pos}
use canton_assurance_layer.Prelude.Space as Space
use canton_assurance_layer.Diagnose as Diagnose
use canton_assurance_layer.Diagnose.{LedgerError, CatalogEntry, one_of, is_definite}
use canton_assurance_layer.Diagnose.Answer.{diagnose}
use canton_assurance_layer.Diagnose.Answer as Answer
use canton_assurance_layer.Diagnose.Retry.{is_transient, diagnose-retryable}
use canton_assurance_layer.Diagnose.Ledger.{
  Json, Patterns, default_error, from_json, from_text, extract_wrapped_status,
}
use canton_assurance_layer.Diagnose.Ledger as Ledger
use canton_assurance_layer.Diagnose.Wrapped.{IsNot, diagnose-from_text}
use canton_assurance_layer.Diagnose.Words as Words
use canton_assurance_layer.Diagnose.Words.{is_continuation, sentence_end, first_sentence}
use canton_assurance_layer.Diagnose.Sentence.{first_sentence-none}
use canton_assurance_layer.Diagnose.Extract.{CausePatterns, extract}
use canton_assurance_layer.Diagnose.Extract as Extract
use canton_assurance_layer.Diagnose.Authorizers.{extract-authorizers}

-- The JSON values of the examples.
data Value : Type 0 where
  text : Text → Value
  number : ℕ → Value
  object : Text → ℕ → Value

abbrev body_inside : Text
body_inside = codes "code: CONTRACT_NOT_FOUND, errorCategory: 11"

abbrev from_body : Text → Option Value
from_body s =
    if text_eq s (123 ∷ (body_inside ++ 125 ∷ []))
    then some (object (codes "CONTRACT_NOT_FOUND") 11)
    else none

abbrev entries_of : Value → Option (List (Text × Value))
entries_of (object code category) =
    some ((codes "code", text code) ∷ (codes "errorCategory", number category) ∷ [])
entries_of _ = none

abbrev text_in : Value → Option Text
text_in (text s) = some s
text_in _ = none

abbrev number_in : Value → Option ℕ
number_in (number n) = some n
number_in _ = none

abbrev json : Json
json = record {
  Value = Value;
  from_str = from_body;
  as_object = entries_of;
  as_array = λ v. none;
  as_str = text_in;
  as_bool = λ v. none;
  as_u64 = number_in;
  as_i64 = λ v. none;
  is_null = λ v. false;
  to_string = λ v. [];
}

abbrev patterns : Patterns
patterns = record { grpc = λ s. none; bare = λ s. []; returned = λ s. some (codes "404") }

abbrev no_catalog : Text → Option CatalogEntry
no_catalog code = none

abbrev cause_patterns : CausePatterns
cause_patterns = record {
  precondition_template = λ s. none;
  template = λ s. none;
  contract_id = λ s. [];
  party = λ s. [];
  authorizers = λ s. some (codes "a, b", codes "b");
  missing_auth = λ s. none;
  exception = λ s. none;
  message_field = λ s. none;
  error_id = λ s. none;
  choice = λ s. none;
  sync_id = λ s. [];
}

abbrev rejected : LedgerError
rejected = record default_error { code = codes "CONTRACT_NOT_FOUND"; error_category = some 11 }

body-IsRead : from_json json (object (codes "CONTRACT_NOT_FOUND") 11) ≡ some rejected
unfolding from_json Ledger.category_at Ledger.definite_at Ledger.context_of Ledger.resources_of
    text_eq Space.trim Space.trim_start Space.trim_end Space.is_blank collect_into
body-IsRead = refl

abbrev before : Text
before = codes "service returned 404: "

abbrev after : Text
after = codes " (end)"

abbrev wrapped : Text
wrapped = before ++ 123 ∷ (body_inside ++ 125 ∷ after)

before-IsNot : All (IsNot 123) before
before-IsNot = ground arith

after-IsNot : All (IsNot 125) after
after-IsNot = ground arith

diagnose-from_text_example :
    diagnose cause_patterns no_catalog (from_text no_catalog patterns json wrapped)
    ≡ record (diagnose cause_patterns no_catalog rejected) {
      error = record rejected {
        http_status = extract_wrapped_status patterns wrapped;
        raw = wrapped;
      };
    }
unfolding text_eq
diagnose-from_text_example =
    diagnose-from_text no_catalog patterns json cause_patterns before body_inside after refl
      body-IsRead before-IsNot after-IsNot

-- A sentence in which a character of two bytes stands across byte 240.
abbrev long_cause : Text
long_cause = replicate 239 65 ++ 195 ∷ 164 ∷ codes "tsel"

long_cause_panics : first_sentence long_cause ≡ none
unfolding first_sentence Words.cut_at Words.cut_of Words.sentence_end Words.find_stop
    Words.is_char_boundary Space.trim Space.trim_start Space.trim_end Space.is_blank strip_prefix
long_cause_panics = refl

first_sentence-none_example : (first_sentence long_cause ≡ none) ↔ (
    (240 < sentence_end (Space.trim long_cause))
    × (is_continuation (get_elem? (Space.trim long_cause) 240) ≡ true))
first_sentence-none_example = first_sentence-none long_cause

abbrev underauthorized : LedgerError
underauthorized = record default_error {
  code = codes "DAML_AUTHORIZATION_ERROR";
  cause = codes "requires authorizers a, b, but only b were given";
}

one_missing : (extract cause_patterns underauthorized).missing_authorizers ≡ codes "a" ∷ []
unfolding extract Extract.authorizers_of Extract.split_parties Extract.split_words text_eq
    Extract.trim_start_matches Extract.trim_end_matches
one_missing = refl

extract-authorizers_example :
    (let x = extract cause_patterns underauthorized in
      (one_of x.missing_authorizers (codes "a") ≡ (
        one_of x.required_authorizers (codes "a") && not (one_of x.given_authorizers (codes "a"))))
      × (one_of x.parties (codes "a") ≡ (
          one_of (cause_patterns.party underauthorized.cause) (codes "a")
          || (one_of x.required_authorizers (codes "a")
              || one_of x.given_authorizers (codes "a")))))
extract-authorizers_example = extract-authorizers cause_patterns underauthorized (codes "a")

abbrev overloaded : LedgerError
overloaded = record {
  http_status = some 503;
  code = codes "PARTICIPANT_BACKPRESSURE";
  cause = codes "try again later";
  error_category = none;
  grpc_code = some (pos 10);
  definite_answer = some false;
  correlation_id = none;
  trace_id = none;
  context = [];
  resources = [];
  raw = [];
}

overloaded_retryable : (diagnose cause_patterns no_catalog overloaded).retryable ≡ true
unfolding text_eq cmp strip_prefix Diagnose.phase_by_shape Diagnose.phase_of_upper
    Diagnose.phase_for Diagnose.retryable_by_code Diagnose.category_is_retryable Answer.diagnose
overloaded_retryable = refl

diagnose-retryable_example :
    (is_transient (diagnose cause_patterns no_catalog overloaded).phase ≡ true)
    × (is_definite (some false) ≡ false)
diagnose-retryable_example =
    diagnose-retryable cause_patterns no_catalog overloaded refl overloaded_retryable
