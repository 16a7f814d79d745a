-- ===== src/Diagnose.antt =====
-- rust/sim-diagnose/src/classify.rs and rust/sim-diagnose/src/catalog.rs: where a rejected
-- submission failed, and whether trying it again unchanged can succeed. The catalogue of error codes
-- is data outside the code: a parameter.
pub mod Authorizers
pub mod Codes
pub mod Ledger
pub mod Answer
pub mod Retry
pub mod Extract
pub mod Words
pub mod Scan
pub mod Sentence
pub mod Wrapped
pub use Codes.{
  auth_codes, authorization_codes, request_codes, routing_codes, sequencing_codes,
  confirmation_codes, participant_codes, interpretation_codes, retryable_codes,
}
use canton_assurance_layer.Prelude.{
  ℕ, ◌+◌, ◌-◌, Bool, true, false, not, ◌&&◌, ◌||◌, List, [], ◌∷◌, Option, none, some, Text, codes,
  BTreeMap, text_eq, ◌==◌, leb, any, map, is_empty, strip_prefix, if◌then◌else◌,
}
use canton_assurance_layer.Prelude.Space.{trim}
use canton_assurance_layer.Prelude.Int.{ℤ}
use canton_assurance_layer.Cli.Run.{ends_with}

pub data Phase : Type 0 where
  auth request interpretation routing authorization : Phase
  sequencing confirmation participant unknown : Phase

-- `u8::to_ascii_uppercase`
abbrev pub upper : ℕ → ℕ
upper c = if leb 97 c && leb c 122 then c - 32 else c

abbrev pub one_of : List Text → Text → Bool
one_of names s = any (text_eq s) names

abbrev pub is_some {ℓ} : {A : Type ℓ} → Option A → Bool
is_some none = false
is_some (some a) = true

abbrev pub starts_with : Text → Text → Bool
starts_with prefix s = is_some (strip_prefix prefix s)

-- The arms of the `match` behind the listed codes.
unfoldable pub phase_by_shape : Text → Phase
phase_by_shape c =
    if starts_with (codes "SEQUENCER_") c
    then sequencing
    else if starts_with (codes "LOCAL_VERDICT_") c
    then confirmation
    else if starts_with (codes "INDEX_DB_") c
    then participant
    else if starts_with (codes "INTERPRETATION_") c
        || (starts_with (codes "DAML_") c
            || (starts_with (codes "CONTRACT_") c
                || (ends_with (codes "_CONTRACT_KEY") c
                    || (ends_with (codes "_CONTRACT_KEY_MAINTAINERS") c
                        || one_of interpretation_codes c))))
    then interpretation
    else if starts_with (codes "TOPOLOGY_") c
    then routing
    else unknown

unfoldable pub phase_of_upper : Text → Phase
phase_of_upper c =
    if one_of auth_codes c
    then auth
    else if one_of authorization_codes c
    then authorization
    else if one_of request_codes c
    then request
    else if one_of routing_codes c
    then routing
    else if one_of sequencing_codes c
    then sequencing
    else if one_of confirmation_codes c
    then confirmation
    else if one_of participant_codes c
    then participant
    else phase_by_shape c

unfoldable pub phase_for : Text → Phase
phase_for code = phase_of_upper (map upper code)

unfoldable pub retryable_by_code : Text → Bool
retryable_by_code code = one_of retryable_codes code

-- catalog.rs: a category of the participant that says that a retry can help.
unfoldable pub category_is_retryable : ℕ → Bool
category_is_retryable id = leb 1 id && leb id 3

-- A parsed rejection. The seconds to wait, a floating-point number, are left out.
pub record LedgerError : Type 0 where
  pub http_status : Option ℕ
  pub code : Text
  pub cause : Text
  pub error_category : Option ℕ
  pub grpc_code : Option ℤ
  pub definite_answer : Option Bool
  pub correlation_id : Option Text
  pub trace_id : Option Text
  pub context : BTreeMap Text
  pub resources : List (Text × Text)
  pub raw : Text

pub record CatalogEntry : Type 0 where
  pub code : Text
  pub category : Text
  pub explanation : Text
  pub resolution : Text
  pub source : Text

abbrev pub is_definite : Option Bool → Bool
is_definite none = false
is_definite (some answer) = answer

abbrev pub may_retry : Option ℕ → Text → Bool
may_retry none code = retryable_by_code code
may_retry (some category) code = category_is_retryable category

unfoldable pub category_name : ℕ → Text
category_name category =
    if category == 1
    then codes "TransientServerFailure"
    else if category == 2
    then codes "ContentionOnSharedResources"
    else if category == 3
    then codes "DeadlineExceededRequestStateUnknown"
    else if category == 4
    then codes "SystemInternalAssumptionViolated"
    else if category == 5
    then codes "AuthInterceptorInvalidAuthenticationCredentials"
    else if category == 6
    then codes "InsufficientPermission"
    else if category == 7
    then codes "SecurityAlert"
    else if category == 8
    then codes "InvalidIndependentOfSystemState"
    else if category == 9
    then codes "InvalidGivenCurrentSystemStateOther"
    else if category == 10
    then codes "InvalidGivenCurrentSystemStateResourceExists"
    else if category == 11
    then codes "InvalidGivenCurrentSystemStateResourceMissing"
    else if category == 12
    then codes "InvalidGivenCurrentSystemStateSeekAfterEnd"
    else if category == 13
    then codes "BackgroundProcessDegradationWarning"
    else if category == 14
    then codes "InternalUnsupportedOperation"
    else codes "Unknown"

-- catalog.rs: the entry of a code, trimmed and in capitals.
unfoldable pub lookup : (Text → Option CatalogEntry) → Text → Option CatalogEntry
lookup catalog code = catalog (map upper (trim code))
