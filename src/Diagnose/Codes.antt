-- ===== src/Diagnose/Codes.antt =====
-- rust/sim-diagnose/src/classify.rs: the error codes by what `phase_for` and `retryable_by_code` say
-- of them.
use canton_assurance_layer.Prelude.{List, [], ◌∷◌, Text, codes}

abbrev pub auth_codes : List Text
auth_codes =
    codes "PERMISSION_DENIED" ∷ codes "UNAUTHENTICATED" ∷ codes "STALE_STREAM_AUTHORIZATION" ∷ []

abbrev pub authorization_codes : List Text
authorization_codes = codes "DAML_AUTHORIZATION_ERROR" ∷ []

abbrev pub request_codes : List Text
request_codes =
    codes "INVALID_ARGUMENT"
    ∷ codes "INVALID_FIELD"
    ∷ codes "MISSING_FIELD"
    ∷ codes "COMMAND_PREPROCESSING_FAILED"
    ∷ codes "DAML_INTERPRETER_INVALID_ARGUMENT"
    ∷ codes "TEMPLATES_OR_INTERFACES_NOT_FOUND"
    ∷ codes "PACKAGE_NOT_FOUND"
    ∷ codes "PACKAGE_NAMES_NOT_FOUND"
    ∷ codes "NO_TEMPLATES_FOR_PACKAGE_NAME_AND_QUALIFIED_NAME"
    ∷ codes "NO_INTERFACE_FOR_PACKAGE_NAME_AND_QUALIFIED_NAME"
    ∷ codes "INVALID_DEDUPLICATION_PERIOD"
    ∷ codes "DISCLOSED_CONTRACT_KEY_HASHING_ERROR"
    ∷ codes "UNRESOLVED_PACKAGE_NAME"
    ∷ codes "PACKAGE_SELECTION_FAILED"
    ∷ codes "NO_PREFERRED_PACKAGES_FOUND"
    ∷ codes "ALLOWED_LANGUAGE_VERSIONS"
    ∷ codes "VALUE_NESTING"
    ∷ codes "MALFORMED_TEXT"
    ∷ codes "UNSUPPORTED_OPERATION"
    ∷ codes "PACKAGE_VALIDATION_FAILED"
    ∷ codes "USER_NOT_FOUND"
    ∷ codes "PARTY_NOT_FOUND"
    ∷ codes "PARTY_NOT_KNOWN_ON_LEDGER"
    ∷ []

abbrev pub routing_codes : List Text
routing_codes =
    codes "NO_SYNCHRONIZER_FOR_SUBMISSION"
    ∷ codes "NOT_CONNECTED_TO_ANY_SYNCHRONIZER"
    ∷ codes "NOT_CONNECTED_TO_SYNCHRONIZER"
    ∷ codes "UNKNOWN_SUBMITTERS"
    ∷ codes "UNKNOWN_INFORMEES"
    ∷ codes "SUBMITTERS_NOT_ACTIVE"
    ∷ codes "INVALID_PRESCRIBED_SYNCHRONIZER_ID"
    ∷ codes "PRESCRIBED_SYNCHRONIZER_ID_MISMATCH"
    ∷ codes "DISCLOSED_CONTRACTS_SYNCHRONIZER_ID_MISMATCH"
    ∷ codes "UNKNOWN_CONTRACT_SYNCHRONIZER"
    ∷ codes "PACKAGE_NOT_VETTED_BY_RECIPIENTS"
    ∷ codes "PACKAGE_NAME_DISCARDED_DUE_TO_UNVETTED_PACKAGES"
    ∷ codes "NO_VIEW_WITH_VALID_RECIPIENTS"
    ∷ codes "SYNCHRONIZER_WITHOUT_MEDIATOR"
    ∷ codes "CHOSEN_MEDIATOR_IS_INACTIVE"
    ∷ codes "NO_VETTED_INTERFACE_IMPLEMENTATION_PACKAGE"
    ∷ []

abbrev pub sequencing_codes : List Text
sequencing_codes =
    codes "SUBMISSION_ALREADY_IN_FLIGHT"
    ∷ codes "DUPLICATE_COMMAND"
    ∷ codes "REQUEST_ALREADY_IN_FLIGHT"
    ∷ codes "NOT_SEQUENCED_TIMEOUT"
    ∷ codes "OUTDATED_TRAFFIC_COST"
    ∷ codes "SEQUENCER_REQUEST_FAILED"
    ∷ []

abbrev pub confirmation_codes : List Text
confirmation_codes =
    codes "INCONSISTENT"
    ∷ codes "MALFORMED_REQUEST"
    ∷ codes "INVALID_EXTERNAL_SIGNATURE"
    ∷ codes "INVALID_EXTERNAL_TRANSACTION"
    ∷ codes "FAILED_TO_EXECUTE_TRANSACTION"
    ∷ []

abbrev pub participant_codes : List Text
participant_codes =
    codes "PARTICIPANT_BACKPRESSURE"
    ∷ codes "PARTICIPANT_OVERLOADED"
    ∷ codes "SERVICE_NOT_RUNNING"
    ∷ codes "REQUEST_TIME_OUT"
    ∷ codes "REQUEST_DEADLINE_EXCEEDED"
    ∷ codes "SERVER_IS_SHUTTING_DOWN"
    ∷ codes "SUBMISSION_DURING_SHUTDOWN"
    ∷ codes "NODE_IS_PASSIVE_REPLICA"
    ∷ codes "SYNC_SERVICE_PASSIVE_REPLICA"
    ∷ codes "LEDGER_API_INTERNAL_ERROR"
    ∷ codes "SERVICE_INTERNAL_ERROR"
    ∷ codes "THREADPOOL_OVERLOADED"
    ∷ codes "HEAP_MEMORY_OVER_LIMIT"
    ∷ codes "MAXIMUM_NUMBER_OF_STREAMS"
    ∷ codes "FAILED_TO_PREPARE_TRANSACTION"
    ∷ codes "COMMAND_INJECTION_FAILURE"
    ∷ []

abbrev pub interpretation_codes : List Text
interpretation_codes =
    codes "UNHANDLED_EXCEPTION"
    ∷ codes "TEMPLATE_PRECONDITION_VIOLATED"
    ∷ codes "NON_COMPARABLE_VALUES"
    ∷ codes "WRONGLY_TYPED_CONTRACT"
    ∷ codes "FAILED_TO_DETERMINE_LEDGER_TIME"
    ∷ codes "LEDGER_TIME_OUTSIDE_BOUNDS"
    ∷ []

abbrev pub retryable_codes : List Text
retryable_codes =
    codes "PARTICIPANT_BACKPRESSURE"
    ∷ codes "PARTICIPANT_OVERLOADED"
    ∷ codes "SEQUENCER_BACKPRESSURE"
    ∷ codes "SEQUENCER_OVERLOADED"
    ∷ codes "REQUEST_TIME_OUT"
    ∷ codes "NOT_SEQUENCED_TIMEOUT"
    ∷ codes "SUBMISSION_ALREADY_IN_FLIGHT"
    ∷ codes "LOCAL_VERDICT_LOCKED_CONTRACTS"
    ∷ codes "LOCAL_VERDICT_TIMEOUT"
    ∷ codes "OUTDATED_TRAFFIC_COST"
    ∷ codes "SERVICE_NOT_RUNNING"
    ∷ codes "THREADPOOL_OVERLOADED"
    ∷ []
