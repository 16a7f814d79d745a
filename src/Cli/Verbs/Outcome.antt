-- ===== src/Cli/Verbs/Outcome.antt =====
-- What the verbs find, in rust/solvency-cli/src/{coverage,assurance,provenance,pack,anchors}.rs.
use canton_assurance_layer.Prelude.{
  ℕ, Bool, true, false, ◌&&◌, List, [], ◌∷◌, Option, none, some, Text, Bytes, codes, text_eq,
  length, BTreeMap, insert, if◌then◌else◌, Result, ok, err,
}
use canton_assurance_layer.Report.Verify.Failure.{VerificationFailure, AssuranceLevel}
use canton_assurance_layer.Report.Coverage.{CoverageOutcome, fully_covered}
use canton_assurance_layer.Report.Anchor.{Anchor, ChainFailure}
use canton_assurance_layer.Report.Provenance.{SignedProvenance}
use canton_assurance_layer.Report.Assurance.{AttestorRole}
use canton_assurance_layer.Report.Pack.{PackFailure}
use canton_assurance_layer.Cli.Run.{RunError, no_documents, Summary, all_passed}

pub record CoverageRun : Type 0 where
  pub outcome : Option CoverageOutcome
  pub failure : Option VerificationFailure

abbrev pub coverage_run : Result VerificationFailure CoverageOutcome → CoverageRun
coverage_run (ok outcome) = record { outcome = some outcome; failure = none }
coverage_run (err failure) = record { outcome = none; failure = some failure }

abbrev pub is_none {ℓ} : {A : Type ℓ} → Option A → Bool
is_none none = true
is_none (some a) = false

abbrev pub is_some_and {ℓ} : {A : Type ℓ} → (A → Bool) → Option A → Bool
is_some_and f none = false
is_some_and f (some a) = f a

-- `CoverageRun::ok`
unfoldable pub coverage_ok : CoverageRun → Bool
coverage_ok run = is_none run.failure && is_some_and fully_covered run.outcome

-- An attestor's role as the command line names it.
abbrev pub role_of : Text → AttestorRole
role_of role =
    if text_eq role (codes "issuer") then AttestorRole.issuer else AttestorRole.third_party

unfoldable pub roles_of : BTreeMap Text → BTreeMap AttestorRole
roles_of [] = []
roles_of ((hex, role) ∷ attestors) = (hex, role_of role) ∷ roles_of attestors

abbrev pub pack_file : Text
pack_file = codes "pack.json"

unfoldable pub delivered : List (Text × Bytes) → BTreeMap Bytes → BTreeMap Bytes
delivered [] members = members
delivered ((name, bytes) ∷ files) members =
    if text_eq name pack_file
    then delivered files members
    else delivered files (insert name bytes members)

pub record PackSummary : Type 0 where
  pub publisher : Text
  pub snapshot_time : Text
  pub report_digest : Text
  pub members : ℕ
  pub index_failure : Option PackFailure
  pub contents : Option Summary

-- `PackSummary::all_passed`
unfoldable pub pack_passed : PackSummary → Bool
pack_passed summary = is_none summary.index_failure && is_some_and all_passed summary.contents

abbrev pub index_failure_of : Result PackFailure (Unit {0}) → Option PackFailure
index_failure_of (ok done) = none
index_failure_of (err failure) = some failure

pub record ChainSummary : Type 0 where
  pub anchors : ℕ
  pub publisher : Text
  pub first : Text
  pub last : Text
  pub failure : Option ChainFailure

-- The last anchor of a history that begins with the given one.
unfoldable pub newest : Anchor → List Anchor → Anchor
newest first [] = first
newest first (anchor ∷ rest) = newest anchor rest

abbrev pub chain_failure_of : Result ChainFailure (Unit {0}) → Option ChainFailure
chain_failure_of (ok done) = none
chain_failure_of (err failure) = some failure

unfoldable pub chain_summary :
    Text → Result ChainFailure (Unit {0}) → List Anchor → Result RunError ChainSummary
chain_summary path verdict [] = err (no_documents path)
chain_summary path verdict (anchor ∷ rest) = ok (record {
  anchors = length (anchor ∷ rest);
  publisher = anchor.publisher;
  first = anchor.snapshot_time;
  last = (newest anchor rest).snapshot_time;
  failure = chain_failure_of verdict;
})

pub record AssuranceOutcome : Type 0 where
  pub accepted : BTreeMap AssuranceLevel
  pub established : BTreeMap (List AssuranceLevel)
  pub failure : Option VerificationFailure

abbrev pub assurance_outcome :
    BTreeMap (List AssuranceLevel)
    → Result VerificationFailure (BTreeMap AssuranceLevel)
    → AssuranceOutcome
assurance_outcome established (ok accepted) = record {
  accepted = accepted;
  established = established;
  failure = none;
}
assurance_outcome established (err failure) = record {
  accepted = [];
  established = established;
  failure = some failure;
}

pub record ProvenanceOutcome : Type 0 where
  pub graph : SignedProvenance
  pub checked_against_levels : Bool
  pub failure : Option VerificationFailure
