-- ===== src/Cli/Run.antt =====
-- rust/solvency-cli/src/run.rs and rust/solvency-cli/src/lib.rs: loading documents, verifying them,
-- and the exit code of a run. The file system and the decoding of JSON are parameters.
pub mod Clean
pub mod Sweep
use canton_assurance_layer.Prelude.{
  ℕ, ◌≡◌, Bool, true, false, not, ◌&&◌, ◌||◌, List, [], ◌∷◌, ◌++◌, Option, none, some, Text, codes,
  text_eq, text_le, all, is_empty, map, if◌then◌else◌, Result, ok, err, ok_or, ensure, ◌>>=◌, ◌>>◌,
}
use canton_assurance_layer.Primitives.{Primitives}
use canton_assurance_layer.Report.Document.{
  SignedReport, ProofDocument, ProofDocumentV2, proof_format_version_v2,
}
use canton_assurance_layer.Report.Digest.{report_digest_hex}
use canton_assurance_layer.Report.Profile.{ProfileRules}
use canton_assurance_layer.Report.Profile.Registry.{lookup}
use canton_assurance_layer.Report.Verify.Failure.{VerificationFailure}
use canton_assurance_layer.Report.Verify.Fold as Verify
use canton_assurance_layer.Report.Group.{GroupMembershipDocument, verify_membership}
use canton_assurance_layer.Report.Group as Group
use canton_assurance_layer.Report.Anchor.{Anchor}
use canton_assurance_layer.Report.Pack.{SignedPack}
use canton_assurance_layer.Cli.Args.{ProofSource, one_file, directory}

-- `std::fs` and `serde_json`: a file's text, the paths in a directory, and a text as a document.
pub record Host : Type 0 where
  pub read : Text → Option Text
  pub entries : Text → Option (List Text)
  pub as_report : Text → Option SignedReport
  pub format_version : Text → Option Text
  pub as_proof : Text → Option ProofDocument
  pub as_proof_v2 : Text → Option ProofDocumentV2
  pub as_membership : Text → Option GroupMembershipDocument
  pub as_anchor : Text → Option Anchor
  pub as_pack : Text → Option SignedPack

pub data RunError : Type 0 where
  reading parsing reading_directory no_documents : Text → RunError

pub record ProofOutcome : Type 0 where
  pub path : Text
  pub subject : Text
  pub failure : Option VerificationFailure

-- The statement is printed from the rules of the profile.
pub record Summary : Type 0 where
  pub report_digest : Text
  pub statement : Option ProfileRules
  pub outcomes : List ProofOutcome

abbrev pub passes : ProofOutcome → Bool
passes outcome = elim outcome.failure [ none ↦ true | some failure ↦ false ]

unfoldable pub all_passed : Summary → Bool
all_passed summary = all passes summary.outcomes

-- `exit_code`: 0 everything verified, 1 a verification failed, 2 usage or I/O.
unfoldable pub exit_code : Result RunError Summary → ℕ
exit_code (ok summary) = if all_passed summary then 0 else 1
exit_code (err e) = 2

pub data AnyProof : Type 0 where
  v1 : ProofDocument → AnyProof
  v2 : ProofDocumentV2 → AnyProof

abbrev pub subject : AnyProof → Text
subject (v1 proof) = proof.leaf.user_id
subject (v2 proof) = proof.leaf.subject_id

abbrev pub failure_of {ℓ} : {A : Type ℓ} → Result VerificationFailure A → Option VerificationFailure
failure_of (ok a) = none
failure_of (err failure) = some failure

-- `str::ends_with`
unfoldable pub ends_with : Text → Text → Bool
ends_with suffix [] = is_empty suffix
ends_with suffix (c ∷ s) = text_eq (c ∷ s) suffix || ends_with suffix s

-- `p.extension().is_some_and(|e| e == "json")`: a name that is only an extension has none.
unfoldable pub is_json : Text → Bool
is_json path =
    ends_with (codes ".json") path
    && not (text_eq path (codes ".json") || ends_with (codes "/.json") path)

unfoldable pub insert_sorted : Text → List Text → List Text
insert_sorted x [] = x ∷ []
insert_sorted x (y ∷ l) =
    let rest = insert_sorted x l in if text_le x y then x ∷ y ∷ l else y ∷ rest

unfoldable pub json_paths : List Text → List Text
json_paths [] = []
json_paths (path ∷ paths) =
    let rest = json_paths paths in if is_json path then insert_sorted path rest else rest

-- One file of a sweep: what it is, if it is a document of the kind that is swept.
abbrev pub Judged : Type 0
Judged = Option (Text × Option VerificationFailure)

-- One round of a sweep, on the outcomes of the paths behind it.
unfoldable pub judged :
    Bool → Text → Judged → Result RunError (List ProofOutcome) → Result RunError (List ProofOutcome)
judged skips path none rest = if skips then rest else err (parsing path)
judged skips path (some (name, failure)) rest = do
  outcomes ← rest
  ok (record { path = path; subject = name; failure = failure } ∷ outcomes)

module _ (host : Host) where
  unfoldable pub load {ℓ} : {A : Type ℓ} → (Text → Option A) → Text → Result RunError A
  load decode path = do
    text ← ok_or (host.read path) (reading path)
    ok_or (decode text) (parsing path)

  unfoldable pub proof_paths : Text → Result RunError (List Text)
  proof_paths dir = do
    names ← ok_or (host.entries dir) (reading_directory dir)
    ensure (not (is_empty (json_paths names))) (no_documents dir)
    ok (json_paths names)

  abbrev pub paths_of : ProofSource → Result RunError (List Text)
  paths_of (one_file path) = ok (path ∷ [])
  paths_of (directory dir) = proof_paths dir

  abbrev pub is_sweeping : ProofSource → Bool
  is_sweeping (one_file path) = false
  is_sweeping (directory dir) = true

  abbrev pub of_version : Text → Text → Option AnyProof
  of_version text version =
      if text_eq version proof_format_version_v2
      then (elim (host.as_proof_v2 text) [ none ↦ none | some proof ↦ some (v2 proof) ])
      else (elim (host.as_proof text) [ none ↦ none | some proof ↦ some (v1 proof) ])

  unfoldable pub parse_proof : Text → Option AnyProof
  parse_proof text = elim (host.format_version text) [
    | none ↦ none
    | some version ↦ of_version text version
  ]

  abbrev pub is_some {ℓ} : {A : Type ℓ} → Option A → Bool
  is_some none = false
  is_some (some a) = true

  unfoldable pub is_sibling_document : Text → Bool
  is_sibling_document text =
      is_some (host.as_pack text)
      || (is_some (host.as_report text)
          || (is_some (host.as_anchor text) || is_some (host.as_membership text)))

  -- The loop over the paths of `verify` and of `verify-group`, which differ in how a file is judged
  -- and which other documents may stand beside the swept ones.
  unfoldable pub sweep :
      (Text → Judged) → (Text → Bool) → Bool → List Text → Result RunError (List ProofOutcome)
  sweep judge is_sibling sweeping [] = ok []
  sweep judge is_sibling sweeping (path ∷ paths) = do
    text ← ok_or (host.read path) (reading path)
    judged (sweeping && is_sibling text) path (judge text) (sweep judge is_sibling sweeping paths)

  module _ (p : Primitives) where
    unfoldable pub verify_against : SignedReport → Text → AnyProof → Option VerificationFailure
    verify_against signed key (v1 proof) = failure_of (Verify.verify p signed proof key)
    verify_against signed key (v2 proof) = failure_of (Verify.verify_v2 p signed proof key)

    unfoldable pub judge_proof : SignedReport → Text → Text → Judged
    judge_proof signed key text = elim (parse_proof text) [
      | none ↦ none
      | some proof ↦ some (subject proof, verify_against signed key proof)
    ]

    unfoldable pub judge_membership : SignedReport → Text → Text → Judged
    judge_membership signed key text = elim (host.as_membership text) [
      | none ↦ none
      | some membership ↦
          some (membership.entity.entity_id, failure_of (verify_membership p signed membership key))
    ]

    abbrev pub summary_of : SignedReport → List ProofOutcome → Summary
    summary_of signed outcomes = record {
      report_digest = report_digest_hex p signed.report;
      statement = lookup signed.report.profile;
      outcomes = outcomes;
    }

    unfoldable pub run_digest : Text → Result RunError Summary
    run_digest report = do signed ← load host.as_report report; ok (summary_of signed [])

    unfoldable pub run_verify : Text → ProofSource → Text → Result RunError Summary
    run_verify report proofs key = do
      signed ← load host.as_report report
      paths ← paths_of proofs
      outcomes ← sweep (judge_proof signed key) is_sibling_document (is_sweeping proofs) paths
      ok (summary_of signed outcomes)

    unfoldable pub run_verify_group : Text → ProofSource → Text → Result RunError Summary
    run_verify_group report memberships key = do
      signed ← load host.as_report report
      paths ← paths_of memberships
      outcomes ←
          sweep (judge_membership signed key) (λ text. is_some (host.as_report text))
            (is_sweeping memberships) paths
      ok (summary_of signed outcomes)

    unfoldable pub run_verify_chain :
        Text → Text → Text → Text → Text → Text → Result RunError Summary
    run_verify_chain group_report membership report proof key group_key = do
      group_signed ← load host.as_report group_report
      membership_doc ← load host.as_membership membership
      entity_signed ← load host.as_report report
      proof_doc ← load host.as_proof proof
      ok (
          summary_of group_signed (
            record {
              path = proof;
              subject = proof_doc.leaf.user_id ++ (codes " in " ++ membership_doc.entity.entity_id);
              failure = failure_of (
                  Group.verify_chain p group_signed membership_doc entity_signed proof_doc group_key
                    key);
            }
            ∷ []))
