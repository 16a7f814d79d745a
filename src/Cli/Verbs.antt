-- ===== src/Cli/Verbs.antt =====
-- rust/solvency-cli/src/{coverage,assurance,provenance,pack,anchors}.rs: the other verbs on the
-- documents that they load, and rust/solvency-cli/src/main.rs: a command's exit code.
pub mod Outcome
pub mod Delivery
pub use Outcome.{
  CoverageRun, coverage_run, is_none, is_some_and, role_of, pack_file, PackSummary,
  index_failure_of, ChainSummary, chain_failure_of, AssuranceOutcome, assurance_outcome,
  ProvenanceOutcome,
}
unfoldable pub use Outcome.{coverage_ok, roles_of, delivered, pack_passed, newest, chain_summary}
use canton_assurance_layer.Prelude.{
  ℕ, Bool, true, false, not, ◌&&◌, List, [], ◌∷◌, Option, none, some, Text, Bytes, codes, text_eq,
  is_empty, length, BTreeMap, insert, if◌then◌else◌, Result, ok, err, ok_or, ensure, collect, ◌>>=◌,
  ◌>>◌,
}
use canton_assurance_layer.Primitives.{Primitives}
use canton_assurance_layer.Report.Verify.Failure.{VerificationFailure, AssuranceLevel}
use canton_assurance_layer.Report.Coverage.{
  CoverageStatement, CoverageOutcome, fully_covered, verify_coverage,
}
use canton_assurance_layer.Report.Anchor.{Anchor, ChainFailure}
use canton_assurance_layer.Report.Anchor as History
use canton_assurance_layer.Report.Provenance.{
  SignedProvenance, verify_provenance, check_against_assurance,
}
use canton_assurance_layer.Report.Assurance.{
  AttestorRole, SignedAttestation, AssuranceStatement, Evidence, TrustedKeys, establish,
  verify_assurance,
}
use canton_assurance_layer.Report.Pack.{SignedPack, PackFailure}
use canton_assurance_layer.Report.Pack as Pack
use canton_assurance_layer.Cli.Args.{
  Command, directory, verify, verify_group, verify_chain, recompute, verify_pack, anchors, coverage,
  assurance, provenance, manifest_diff, digest, help, version, parse,
}
use canton_assurance_layer.Cli.Run.{
  Host, RunError, parsing, no_documents, reading_directory, Summary, all_passed, exit_code,
  failure_of, json_paths, load, run_digest, run_verify, run_verify_group, run_verify_chain,
}
use canton_assurance_layer.Cli.Recompute.{DumpEntry, matches, manifest_changes, has_reductions}
use canton_assurance_layer.Cli.Recompute as Dump

-- The further documents of these verbs, and a directory's files with their bytes.
pub record Library : Type 0 where
  pub host : Host
  pub is_dir : Text → Bool
  pub join : Text → Text → Text
  -- the plain files of a directory whose names are text, with their bytes
  pub members : Text → Option (List (Text × Bytes))
  pub as_coverage : Text → Option CoverageStatement
  pub as_assurance : Text → Option AssuranceStatement
  pub as_attestations : Text → Option (List SignedAttestation)
  pub as_provenance : Text → Option SignedProvenance
  pub as_anchors : Text → Option (List Anchor)
  pub as_dump : Text → Option (List DumpEntry)

-- A run that happened exits with 0 or 1, by what it found; any other with 2.
abbrev pub code_of {ℓ} : {A : Type ℓ} → (A → Bool) → Result RunError A → ℕ
code_of passed (ok outcome) = if passed outcome then 0 else 1
code_of passed (err e) = 2

module _ (library : Library) where
  open library use {host}

  abbrev pub load_optional {ℓ} :
      {A : Type ℓ} → (Text → Option A) → Option Text → Result RunError (Option A)
  load_optional decode none = ok none
  load_optional decode (some path) = load host decode path >>= (λ a. ok (some a))

  abbrev pub load_attestations : Option Text → Result RunError (List SignedAttestation)
  load_attestations none = ok []
  load_attestations (some path) = load host library.as_attestations path

  unfoldable pub load_chain : Text → Result RunError (List Anchor)
  load_chain path =
      if library.is_dir path
      then (do
        names ← ok_or (host.entries path) (reading_directory path)
        ensure (not (is_empty (json_paths names))) (no_documents path)
        collect (load host host.as_anchor) (json_paths names))
      else load host library.as_anchors path

  module _ (p : Primitives) where
    unfoldable pub run_anchors : Text → Result RunError ChainSummary
    run_anchors path = do
      chain ← load_chain path
      chain_summary path (History.verify_chain p chain) chain

    unfoldable pub run_coverage : Text → Text → Text → Text → Text → ℕ → Result RunError CoverageRun
    run_coverage custody liabilities statement key custody_key max_skew = do
      custody_report ← load host host.as_report custody
      liabilities_report ← load host host.as_report liabilities
      statement_doc ← load host library.as_coverage statement
      ok (
          coverage_run (
            verify_coverage p custody_report liabilities_report statement_doc custody_key key
              max_skew))

    unfoldable pub run_assurance :
        Text
        → Text
        → Option Text
        → Option Text
        → Option Text
        → Option Text
        → BTreeMap Text
        → Text
        → Result RunError AssuranceOutcome
    run_assurance report statement proof anchor attestations graph attestors key = do
      signed ← load host host.as_report report
      declared ← load host library.as_assurance statement
      proof_doc ← load_optional host.as_proof proof
      anchor_doc ← load_optional host.as_anchor anchor
      attested ← load_attestations attestations
      signed_graph ← load_optional library.as_provenance graph
      let trusted : TrustedKeys = record { publisher = key; attestors = roles_of attestors }
      let evidence : Evidence = record {
        proof = proof_doc;
        anchor = anchor_doc;
        attestations = attested;
        provenance = elim signed_graph [ none ↦ none | some g ↦ some g.provenance ];
      }
      ok (
          assurance_outcome (establish p signed evidence trusted)
            (verify_assurance p signed declared evidence trusted))

    abbrev pub against_levels :
        SignedProvenance → Option AssuranceStatement → Result VerificationFailure (Unit {0})
    against_levels graph none = ok tt
    against_levels graph (some statement) =
        check_against_assurance graph.provenance statement.levels

    unfoldable pub run_provenance :
        Text → Text → Option Text → Text → Result RunError ProvenanceOutcome
    run_provenance report graph statement key = do
      signed ← load host host.as_report report
      signed_graph ← load host library.as_provenance graph
      declared ← load_optional library.as_assurance statement
      ok (record {
        graph = signed_graph;
        checked_against_levels = not (is_none declared);
        failure =
            failure_of
              (verify_provenance p signed signed_graph key >> against_levels signed_graph declared);
      })

    -- The contents are verified once the delivery is known to be whole.
    abbrev pub contents_of :
        Text → Text → Result PackFailure (Unit {0}) → Result RunError (Option Summary)
    contents_of dir key (err failure) = ok none
    contents_of dir key (ok done) =
        run_verify host p (library.join dir (codes "report.json")) (directory dir) key
        >>= (λ summary. ok (some summary))

    unfoldable pub run_pack : Text → Text → Result RunError PackSummary
    run_pack dir key = do
      signed ← load host host.as_pack (library.join dir pack_file)
      files ← ok_or (library.members dir) (reading_directory dir)
      let index = Pack.verify_pack p signed key (delivered files [])
      contents ← contents_of dir key index
      ok (record {
        publisher = signed.pack.publisher;
        snapshot_time = signed.pack.snapshot_time;
        report_digest = signed.pack.report_digest;
        members = length signed.pack.entries;
        index_failure = index_failure_of index;
        contents = contents;
      })

    unfoldable pub recompute_code : Text → Text → ℕ
    recompute_code leaves report =
        code_of (λ passed. passed)
          (do
            signed ← load host host.as_report report
            dump ← load host library.as_dump leaves
            elim (Dump.recompute p dump signed) [
              | ok outcome ↦ ok (matches outcome)
              | err e ↦ err (parsing leaves)
            ])

    unfoldable pub diff_code : Text → Text → ℕ
    diff_code previous current =
        code_of (λ reduced. not reduced)
          (do
            before ← load host host.as_report previous
            after ← load host host.as_report current
            ok (has_reductions (manifest_changes before after)))

    -- `main`, from a parsed command to the code that the process exits with.
    unfoldable pub exit_of : Command → ℕ
    exit_of help = 0
    exit_of version = 0
    exit_of (digest report) = exit_code (run_digest host p report)
    exit_of (verify report proofs key json) = exit_code (run_verify host p report proofs key)
    exit_of (verify_group report memberships key json) =
        exit_code (run_verify_group host p report memberships key)
    exit_of (verify_chain group membership report proof key group_key json) =
        exit_code (run_verify_chain host p group membership report proof key group_key)
    exit_of (recompute leaves report json) = recompute_code leaves report
    exit_of (verify_pack dir key json) = code_of pack_passed (run_pack dir key)
    exit_of (anchors chain json) = code_of (λ run. is_none run.failure) (run_anchors chain)
    exit_of (coverage custody liabilities statement key custody_key skew json) =
        code_of coverage_ok (run_coverage custody liabilities statement key custody_key skew)
    exit_of (assurance report statement proof anchor attestations graph attestors key json) =
        code_of (λ run. is_none run.failure)
          (run_assurance report statement proof anchor attestations graph attestors key)
    exit_of (provenance report graph statement key json) =
        code_of (λ run. is_none run.failure) (run_provenance report graph statement key)
    exit_of (manifest_diff previous current json) = diff_code previous current

    unfoldable pub main : List Text → ℕ
    main argv = elim (parse argv) [ ok command ↦ exit_of command | err e ↦ 2 ]
