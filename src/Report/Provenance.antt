-- ===== src/Report/Provenance.antt =====
-- rust/solvency-report/src/provenance.rs: where each figure came from, as a signed graph.
use canton_assurance_layer.Prelude.{
  Bool, true, false, not, ◌||◌, List, [], ◌∷◌, ◌++◌, Option, none, some, Bytes, Text, codes,
  text_eq, length, any, is_empty, u64le, BTreeMap, if◌then◌else◌, Result, ok, err, ensure, for_each,
  map_err, ◌>>◌,
}
use canton_assurance_layer.Prelude.Space.{is_blank}
use canton_assurance_layer.Primitives.{Primitives}
use canton_assurance_layer.Merkle.Encoding.{lp}
use canton_assurance_layer.Report.Document.{SignedReport, SignatureBlock, signature_algorithm}
use canton_assurance_layer.Report.Manifest.{report_resident_fields, contains}
use canton_assurance_layer.Report.Digest.{report_digest_hex}
use canton_assurance_layer.Report.Sign.{verify_signature}
use canton_assurance_layer.Report.Verify.Failure.{
  VerificationFailure, unsupported_version, digest_mismatch, unknown_signer, bad_signature,
  provenance_inconsistent, ProvenanceDetail, shared_id, no_basis, declared_twice, no_sources,
  undeclared_source, no_derivation, all_off_ledger, AssuranceLevel, ledger_derived,
}

abbrev pub provenance_format_version : Text
provenance_format_version = codes "canton-solvency-provenance-v1"

abbrev pub provenance_digest_domain : Bytes
provenance_digest_domain = codes "rocky-solvency-provenance-v1"

pub data SourceKind : Type 0 where
  participant synchronizer party template off_ledger : SourceKind

unfoldable pub on_ledger : SourceKind → Bool
on_ledger off_ledger = false
on_ledger _ = true

abbrev pub kind_str : SourceKind → Text
kind_str participant = codes "participant"
kind_str synchronizer = codes "synchronizer"
kind_str party = codes "party"
kind_str template = codes "template"
kind_str off_ledger = codes "off-ledger"

pub record Source : Type 0 where
  pub id : Text
  pub kind : SourceKind
  pub name : Text
  pub basis : Option Text

pub record Derivation : Type 0 where
  pub field : Text
  pub sources : List Text
  pub method : Text

pub record Provenance : Type 0 where
  pub format_version : Text
  pub report_digest : Text
  pub sources : List Source
  pub derivations : List Derivation

pub record SignedProvenance : Type 0 where
  pub provenance : Provenance
  pub signature : SignatureBlock

-- A presence byte, and the basis behind it.
unfoldable pub basis_bytes : Option Text → Bytes
basis_bytes none = 0 ∷ []
basis_bytes (some basis) = 1 ∷ lp basis

unfoldable pub source_bytes : Source → Bytes
source_bytes s = lp s.id ++ (lp (kind_str s.kind) ++ (lp s.name ++ basis_bytes s.basis))

unfoldable pub texts_bytes : List Text → Bytes
texts_bytes [] = []
texts_bytes (id ∷ ids) = lp id ++ texts_bytes ids

unfoldable pub derivation_bytes : Derivation → Bytes
derivation_bytes d =
    lp d.field ++ (u64le (length d.sources) ++ (texts_bytes d.sources ++ lp d.method))

unfoldable pub sources_bytes : List Source → Bytes
sources_bytes [] = []
sources_bytes (s ∷ l) = source_bytes s ++ sources_bytes l

unfoldable pub derivations_bytes : List Derivation → Bytes
derivations_bytes [] = []
derivations_bytes (d ∷ l) = derivation_bytes d ++ derivations_bytes l

unfoldable pub provenance_bytes : Provenance → Bytes
provenance_bytes g =
    lp g.format_version
    ++ (lp g.report_digest
        ++ (u64le (length g.sources)
            ++ (sources_bytes g.sources
                ++ (u64le (length g.derivations) ++ derivations_bytes g.derivations))))

-- `source.basis.is_some_and(|b| !b.trim().is_empty())`
abbrev pub has_basis : Option Text → Bool
has_basis none = false
has_basis (some basis) = not (is_blank basis)

-- The loop over the sources, `ids` read so far.
unfoldable pub check_sources : List Text → List Source → Result VerificationFailure (Unit {0})
check_sources ids [] = ok tt
check_sources ids (source ∷ sources) = do
  ensure (not (contains ids source.id)) (provenance_inconsistent [] (shared_id source.id))
  ensure (on_ledger source.kind || has_basis source.basis)
      (provenance_inconsistent [] (no_basis source.id))
  check_sources (source.id ∷ ids) sources

abbrev pub has_source : List Source → Text → Bool
has_source sources id = any (λ (s : Source). text_eq s.id id) sources

abbrev pub check_named : List Source → Text → Text → Result VerificationFailure (Unit {0})
check_named sources field id =
    ensure (has_source sources id) (provenance_inconsistent field (undeclared_source id))

-- The loop over the derivations, `seen` the fields read so far.
unfoldable pub check_derivations :
    List Source → List Text → List Derivation → Result VerificationFailure (Unit {0})
check_derivations sources seen [] = ok tt
check_derivations sources seen (d ∷ derivations) = do
  ensure (contains report_resident_fields d.field)
      (provenance_inconsistent d.field ProvenanceDetail.undefined_field)
  ensure (not (contains seen d.field)) (provenance_inconsistent d.field declared_twice)
  ensure (not (is_empty d.sources)) (provenance_inconsistent d.field no_sources)
  for_each (check_named sources d.field) d.sources
  check_derivations sources (d.field ∷ seen) derivations

-- `p.derivations.iter().find(|d| d.field == field)`
unfoldable pub find_derivation : Text → List Derivation → Option Derivation
find_derivation field [] = none
find_derivation field (d ∷ l) = if text_eq d.field field then some d else find_derivation field l

-- `by_id.get(id)`: the map is collected from the sources in order, so the last of one id stays.
unfoldable pub last_of : Text → List Source → Option Source
last_of id [] = none
last_of id (s ∷ l) =
    let rest = last_of id l in
    elim rest [ some later ↦ some later | none ↦ if text_eq s.id id then some s else none ]

abbrev pub is_on_ledger : Option Source → Bool
is_on_ledger none = false
is_on_ledger (some s) = on_ledger s.kind

abbrev pub is_ledger_derived : AssuranceLevel → Bool
is_ledger_derived ledger_derived = true
is_ledger_derived _ = false

-- The body of the loop on a field that is declared ledger-derived.
unfoldable pub check_grounded :
    Provenance → Text → Option Derivation → Result VerificationFailure (Unit {0})
check_grounded g field none = err (provenance_inconsistent field no_derivation)
check_grounded g field (some d) =
    ensure (any (λ id. is_on_ledger (last_of id g.sources)) d.sources)
      (provenance_inconsistent field all_off_ledger)

unfoldable pub check_level :
    Provenance → Text × AssuranceLevel → Result VerificationFailure (Unit {0})
check_level g (field, level) =
    if is_ledger_derived level
    then check_grounded g field (find_derivation field g.derivations)
    else ok tt

unfoldable pub check_against_assurance :
    Provenance → BTreeMap AssuranceLevel → Result VerificationFailure (Unit {0})
check_against_assurance g levels = for_each (check_level g) levels

module _ (p : Primitives) where
  unfoldable pub provenance_digest : Provenance → Bytes
  provenance_digest g = p.sha256 (provenance_digest_domain ++ provenance_bytes g)

  unfoldable pub verify_provenance :
      SignedReport → SignedProvenance → Text → Result VerificationFailure (Unit {0})
  verify_provenance signed_report signed trusted_public_key_hex = do
    let g = signed.provenance
    ensure (text_eq g.format_version provenance_format_version)
        (unsupported_version (codes "provenance.format_version") g.format_version)
    ensure (text_eq g.report_digest (report_digest_hex p signed_report.report)) digest_mismatch
    ensure (text_eq signed.signature.public_key trusted_public_key_hex) unknown_signer
    ensure (text_eq signed.signature.algorithm signature_algorithm)
        (unsupported_version (codes "signature.algorithm") signed.signature.algorithm)
    map_err (λ e. bad_signature)
        (verify_signature p trusted_public_key_hex (provenance_digest g) signed.signature.value)
    check_sources [] g.sources
    check_derivations g.sources [] g.derivations
