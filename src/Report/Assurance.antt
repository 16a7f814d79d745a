-- ===== src/Report/Assurance.antt =====
-- rust/solvency-report/src/assurance.rs: what each figure of a report rests on, and the check of a
-- publisher's declarations against the evidence.
pub mod Sets
pub mod Levels
pub mod Supports
pub mod Supported
pub mod Grounded
use canton_assurance_layer.Prelude.{
  ℕ, Bool, true, false, not, ◌&&◌, List, [], ◌∷◌, ◌++◌, Option, none, some, Bytes, Text, codes,
  text_eq, any, ltb, ◌==◌, BTreeMap, get, insert, keys, is_ok, if◌then◌else◌, Result, ok, err,
  ensure, for_each, map_err, ◌>>=◌, ◌>>◌,
}
use canton_assurance_layer.Primitives.{Primitives}
use canton_assurance_layer.Merkle.Encoding.{lp}
use canton_assurance_layer.Report.Document.{
  Disclosure, Manifest, Report, SignedReport, SignatureBlock, ProofDocument, signature_algorithm,
}
use canton_assurance_layer.Report.Manifest.{
  report_resident_fields, contains, carries_data, disclosure_eq,
}
use canton_assurance_layer.Report.Digest.{report_digest, report_digest_hex}
use canton_assurance_layer.Report.Sign.{verify_signature}
use canton_assurance_layer.Report.Anchor.{Anchor, anchor_format_version}
use canton_assurance_layer.Report.Provenance.{
  Source, Derivation, Provenance, on_ledger, find_derivation,
}
use canton_assurance_layer.Report.Verify.Failure.{
  VerificationFailure, unsupported_version, digest_mismatch, unknown_signer, bad_signature,
  over_claimed, malformed, unsubstantiated_field, AssuranceLevel, not_disclosed, claimed_only,
  issuer_attested, third_party_attested, ledger_derived, cryptographically_verified,
}
use canton_assurance_layer.Report.Verify.Fold.{verify}

abbrev pub assurance_format_version : Text
assurance_format_version = codes "canton-solvency-assurance-v1"

abbrev pub attestation_format_version : Text
attestation_format_version = codes "canton-solvency-attestation-v1"

abbrev pub attestation_digest_domain : Bytes
attestation_digest_domain = codes "rocky-solvency-attestation-v1"

abbrev pub strength : AssuranceLevel → ℕ
strength not_disclosed = 0
strength claimed_only = 1
strength issuer_attested = 2
strength third_party_attested = 3
strength ledger_derived = 4
strength cryptographically_verified = 5

-- The derived `==`, whose variants have different strengths.
abbrev pub level_eq : AssuranceLevel → AssuranceLevel → Bool
level_eq a b = strength a == strength b

-- A `BTreeSet` of levels: its elements in the derived order, that of the declaration.
unfoldable pub insert_level : AssuranceLevel → List AssuranceLevel → List AssuranceLevel
insert_level a [] = a ∷ []
insert_level a (b ∷ l) =
    let rest = insert_level a l in
    if ltb (strength a) (strength b) then a ∷ b ∷ l else if level_eq a b then b ∷ l else b ∷ rest

unfoldable pub contains_level : AssuranceLevel → List AssuranceLevel → Bool
contains_level a l = any (level_eq a) l

pub data AttestorRole : Type 0 where
  issuer third_party : AttestorRole

abbrev pub role_str : AttestorRole → Text
role_str issuer = codes "issuer"
role_str third_party = codes "third-party"

abbrev pub role_eq : AttestorRole → AttestorRole → Bool
role_eq issuer issuer = true
role_eq third_party third_party = true
role_eq _ _ = false

abbrev pub level_of : AttestorRole → AssuranceLevel
level_of issuer = issuer_attested
level_of third_party = third_party_attested

pub record Attestation : Type 0 where
  pub format_version : Text
  pub report_digest : Text
  pub field : Text
  pub role : AttestorRole
  pub attestor : Text
  pub basis : Text

pub record SignedAttestation : Type 0 where
  pub attestation : Attestation
  pub signature : SignatureBlock

pub record AssuranceStatement : Type 0 where
  pub format_version : Text
  pub report_digest : Text
  pub levels : BTreeMap AssuranceLevel

pub record Evidence : Type 0 where
  pub proof : Option ProofDocument
  pub anchor : Option Anchor
  pub attestations : List SignedAttestation
  pub provenance : Option Provenance

pub record TrustedKeys : Type 0 where
  pub publisher : Text
  pub attestors : BTreeMap AttestorRole

abbrev pub is_withheld : Option Disclosure → Bool
is_withheld none = false
is_withheld (some state) = disclosure_eq state Disclosure.withheld

abbrev pub declared_withheld : Option Manifest → Text → Bool
declared_withheld none field = false
declared_withheld (some m) field = is_withheld (get field m.fields)

unfoldable pub withheld : Report → Text → Bool
withheld report field = declared_withheld report.manifest field && not (carries_data report field)

unfoldable pub anchors : Report → Anchor → Text → Bool
anchors report anchor digest =
    text_eq anchor.format_version anchor_format_version
    && (text_eq anchor.report_digest digest
        && (text_eq anchor.root_hash report.root_hash
            && (text_eq anchor.snapshot_time report.snapshot_time
                && (text_eq anchor.ledger_offset report.ledger_offset
                    && text_eq anchor.publisher report.publisher))))

abbrev pub is_grounded : List Source → Option Derivation → Bool
is_grounded sources none = false
is_grounded sources (some d) =
    any (λ id. any (λ (s : Source). text_eq s.id id && on_ledger s.kind) sources) d.sources

unfoldable pub derives_from_ledger : Provenance → Text → Bool
derives_from_ledger g field = is_grounded g.sources (find_derivation field g.derivations)

-- `is_some_and`
abbrev pub is_some_and {ℓ} : {A : Type ℓ} → Option A → (A → Bool) → Bool
is_some_and none test = false
is_some_and (some a) test = test a

-- A `BTreeSet` into which `a` goes where `test` holds.
abbrev pub insert_if : Bool → AssuranceLevel → List AssuranceLevel → List AssuranceLevel
insert_if true a l = insert_level a l
insert_if false a l = l

module _ (p : Primitives) where
  unfoldable pub attestation_digest : Attestation → Bytes
  attestation_digest a = p.sha256 (
      attestation_digest_domain
      ++ (lp a.format_version
          ++ (lp a.report_digest
              ++ (lp a.field ++ (lp (role_str a.role) ++ (lp a.attestor ++ lp a.basis))))))

  -- The four `if`s of the loop over the attestations.
  unfoldable pub attests : TrustedKeys → Text → Text → SignedAttestation → Bool
  attests trusted digest field signed =
      text_eq signed.attestation.format_version attestation_format_version
      && (text_eq signed.attestation.field field
          && (text_eq signed.attestation.report_digest digest
              && (is_some_and (get signed.signature.public_key trusted.attestors)
                    (λ role. role_eq role signed.attestation.role)
                  && (text_eq signed.signature.algorithm signature_algorithm
                      && is_ok (
                          verify_signature p signed.signature.public_key
                            (attestation_digest signed.attestation) signed.signature.value)))))

  -- The loop over the attestations.
  unfoldable pub attested :
      TrustedKeys → Text → Text → List SignedAttestation → List AssuranceLevel → List AssuranceLevel
  attested trusted digest field [] levels = levels
  attested trusted digest field (signed ∷ l) levels =
      attested trusted digest field l
        (insert_if (attests trusted digest field signed) (level_of signed.attestation.role) levels)

  unfoldable pub recomputed : SignedReport → Evidence → TrustedKeys → Text → Bool
  recomputed signed evidence trusted field =
      text_eq field (codes "root_sums")
      && is_some_and evidence.proof (λ proof. is_ok (verify p signed proof trusted.publisher))

  unfoldable pub pinned : SignedReport → Evidence → Text → Bool
  pinned signed evidence field =
      is_some_and evidence.anchor
        (λ anchor. anchors signed.report anchor (report_digest_hex p signed.report))
      && is_some_and evidence.provenance (λ g. derives_from_ledger g field)

  -- The levels that the evidence supports for one field.
  unfoldable pub field_levels : SignedReport → Evidence → TrustedKeys → Text → List AssuranceLevel
  field_levels signed evidence trusted field =
      if withheld signed.report field
      then insert_level not_disclosed []
      else attested trusted (report_digest_hex p signed.report) field evidence.attestations (
          insert_if (pinned signed evidence field) ledger_derived (
            insert_if (recomputed signed evidence trusted field) cryptographically_verified
              (insert_level claimed_only [])))

  -- The loop over the fields.
  unfoldable pub establish_from :
      SignedReport
      → Evidence
      → TrustedKeys
      → List Text
      → BTreeMap (List AssuranceLevel)
      → BTreeMap (List AssuranceLevel)
  establish_from signed evidence trusted [] out = out
  establish_from signed evidence trusted (field ∷ fields) out =
      establish_from signed evidence trusted fields
        (insert field (field_levels signed evidence trusted field) out)

  unfoldable pub establish : SignedReport → Evidence → TrustedKeys → BTreeMap (List AssuranceLevel)
  establish signed evidence trusted =
      establish_from signed evidence trusted report_resident_fields []

  -- `unwrap_or_default`
  abbrev pub levels_of : Option (List AssuranceLevel) → List AssuranceLevel
  levels_of none = []
  levels_of (some levels) = levels

  abbrev pub check_field : Text → Result VerificationFailure (Unit {0})
  check_field field =
      ensure (contains report_resident_fields field) (malformed (unsubstantiated_field field))

  -- The last loop, `accepted` collected so far.
  unfoldable pub accept :
      BTreeMap (List AssuranceLevel)
      → BTreeMap AssuranceLevel
      → BTreeMap AssuranceLevel
      → Result VerificationFailure (BTreeMap AssuranceLevel)
  accept established [] accepted = ok accepted
  accept established ((field, declared) ∷ levels) accepted = do
    let supported = levels_of (get field established)
    ensure (contains_level declared supported) (over_claimed field declared supported)
    accept established levels (insert field declared accepted)

  unfoldable pub verify_assurance :
      SignedReport
      → AssuranceStatement
      → Evidence
      → TrustedKeys
      → Result VerificationFailure (BTreeMap AssuranceLevel)
  verify_assurance signed statement evidence trusted = do
    ensure (text_eq statement.format_version assurance_format_version)
        (unsupported_version (codes "assurance.format_version") statement.format_version)
    ensure (text_eq statement.report_digest (report_digest_hex p signed.report)) digest_mismatch
    ensure (text_eq signed.signature.public_key trusted.publisher) unknown_signer
    map_err (λ e. bad_signature)
        (verify_signature p trusted.publisher (report_digest p signed.report)
          signed.signature.value)
    for_each check_field (keys statement.levels)
    accept (establish signed evidence trusted) statement.levels []
