-- ===== src/Report/Assurance/Supported.antt =====
-- rust/solvency-report/src/assurance.rs: an accepted declaration is one that its evidence supports.
use canton_assurance_layer.Prelude.{
  ◌≡◌, ◌≢◌, refl, ap, ◌∙◌, inl, inr, Bool-cases, true, List, [], ◌∷◌, some, Text, codes, text_eq,
  text_eq_iff, any, All, BTreeMap, get, get-insert, insert, keys, if◌then◌else◌, ok, ensure,
  for_each, map_err, >>-eq-ok, ensure-eq-ok, subst,
}
use canton_assurance_layer.Primitives.{Primitives}
use canton_assurance_layer.Report.Document.{SignedReport}
use canton_assurance_layer.Report.Manifest.{report_resident_fields, contains}
use canton_assurance_layer.Report.Digest.{report_digest, report_digest_hex}
use canton_assurance_layer.Report.Sign.{verify_signature}
use canton_assurance_layer.Report.Verify.Failure.{
  unsupported_version, digest_mismatch, unknown_signer, bad_signature, over_claimed, AssuranceLevel,
}
use canton_assurance_layer.Report.Verify.Accepted.{map_err-eq-ok}
use canton_assurance_layer.Report.Assurance.{
  contains_level, AssuranceStatement, assurance_format_version, Evidence, TrustedKeys, field_levels,
  establish_from, establish, levels_of, check_field, accept, verify_assurance,
}
use canton_assurance_layer.Report.Assurance.Supports.{Supports, field_levels-Supports}

no_level : (a : AssuranceLevel) → contains_level a [] ≢ true
unfolding contains_level
no_level a h = cc

module _ (p : Primitives) where
  get-establish_from :
      (signed : SignedReport) (evidence : Evidence) (trusted : TrustedKeys) (fields : List Text)
      (out : BTreeMap (List AssuranceLevel)) (f : Text)
      → get f (establish_from p signed evidence trusted fields out)
        ≡ (if contains fields f then some (field_levels p signed evidence trusted f) else get f out)
  unfolding establish_from contains
  get-establish_from signed evidence trusted [] out f = refl
  get-establish_from signed evidence trusted (k ∷ fields) out f =
      let levels = field_levels p signed evidence trusted k in
      let rest = get-establish_from signed evidence trusted fields (insert k levels out) f in
      elim (Bool-cases (any (λ n. text_eq n f) fields)) [
        | inl later ↦ elim (Bool-cases (text_eq k f)) [
          | inl here ↦ rest ∙ rw (later, here) refl
          | inr there ↦ rest ∙ rw (later, there) refl
        ]
        | inr absent ↦ elim (Bool-cases (text_eq k f)) [
          | inl here ↦
              rest
              ∙ rw (absent, get-insert k f levels out, here)
                  (ap (λ t. some (field_levels p signed evidence trusted t))
                    ((text_eq_iff k f).0 here))
          | inr there ↦ rest ∙ rw (absent, get-insert k f levels out, there) refl
        ]
      ]

  -- A level that `establish` lists for a field is supported.
  listed-Supports :
      (signed : SignedReport) (evidence : Evidence) (trusted : TrustedKeys) (f : Text)
      (a : AssuranceLevel)
      → contains_level a (levels_of p (get f (establish p signed evidence trusted))) ≡ true
      → Supports p signed evidence trusted f a
  unfolding establish
  listed-Supports signed evidence trusted f a h =
      let e = get-establish_from signed evidence trusted report_resident_fields [] f in
      let q = subst (λ o. contains_level a (levels_of p o) ≡ true) e h in
      elim (Bool-cases (contains report_resident_fields f)) [
        | inl known ↦
            let r : contains_level a (field_levels p signed evidence trusted f) ≡ true =
              rw known at q in
            (field_levels-Supports p signed evidence trusted f a).0 r
        | inr unknown ↦
            let r : contains_level a [] ≡ true = rw unknown at q in absurd (no_level a r)
      ]

  accept-All :
      (established : BTreeMap (List AssuranceLevel)) (levels accepted : BTreeMap AssuranceLevel)
      {out : BTreeMap AssuranceLevel}
      → accept p established levels accepted ≡ ok out
      → All
          (λ (e : Text × AssuranceLevel).
            contains_level e.1 (levels_of p (get e.0 established)) ≡ true)
          levels
  unfolding accept
  accept-All established [] accepted {out} h = tt
  accept-All established ((field, declared) ∷ levels) accepted {out} h =
      let supported = levels_of p (get field established) in
      let (e, h1) =
        >>-eq-ok
          (ensure (contains_level declared supported) (over_claimed field declared supported)) _
          h in
      (
        ensure-eq-ok _ _ e,
        accept-All established levels (insert field declared accepted) {out = out} h1,
      )

  supported-All :
      (signed : SignedReport) (evidence : Evidence) (trusted : TrustedKeys)
      (levels : BTreeMap AssuranceLevel)
      → All
          (λ (e : Text × AssuranceLevel).
            contains_level e.1 (levels_of p (get e.0 (establish p signed evidence trusted))) ≡ true)
          levels
      → All (λ (e : Text × AssuranceLevel). Supports p signed evidence trusted e.0 e.1) levels
  supported-All signed evidence trusted [] h = tt
  supported-All signed evidence trusted ((f, a) ∷ levels) (h, hs) = (
    listed-Supports signed evidence trusted f a h,
    supported-All signed evidence trusted levels hs,
  )

  -- Where `verify_assurance` accepts a statement, the trusted publisher's signature of the report
  -- verifies, and each level that the statement declares is one whose evidence is there for its field:
  -- not_disclosed, for what the manifest withholds; claimed_only, for anything else; an attested level,
  -- for an attestation of the field and the report that a key trusted for the role signed;
  -- ledger_derived, for an anchor of the report and a graph, signed or not, whose first derivation of
  -- the field names a source on the ledger; and cryptographically_verified, for root_sums and a proof
  -- that verifies under the publisher's key.
  pub verify_assurance-All :
      (signed : SignedReport) (statement : AssuranceStatement) (evidence : Evidence)
      (trusted : TrustedKeys) (accepted : BTreeMap AssuranceLevel)
      → verify_assurance p signed statement evidence trusted ≡ ok accepted
      → (verify_signature p trusted.publisher (report_digest p signed.report) signed.signature.value
          ≡ ok tt)
        × All
            (λ (e : Text × AssuranceLevel). Supports p signed evidence trusted e.0 e.1)
            statement.levels
  unfolding verify_assurance
  verify_assurance-All signed statement evidence trusted accepted h =
      let (_, h1) =
        >>-eq-ok
          (ensure (text_eq statement.format_version assurance_format_version)
            (unsupported_version (codes "assurance.format_version") statement.format_version))
          _ h in
      let (_, h2) =
        >>-eq-ok
          (ensure (text_eq statement.report_digest (report_digest_hex p signed.report))
            digest_mismatch)
          _ h1 in
      let (_, h3) =
        >>-eq-ok (ensure (text_eq signed.signature.public_key trusted.publisher) unknown_signer) _
          h2 in
      let (e, h4) =
        >>-eq-ok
          (map_err (λ e. bad_signature)
            (verify_signature p trusted.publisher (report_digest p signed.report)
              signed.signature.value))
          _ h3 in
      let (_, h5) = >>-eq-ok (for_each (check_field p) (keys statement.levels)) _ h4 in
      (
        map_err-eq-ok (λ e. bad_signature) _ e,
        supported-All signed evidence trusted statement.levels (
            accept-All (establish p signed evidence trusted) statement.levels [] {out = accepted}
              h5),
      )
