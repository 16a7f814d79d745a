-- ===== src/Report/Digest/Binding.antt =====
-- rust/solvency-report/src/digest.rs: the digest determines the report.
use canton_assurance_layer.Prelude.{
  ◌≡◌, ◌≢◌, refl, sym, ap, ◌∙◌, ◌⊎◌, inl, inr, Bool-cases, true, false, [], ◌++◌, Option, none,
  some, Bytes, append_inj, text_eq, text_eq_iff, subst, ok,
}
use canton_assurance_layer.Primitives.{Primitives, Collision, IsLawful}
use canton_assurance_layer.Merkle.Proof.Binding.{equal_or_Collision}
use canton_assurance_layer.Report.Document.{
  Manifest, Report, report_format_version, report_format_version_v2,
}
use canton_assurance_layer.Report.Digest.{
  report_digest_domain, report_digest_domain_v2, is_v2, manifest_bytes, report_fields,
  report_preimage, report_digest, report_digest_hex,
}
use canton_assurance_layer.Report.Anchor.Fields.{hex_inj}
use canton_assurance_layer.Report.Verify.Checks.{
  check_v1, check_v2, check_report_version_and_manifest,
}
use canton_assurance_layer.Report.Digest.Fields.{
  ReportFits, OptionalFits, with_manifest, text_neq, manifest_bytes_inj, report_fields_inj,
}

-- A report that the verifiers read: it passed the check of its version and manifest.
abbrev pub IsRead : Report → Type 0
IsRead r = check_report_version_and_manifest r ≡ ok tt

v1_is_not_v2 : text_eq report_format_version report_format_version_v2 ≡ false
unfolding text_eq
v1_is_not_v2 = refl

check_v1-none : (m : Option Manifest) → check_v1 m ≡ ok tt → m ≡ none
unfolding check_v1
check_v1-none none q = refl
check_v1-none (some m) q = absurd (cc)

check_v2-some :
    (r : Report) (m : Option Manifest) → check_v2 r m ≡ ok tt → (n : Manifest) × (m ≡ some n)
unfolding check_v2
check_v2-some r none q = absurd (cc)
check_v2-some r (some m) q = (m, refl)

-- A report of the second version carries a manifest, and one that is read otherwise carries none.
read-cases :
    (r : Report)
    → IsRead r
    → ((is_v2 r ≡ true) × ((m : Manifest) × (r.manifest ≡ some m)))
      ⊎ ((is_v2 r ≡ false) × (r.manifest ≡ none))
unfolding is_v2 check_report_version_and_manifest
read-cases r h = elim (Bool-cases (text_eq r.format_version report_format_version)) [
  | inl e ↦
      let q : check_v1 r.manifest ≡ ok tt = rw e at h in
      inr (
        subst (λ t. text_eq t report_format_version_v2 ≡ false)
            (sym ((text_eq_iff r.format_version report_format_version).0 e)) v1_is_not_v2,
        check_v1-none r.manifest q,
      )
  | inr e ↦ elim (Bool-cases (text_eq r.format_version report_format_version_v2)) [
    | inl f ↦
        let q : check_v2 r r.manifest ≡ ok tt = rw (e, f) at h in
        inl (f, check_v2-some r r.manifest q)
    | inr f ↦ absurd (cc (e, f, h))
  ]
]

-- The preimages of the two versions begin differently.
domains_differ : (x y : Bytes) → report_digest_domain_v2 ++ x ≢ report_digest_domain ++ y
unfolding text_eq
domains_differ x y h = absurd (
    text_neq report_digest_domain_v2 report_digest_domain refl
      (append_inj report_digest_domain_v2 report_digest_domain x y refl h).0)

with_same :
    (r s : Report) → with_manifest r none ≡ with_manifest s none → r.manifest ≡ s.manifest → r ≡ s
with_same r s e m = λ i. with_manifest (e i) (m i)

report_preimage_inj :
    (r s : Report)
    → ReportFits r
    → ReportFits s
    → IsRead r
    → IsRead s
    → report_preimage r ≡ report_preimage s
    → r ≡ s
unfolding report_preimage
report_preimage_inj r s fr fs vr vs h = elim (read-cases r vr) [
  | inl (r2, (m, em)) ↦ elim (read-cases s vs) [
    | inl (s2, (n, en)) ↦
        let q : report_digest_domain_v2 ++ report_fields r (manifest_bytes r.manifest)
            ≡ report_digest_domain_v2 ++ report_fields s (manifest_bytes s.manifest) =
          rw (r2, s2) at h in
        let (e, t) =
          report_fields_inj r s _ _ fr fs
            (append_inj report_digest_domain_v2 report_digest_domain_v2 _ _ refl q).1 in
        let mn =
          manifest_bytes_inj m n (subst OptionalFits em fr.manifest)
            (subst OptionalFits en fs.manifest) (cc (em, en, t)) in
        with_same r s e (em ∙ ap some mn ∙ sym en)
    | inr (s1, n) ↦
        let q : report_digest_domain_v2 ++ report_fields r (manifest_bytes r.manifest)
            ≡ report_digest_domain ++ report_fields s [] =
          rw (r2, s1) at h in
        absurd (domains_differ _ _ q)
  ]
  | inr (r1, m) ↦ elim (read-cases s vs) [
    | inl (s2, (n, en)) ↦
        let q : report_digest_domain ++ report_fields r []
            ≡ report_digest_domain_v2 ++ report_fields s (manifest_bytes s.manifest) =
          rw (r1, s2) at h in
        absurd (domains_differ _ _ (sym q))
    | inr (s1, n) ↦
        let q : report_digest_domain ++ report_fields r []
            ≡ report_digest_domain ++ report_fields s [] =
          rw (r1, s1) at h in
        let (e, t) =
          report_fields_inj r s _ _ fr fs
            (append_inj report_digest_domain report_digest_domain _ _ refl q).1 in
        with_same r s e (m ∙ sym n)
  ]
]

-- The digest determines the report, of either version and its manifest included: two reports that
-- pass the check of version and manifest and have one digest are the same report, field for field,
-- or their two preimages, which report_digest hashes, are different and have one SHA-256 digest.
pub report_digest-binding :
    (p : Primitives)
    → IsLawful p
    → (r s : Report) → ReportFits r
    → ReportFits s
    → IsRead r
    → IsRead s
    → report_digest_hex p r ≡ report_digest_hex p s
    → (r ≡ s) ⊎ Collision p (report_preimage r) (report_preimage s)
unfolding report_digest_hex report_digest
report_digest-binding p lawful r s fr fs vr vs h =
    elim (equal_or_Collision p _ _ (hex_inj p lawful _ _ h)) [
      | inl e ↦ inl (report_preimage_inj r s fr fs vr vs e)
      | inr c ↦ inr c
    ]
