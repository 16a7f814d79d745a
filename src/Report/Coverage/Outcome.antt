-- ===== src/Report/Coverage/Outcome.antt =====
-- rust/solvency-report/src/coverage.rs: what an outcome says of the two reports.
use canton_assurance_layer.Prelude.{
  ℕ, ◌≤◌, ◌≡◌, ◌↔◌, refl, ap, inl, inr, arith, Bool-cases, true, not, List, [], ◌∷◌, some, none,
  Text, codes, text_eq, text_eq→eq, text_eq_refl, text_eq_iff, all, is_empty, leb, leb→le, le→leb,
  ltb, get_above, BTreeMap, amount, IsSorted, &&_iff, ok, ok_or, ensure, >>=-eq-ok, >>-eq-ok,
  ensure-eq-ok, ok_or-eq-ok, ok-injective, subst, lt→ltb, ltb→lt, get, or_zero,
}
use canton_assurance_layer.Primitives.{Primitives}
use canton_assurance_layer.Merkle.Encoding.{qualified}
use canton_assurance_layer.Report.Document.{SignedReport}
use canton_assurance_layer.Report.Digest.{report_digest, report_digest_hex}
use canton_assurance_layer.Report.Instant.{skew}
use canton_assurance_layer.Report.Sign.{verify_signature}
use canton_assurance_layer.Report.Verify.Failure.{
  digest_mismatch, unknown_signer, malformed, not_a_timestamp, temporal_mismatch,
}
use canton_assurance_layer.Report.Verify.Checks.{expect_version}
use canton_assurance_layer.Report.Verify.Fold.{signature_failure}
use canton_assurance_layer.Report.Verify.Accepted.{map_err-eq-ok}
use canton_assurance_layer.Report.Coverage.{
  CoverageStatement, AssetCoverage, CoverageOutcome, covered, fully_covered, uncovered, shortfalls,
  compare_assets, expect_profile, check_signature, verify_coverage, coverage_format_version,
}

uncovered-all : (l : List AssetCoverage) → is_empty (uncovered l) ≡ all covered l
unfolding uncovered
uncovered-all [] = refl
uncovered-all (a ∷ l) = elim (Bool-cases (covered a)) [
  | inl e ↦ rw e (uncovered-all l)
  | inr e ↦ rw e refl
]

-- The shortfalls are empty exactly where the outcome is fully covered.
pub fully_covered-shortfalls :
    (outcome : CoverageOutcome) → is_empty (shortfalls outcome) ≡ fully_covered outcome
unfolding shortfalls fully_covered
fully_covered-shortfalls outcome = uncovered-all outcome.assets

-- What is owed in an asset is held, where every compared asset is covered.
covered-amount :
    (held owed : BTreeMap ℕ) (k : Text)
    → all covered (compare_assets held owed) ≡ true
    → amount k owed ≤ amount (qualified (codes "held") k) held
unfolding compare_assets covered
covered-amount held [] k h = omega arith
covered-amount held ((j, v) ∷ owed) k h =
    let (a, b) =
      (&&_iff (leb v (amount (qualified (codes "held") j) held))
          (all covered (compare_assets held owed))).0
        h in
    elim (Bool-cases (text_eq j k)) [
      | inl e ↦
          let q = (text_eq_iff j k).0 e in
          rw e (subst (λ t. v ≤ amount (qualified (codes "held") t) held) q (leb→le _ _ a))
      | inr e ↦ rw e (covered-amount held owed k b)
    ]

amount-covered :
    (held owed : BTreeMap ℕ)
    → IsSorted owed
    → ((k : Text) → amount k owed ≤ amount (qualified (codes "held") k) held)
    → all covered (compare_assets held owed) ≡ true
unfolding compare_assets covered
amount-covered held [] s h = refl
amount-covered held ((j, v) ∷ owed) (above, s) h =
    (&&_iff (leb v (amount (qualified (codes "held") j) held))
        (all covered (compare_assets held owed))).1
      (le→leb _ _ (let q = h j in rw (text_eq_refl j) at q), amount-covered held owed s tail)
  where
    tail : (k : Text) → amount k owed ≤ amount (qualified (codes "held") k) held
    tail k = elim (Bool-cases (text_eq j k)) [
      | inl e ↦
          let q = (text_eq_iff j k).0 e in
          let z : amount k owed ≡ 0 =
            ap or_zero (subst (λ t. get t owed ≡ none) q (get_above j owed above)) in
          omega (arith, z)
      | inr e ↦ let q = h k in rw e at q
    ]

at_most : (s m : ℕ) → not (ltb m s) ≡ true → s ≤ m
at_most s m h = ground (arith, ltb→lt m s, lt→ltb m s)

module _ (p : Primitives) where
  -- What an outcome rests on: the two reports that the statement names, each of the kind it is used
  -- as and signed by the key trusted for it, at most `max_skew` seconds apart.
  pub record IsPairing (custody liabilities : SignedReport) (statement : CoverageStatement)
      (custody_key liabilities_key : Text) (max_skew : ℕ) : Type 0 where
    pub custody_kind : custody.report.profile ≡ codes "coverage.custody"
    pub liabilities_kind : liabilities.report.profile ≡ codes "solvency.liabilities"
    pub custody_digest : report_digest_hex p custody.report ≡ statement.custody_report_digest
    pub liabilities_digest :
        report_digest_hex p liabilities.report ≡ statement.liabilities_report_digest
    pub custody_signature :
        verify_signature p custody_key (report_digest p custody.report) custody.signature.value
        ≡ ok tt
    pub liabilities_signature :
        verify_signature p liabilities_key
          (report_digest p liabilities.report)
          liabilities.signature.value
        ≡ ok tt
    pub apart :
        (s : ℕ) × (skew custody.report.snapshot_time liabilities.report.snapshot_time ≡ some s)
        × (s ≤ max_skew)

  check_signature-ok :
      (signed : SignedReport) (key : Text)
      → check_signature p signed key ≡ ok tt
      → verify_signature p key (report_digest p signed.report) signed.signature.value ≡ ok tt
  unfolding check_signature
  check_signature-ok signed key h =
      let (_, h1) =
        >>-eq-ok (ensure (text_eq signed.signature.public_key key) unknown_signer) _ h in
      map_err-eq-ok signature_failure _ h1

  -- Where `verify_coverage` returns an outcome, for liabilities that are a map, the two reports are
  -- the named ones, of the two kinds, signed by the two trusted keys and at most `max_skew` seconds
  -- apart; and the outcome is fully covered exactly where every asset owed, whichever it is, is owed
  -- in an amount that the custody report holds.
  pub verify_coverage-IsPairing :
      (custody liabilities : SignedReport) (statement : CoverageStatement)
      (custody_key liabilities_key : Text) (max_skew : ℕ) (outcome : CoverageOutcome)
      → IsSorted liabilities.report.root_sums
      → verify_coverage p custody liabilities statement custody_key liabilities_key max_skew
        ≡ ok outcome
      → IsPairing custody liabilities statement custody_key liabilities_key max_skew
        × ((fully_covered outcome ≡ true) ↔ (
            (k : Text)
            → amount k liabilities.report.root_sums
              ≤ amount (qualified (codes "held") k) custody.report.root_sums))
  unfolding verify_coverage expect_version expect_profile fully_covered
  verify_coverage-IsPairing custody liabilities statement ck lk max_skew outcome sorted h =
      let (_, h1) =
        >>-eq-ok
          (expect_version (codes "coverage.format_version") statement.format_version
            coverage_format_version)
          _ h in
      let (kc, h2) = >>-eq-ok (expect_profile custody (codes "coverage.custody")) _ h1 in
      let (kl, h3) = >>-eq-ok (expect_profile liabilities (codes "solvency.liabilities")) _ h2 in
      let (dc, h4) =
        >>-eq-ok
          (ensure (text_eq (report_digest_hex p custody.report) statement.custody_report_digest)
            digest_mismatch)
          _ h3 in
      let (dl, h5) =
        >>-eq-ok
          (ensure
            (text_eq (report_digest_hex p liabilities.report) statement.liabilities_report_digest)
            digest_mismatch)
          _ h4 in
      let (sc, h6) = >>-eq-ok (check_signature p custody ck) _ h5 in
      let (sl, h7) = >>-eq-ok (check_signature p liabilities lk) _ h6 in
      let times = skew custody.report.snapshot_time liabilities.report.snapshot_time in
      let bad =
        malformed (not_a_timestamp custody.report.snapshot_time liabilities.report.snapshot_time) in
      let (s, es, h8) = >>=-eq-ok (ok_or times bad) _ h7 in
      let (near, h9) =
        >>-eq-ok (ensure (not (ltb max_skew s)) (temporal_mismatch s max_skew)) _ h8 in
      let held = custody.report.root_sums in
      let owed = liabilities.report.root_sums in
      (
        record {
          custody_kind = text_eq→eq _ _ (ensure-eq-ok _ _ kc);
          liabilities_kind = text_eq→eq _ _ (ensure-eq-ok _ _ kl);
          custody_digest = text_eq→eq _ _ (ensure-eq-ok _ _ dc);
          liabilities_digest = text_eq→eq _ _ (ensure-eq-ok _ _ dl);
          custody_signature = check_signature-ok custody ck sc;
          liabilities_signature = check_signature-ok liabilities lk sl;
          apart = (s, ok_or-eq-ok times bad es, at_most s max_skew (ensure-eq-ok _ _ near));
        },
        subst
            (λ (o : CoverageOutcome).
              (all covered o.assets ≡ true)
              ↔ ((k : Text) → amount k owed ≤ amount (qualified (codes "held") k) held))
            (ok-injective h9)
            ((λ f k. covered-amount held owed k f), amount-covered held owed sorted),
      )
