-- ===== src/Report/Profile/Satisfied.antt =====
-- rust/solvency-report/src/profile.rs: what a validated report satisfies, asset by asset.
use canton_assurance_layer.Prelude.{
  ℕ, ◌≤◌, ◌≡◌, refl, sym, ap, ◌∙◌, arith, inl, inr, Bool-cases, true, not, List, [], ◌∷◌, ◌++◌,
  some, Text, BTreeMap, get, amount, text_eq, text_eq_iff, strip_prefix, strip_prefix-append,
  append_assoc, ltb, ltb→lt, lt→ltb, ◌==◌, ==_iff, Result, ok, err, ok_or, ensure, ensure-eq-ok,
  for_each, any, >>=-eq-ok, >>-eq-ok, ok_or-eq-ok, subst, some_inj, ok-injective,
}
use canton_assurance_layer.Report.Document.{Report}
use canton_assurance_layer.Report.Manifest.{contains}
use canton_assurance_layer.Report.Profile.Rules.{Coverage, ProfileRules}
use canton_assurance_layer.Report.Profile.Registry.{lookup}
use canton_assurance_layer.Report.Profile.{
  Violation, unknown, not_covered, not_unanimous, check_aggregate, check_covered, check_coverage,
  check_total, check_unanimous, check_rules, under_profile, validate, saturating_mul, one,
}

at_most : (s m : ℕ) → not (ltb m s) ≡ true → s ≤ m
at_most s m h = ground (arith, ltb→lt m s, lt→ltb m s)

-- A key `name/asset` without the prefix `name/` is the asset.
strip_key :
    (name asset : Text) → strip_prefix (name ++ b'/' ∷ []) (name ++ b'/' ∷ asset) ≡ some asset
strip_key name asset =
    ap (strip_prefix (name ++ b'/' ∷ [])) (sym (append_assoc name (b'/' ∷ []) asset))
    ∙ strip_prefix-append (name ++ b'/' ∷ []) asset

under_profile-ok :
    (rules : ProfileRules) (r : Result Violation (Unit {0})) {out : ProfileRules}
    → under_profile rules r ≡ ok out
    → (r ≡ ok tt) × (rules ≡ out)
under_profile-ok rules (ok tt) h = (refl, ok-injective h)
under_profile-ok rules (err v) h = absurd (cc)

-- A validated report has the rules of its profile, all checked.
validate-rules :
    (report : Report) (rules : ProfileRules)
    → validate report ≡ ok rules
    → (lookup report.profile ≡ some rules) × (check_rules report rules ≡ ok tt)
unfolding validate
validate-rules report rules h =
    let (found, e, h1) = >>=-eq-ok (ok_or (lookup report.profile) (unknown report.profile)) _ h in
    let (c, q) = under_profile-ok found (check_rules report found) {out = rules} h1 in
    (
      ok_or-eq-ok (lookup report.profile) (unknown report.profile) e ∙ ap some q,
      subst (λ r. check_rules report r ≡ ok tt) q c,
    )

check_covered-entry :
    (report : Report) (c : Coverage) (j asset : Text) (v : ℕ)
    → j ≡ c.covered ++ b'/' ∷ asset
    → check_covered report c (j, v) ≡ ok tt
    → v ≤ amount (c.covering ++ b'/' ∷ asset) report.root_sums
unfolding check_covered
check_covered-entry report c j asset v e h =
    let q : check_covered report c (c.covered ++ b'/' ∷ asset, v) ≡ ok tt =
      subst (λ k. check_covered report c (k, v) ≡ ok tt) e h in
    let held = amount (c.covering ++ b'/' ∷ asset) report.root_sums in
    let r : check_covered report c (c.covered ++ b'/' ∷ asset, v)
        ≡ ensure (not (ltb held v)) (not_covered (c.covered ++ b'/' ∷ asset)) =
      rw (check_covered, strip_key c.covered asset) refl in
    at_most v held (ensure-eq-ok _ _ (sym r ∙ q))

covered-amount :
    (report : Report) (c : Coverage) (asset : Text) (m : BTreeMap ℕ)
    → for_each (check_covered report c) m ≡ ok tt
    → amount (c.covered ++ b'/' ∷ asset) m ≤ amount (c.covering ++ b'/' ∷ asset) report.root_sums
covered-amount report c asset [] h = omega arith
covered-amount report c asset ((j, v) ∷ m) h =
    let (a, b) = >>-eq-ok (check_covered report c (j, v)) _ h in
    elim (Bool-cases (text_eq j (c.covered ++ b'/' ∷ asset))) [
      | inl e ↦ rw e (
          check_covered-entry report c j asset v ((text_eq_iff j (c.covered ++ b'/' ∷ asset)).0 e)
            a)
      | inr e ↦ rw e (covered-amount report c asset m b)
    ]

-- In a report that validates under a profile with a coverage rule, every asset is covered on its own:
-- its total under the covering map is at least its total under the covered map.
pub validate-covered :
    (report : Report) (rules : ProfileRules) (c : Coverage) (asset : Text)
    → validate report ≡ ok rules
    → rules.coverage ≡ some c
    → amount (c.covered ++ b'/' ∷ asset) report.root_sums
      ≤ amount (c.covering ++ b'/' ∷ asset) report.root_sums
unfolding check_rules check_coverage
validate-covered report rules c asset h e =
    let (found, checked) = validate-rules report rules h in
    let (_, h1) =
      >>-eq-ok (for_each (check_aggregate report) rules.required_aggregates) _ checked in
    let (cov, _) = >>-eq-ok (check_coverage report rules.coverage) _ h1 in
    covered-amount report c asset report.root_sums
      (subst (λ o. check_coverage report o ≡ ok tt) e cov)

check_total-entry :
    (report : Report) (name rule : Text) (m : BTreeMap ℕ) {total : ℕ}
    → for_each (check_total report name) m ≡ ok tt
    → get (name ++ b'/' ∷ rule) m ≡ some total
    → total ≡ saturating_mul report.leaf_count one
unfolding check_total
check_total-entry report name rule [] h g = absurd (cc)
check_total-entry report name rule ((j, v) ∷ m) {total} h g =
    let key = name ++ b'/' ∷ rule in
    let (a, b) = >>-eq-ok (check_total report name (j, v)) _ h in
    elim (Bool-cases (text_eq j key)) [
      | inl e ↦
          let q : check_total report name (key, v) ≡ ok tt =
            subst (λ k. check_total report name (k, v) ≡ ok tt) ((text_eq_iff j key).0 e) a in
          let r : check_total report name (key, v)
              ≡ ensure (v == saturating_mul report.leaf_count one) (not_unanimous key) =
            rw (check_total, strip_key name rule) refl in
          let found : some v ≡ some total = rw e at g in
          sym (some_inj found) ∙ (==_iff _ _).0 (ensure-eq-ok _ _ (sym r ∙ q))
      | inr e ↦
          let rest : get key m ≡ some total = rw e at g in
          check_total-entry report name rule m {total = total} b rest
    ]

unanimous-map :
    (report : Report) (name : Text) (names : List Text)
    → for_each (check_unanimous report) names ≡ ok tt
    → contains names name ≡ true
    → check_unanimous report name ≡ ok tt
unfolding contains
unanimous-map report name [] h c = absurd (cc)
unanimous-map report name (n ∷ names) h c =
    let (a, b) = >>-eq-ok (check_unanimous report n) _ h in
    elim (Bool-cases (text_eq n name)) [
      | inl e ↦ subst (λ k. check_unanimous report k ≡ ok tt) ((text_eq_iff n name).0 e) a
      | inr e ↦
          let rest : any (λ k. text_eq k name) names ≡ true = rw e at c in
          unanimous-map report name names b rest
    ]

-- In a report that validates under a profile with a unanimous map, every total under that map is the
-- number of leaves, in units of one.
pub validate-unanimous :
    (report : Report) (rules : ProfileRules) (name rule : Text) (total : ℕ)
    → validate report ≡ ok rules
    → contains rules.unanimous_maps name ≡ true
    → get (name ++ b'/' ∷ rule) report.root_sums ≡ some total
    → total ≡ saturating_mul report.leaf_count one
unfolding check_rules check_unanimous
validate-unanimous report rules name rule total h u g =
    let (found, checked) = validate-rules report rules h in
    let (_, h1) =
      >>-eq-ok (for_each (check_aggregate report) rules.required_aggregates) _ checked in
    let (_, maps) = >>-eq-ok (check_coverage report rules.coverage) _ h1 in
    check_total-entry report name rule report.root_sums {total = total}
      (unanimous-map report name rules.unanimous_maps maps u) g
