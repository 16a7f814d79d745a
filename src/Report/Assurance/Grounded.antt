-- ===== src/Report/Assurance/Grounded.antt =====
-- rust/solvency-report/src/provenance.rs against rust/solvency-report/src/assurance.rs: the two
-- tests of whether a figure comes from the ledger.
use canton_assurance_layer.Prelude.{
  ◌≡◌, refl, ap, ◌∙◌, inl, inr, Bool, Bool-cases, true, false, not, ◌&&◌, ◌||◌, List, [], ◌∷◌,
  Option, none, some, Option-cases, Text, text_eq, any, All, BTreeMap, ok, ensure-eq-ok, >>-eq-ok,
}
use canton_assurance_layer.Report.Verify.Failure.{AssuranceLevel}
use canton_assurance_layer.Report.Provenance.{
  Source, Derivation, Provenance, on_ledger, last_of, is_on_ledger, is_ledger_derived,
  find_derivation, check_grounded, check_level, check_against_assurance,
}
use canton_assurance_layer.Report.Assurance.{is_grounded, derives_from_ledger}

abbrev names_on_ledger : List Source → Text → Bool
names_on_ledger sources id = any (λ (s : Source). text_eq s.id id && on_ledger s.kind) sources

last_of-names :
    (id : Text) (l : List Source) → is_on_ledger (last_of id l) ≡ true → names_on_ledger l id ≡ true
unfolding last_of
last_of-names id [] h = cc
last_of-names id (s ∷ l) h = elim (Option-cases (last_of id l)) [
  | inr (later, e) ↦
      let q : is_on_ledger (some later) ≡ true = rw e at h in
      let rest = last_of-names id l (ap is_on_ledger e ∙ q) in
      rw rest (or_true (text_eq s.id id && on_ledger s.kind))
  | inl e ↦ elim (Bool-cases (text_eq s.id id)) [
    | inl same ↦ let q : on_ledger s.kind ≡ true = rw (e, same) at h in rw (same, q) refl
    | inr other ↦ absurd (cc (e, other, h))
  ]
]
  where
    or_true : (b : Bool) → (b || true) ≡ true
    or_true true = refl
    or_true false = refl

any-names :
    (sources : List Source) (ids : List Text)
    → any (λ id. is_on_ledger (last_of id sources)) ids ≡ true
    → any (names_on_ledger sources) ids ≡ true
any-names sources [] h = cc
any-names sources (id ∷ ids) h = elim (Bool-cases (names_on_ledger sources id)) [
  | inl e ↦ rw e refl
  | inr e ↦ elim (Bool-cases (is_on_ledger (last_of id sources))) [
    | inl f ↦ absurd (cc (e, last_of-names id sources f))
    | inr f ↦
        let q : any (λ id. is_on_ledger (last_of id sources)) ids ≡ true = rw f at h in
        rw e (any-names sources ids q)
  ]
]

check_grounded-is_grounded :
    (g : Provenance) (field : Text) (d : Option Derivation)
    → check_grounded g field d ≡ ok tt
    → is_grounded g.sources d ≡ true
unfolding check_grounded
check_grounded-is_grounded g field none h = absurd (cc)
check_grounded-is_grounded g field (some d) h = any-names g.sources d.sources (ensure-eq-ok _ _ h)

check_level-derives :
    (g : Provenance) (field : Text) (level : AssuranceLevel)
    → check_level g (field, level) ≡ ok tt
    → (not (is_ledger_derived level) || derives_from_ledger g field) ≡ true
unfolding check_level derives_from_ledger
check_level-derives g field level h = elim (Bool-cases (is_ledger_derived level)) [
  | inl e ↦
      let q : check_grounded g field (find_derivation field g.derivations) ≡ ok tt = rw e at h in
      rw e (check_grounded-is_grounded g field (find_derivation field g.derivations) q)
  | inr e ↦ rw e refl
]

-- Levels that `check_against_assurance` accepts for a graph are levels that `establish` can accept
-- for it: each field that is declared ledger-derived passes `derives_from_ledger`.
pub check_against_assurance-All :
    (g : Provenance) (levels : BTreeMap AssuranceLevel)
    → check_against_assurance g levels ≡ ok tt
    → All
        (λ (e : Text × AssuranceLevel).
          (not (is_ledger_derived e.1) || derives_from_ledger g e.0) ≡ true)
        levels
unfolding check_against_assurance
check_against_assurance-All g [] h = tt
check_against_assurance-All g ((field, level) ∷ levels) h =
    let (a, b) = >>-eq-ok (check_level g (field, level)) _ h in
    (check_level-derives g field level a, check_against_assurance-All g levels b)
