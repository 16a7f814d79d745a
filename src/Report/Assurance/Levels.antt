-- ===== src/Report/Assurance/Levels.antt =====
-- rust/solvency-report/src/assurance.rs: which levels the evidence supports for a field.
use canton_assurance_layer.Prelude.{
  ◌≡◌, refl, sym, ap, ◌∙◌, inl, inr, Bool, Bool-cases, true, false, not, ◌&&◌, ◌||◌, List, [], ◌∷◌,
  Text, any,
}
use canton_assurance_layer.Primitives.{Primitives}
use canton_assurance_layer.Report.Document.{SignedReport}
use canton_assurance_layer.Report.Digest.{report_digest_hex}
use canton_assurance_layer.Report.Verify.Failure.{
  AssuranceLevel, not_disclosed, claimed_only, issuer_attested, third_party_attested,
  ledger_derived, cryptographically_verified,
}
use canton_assurance_layer.Report.Assurance.{
  level_eq, insert_level, insert_if, contains_level, AttestorRole, issuer, third_party, level_of,
  SignedAttestation, Evidence, TrustedKeys, withheld, attests, attested, recomputed, pinned,
  field_levels,
}
use canton_assurance_layer.Report.Assurance.Sets.{
  claimed_or, contains_level-insert_if, contains_level-insert_level, none_or, or_assoc, or_false,
  or_swap, pinned_or, recomputed_or, three_or,
}

module _ (p : Primitives) where
  -- Whether one of the attestations counts, and its role gives the level.
  abbrev pub attested_as :
      TrustedKeys → Text → Text → AssuranceLevel → List SignedAttestation → Bool
  attested_as trusted digest field a l =
      any
        (λ (s : SignedAttestation).
          attests p trusted digest field s && level_eq a (level_of s.attestation.role))
        l

  contains_level-attested :
      (t : TrustedKeys) (digest field : Text) (a : AssuranceLevel) (l : List SignedAttestation)
      (levels : List AssuranceLevel)
      → contains_level a (attested p t digest field l levels)
        ≡ (attested_as t digest field a l || contains_level a levels)
  unfolding attested
  contains_level-attested t digest field a [] levels = refl
  contains_level-attested t digest field a (s ∷ l) levels =
      let b = attests p t digest field s in
      let r = level_of s.attestation.role in
      let x = attested_as t digest field a l in
      contains_level-attested t digest field a l (insert_if b r levels)
      ∙ ap (λ y. x || y) (contains_level-insert_if b a r levels)
      ∙ or_swap x (b && level_eq a r) (contains_level a levels)
      ∙ or_assoc (b && level_eq a r) x (contains_level a levels)

  -- What each level asks of the evidence, for a field.
  unfoldable pub is_supported : SignedReport → Evidence → TrustedKeys → Text → AssuranceLevel → Bool
  is_supported signed evidence trusted field not_disclosed = withheld signed.report field
  is_supported signed evidence trusted field claimed_only = not (withheld signed.report field)
  is_supported signed evidence trusted field issuer_attested =
      not (withheld signed.report field)
      && attested_as trusted (report_digest_hex p signed.report) field issuer_attested
          evidence.attestations
  is_supported signed evidence trusted field third_party_attested =
      not (withheld signed.report field)
      && attested_as trusted (report_digest_hex p signed.report) field third_party_attested
          evidence.attestations
  is_supported signed evidence trusted field ledger_derived =
      not (withheld signed.report field) && pinned p signed evidence field
  is_supported signed evidence trusted field cryptographically_verified =
      not (withheld signed.report field) && recomputed p signed evidence trusted field

  -- No attestation gives a level that is not a role's.
  attested_as-false :
      (t : TrustedKeys) (digest field : Text) (a : AssuranceLevel) (l : List SignedAttestation)
      → ((r : AttestorRole) → level_eq a (level_of r) ≡ false)
      → attested_as t digest field a l ≡ false
  attested_as-false t digest field a [] h = refl
  attested_as-false t digest field a (s ∷ l) h =
      rw (h s.attestation.role, and_false (attests p t digest field s))
        (attested_as-false t digest field a l h)
    where
      and_false : (b : Bool) → (b && false) ≡ false
      and_false true = refl
      and_false false = refl

  hidden-is_supported :
      (signed : SignedReport) (evidence : Evidence) (trusted : TrustedKeys) (field : Text)
      (a : AssuranceLevel)
      → withheld signed.report field ≡ true
      → level_eq a not_disclosed ≡ is_supported signed evidence trusted field a
  unfolding is_supported
  hidden-is_supported signed evidence trusted field not_disclosed w = sym w
  hidden-is_supported signed evidence trusted field claimed_only w = rw w refl
  hidden-is_supported signed evidence trusted field issuer_attested w = rw w refl
  hidden-is_supported signed evidence trusted field third_party_attested w = rw w refl
  hidden-is_supported signed evidence trusted field ledger_derived w = rw w refl
  hidden-is_supported signed evidence trusted field cryptographically_verified w = rw w refl

  -- The levels that go into the set of a field that is not withheld.
  abbrev pub shown_levels : SignedReport → Evidence → TrustedKeys → Text → AssuranceLevel → Bool
  shown_levels signed evidence trusted field a =
      attested_as trusted (report_digest_hex p signed.report) field a evidence.attestations
      || ((pinned p signed evidence field && level_eq a ledger_derived)
          || ((recomputed p signed evidence trusted field && level_eq a cryptographically_verified)
              || level_eq a claimed_only))

  shown-is_supported :
      (signed : SignedReport) (evidence : Evidence) (trusted : TrustedKeys) (field : Text)
      (a : AssuranceLevel)
      → withheld signed.report field ≡ false
      → shown_levels signed evidence trusted field a ≡ is_supported signed evidence trusted field a
  unfolding is_supported
  shown-is_supported signed evidence trusted field not_disclosed w =
      rw
        (
          w,
          attested_as-false trusted (report_digest_hex p signed.report) field not_disclosed
              evidence.attestations
              (λ r. elim r as (λ k. level_eq not_disclosed (level_of k) ≡ false) [
                | issuer ↦ refl
                | third_party ↦ refl
              ]),
        )
        (none_or (pinned p signed evidence field) (recomputed p signed evidence trusted field))
  shown-is_supported signed evidence trusted field claimed_only w =
      rw
        (
          w,
          attested_as-false trusted (report_digest_hex p signed.report) field claimed_only
              evidence.attestations
              (λ r. elim r as (λ k. level_eq claimed_only (level_of k) ≡ false) [
                | issuer ↦ refl
                | third_party ↦ refl
              ]),
        )
        (claimed_or (pinned p signed evidence field) (recomputed p signed evidence trusted field))
  shown-is_supported signed evidence trusted field issuer_attested w = rw w (
      three_or
        (attested_as trusted (report_digest_hex p signed.report) field issuer_attested
          evidence.attestations)
        (pinned p signed evidence field) (recomputed p signed evidence trusted field))
  shown-is_supported signed evidence trusted field third_party_attested w = rw w (
      three_or
        (attested_as trusted (report_digest_hex p signed.report) field third_party_attested
          evidence.attestations)
        (pinned p signed evidence field) (recomputed p signed evidence trusted field))
  shown-is_supported signed evidence trusted field ledger_derived w =
      rw
        (
          w,
          attested_as-false trusted (report_digest_hex p signed.report) field ledger_derived
              evidence.attestations
              (λ r. elim r as (λ k. level_eq ledger_derived (level_of k) ≡ false) [
                | issuer ↦ refl
                | third_party ↦ refl
              ]),
        )
        (pinned_or (pinned p signed evidence field) (recomputed p signed evidence trusted field))
  shown-is_supported signed evidence trusted field cryptographically_verified w =
      rw
        (
          w,
          attested_as-false trusted (report_digest_hex p signed.report) field
              cryptographically_verified evidence.attestations
              (λ r. elim r as (λ k. level_eq cryptographically_verified (level_of k) ≡ false) [
                | issuer ↦ refl
                | third_party ↦ refl
              ]),
        )
        (recomputed_or (pinned p signed evidence field)
          (recomputed p signed evidence trusted field))

  contains_level-shown :
      (signed : SignedReport) (evidence : Evidence) (trusted : TrustedKeys) (field : Text)
      (a : AssuranceLevel)
      → contains_level a (
          insert_if (pinned p signed evidence field) ledger_derived (
            insert_if
              (recomputed p signed evidence trusted field)
              cryptographically_verified
              (insert_level claimed_only [])))
        ≡ ((pinned p signed evidence field && level_eq a ledger_derived)
            || ((recomputed p signed evidence trusted field
                  && level_eq a cryptographically_verified)
                || level_eq a claimed_only))
  unfolding contains_level
  contains_level-shown signed evidence trusted field a =
      let x = pinned p signed evidence field in
      let y = recomputed p signed evidence trusted field in
      let base = insert_level claimed_only [] in
      contains_level-insert_if x a ledger_derived (insert_if y cryptographically_verified base)
      ∙ ap (λ r. (x && level_eq a ledger_derived) || r)
          (contains_level-insert_if y a cryptographically_verified base
            ∙ ap (λ r. (y && level_eq a cryptographically_verified) || r)
                (contains_level-insert_level a claimed_only []
                  ∙ or_false (level_eq a claimed_only)))

  -- The set that `establish` builds for a field holds exactly the levels that the evidence supports.
  pub contains_level-field_levels :
      (signed : SignedReport) (evidence : Evidence) (trusted : TrustedKeys) (field : Text)
      (a : AssuranceLevel)
      → contains_level a (field_levels p signed evidence trusted field)
        ≡ is_supported signed evidence trusted field a
  unfolding field_levels contains_level
  contains_level-field_levels signed evidence trusted field a =
      elim (Bool-cases (withheld signed.report field)) [
        | inl w ↦ rw w (
            contains_level-insert_level a not_disclosed []
            ∙ or_false (level_eq a not_disclosed)
            ∙ hidden-is_supported signed evidence trusted field a w)
        | inr w ↦ rw w (
            contains_level-attested trusted (report_digest_hex p signed.report) field a
              evidence.attestations _
            ∙ ap
                (λ y.
                  attested_as trusted (report_digest_hex p signed.report) field a
                    evidence.attestations
                  || y)
                (contains_level-shown signed evidence trusted field a)
            ∙ shown-is_supported signed evidence trusted field a w)
      ]
