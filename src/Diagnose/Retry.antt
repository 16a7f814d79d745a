-- ===== src/Diagnose/Retry.antt =====
-- Which errors are worth trying again: none that the request itself causes.
use canton_assurance_layer.Prelude.{
  ◌≡◌, refl, sym, subst, arith, inl, inr, Bool, true, false, not, ◌&&◌, List, [], ◌∷◌, none, Option,
  Text, text_eq, text_eq_iff, All, strip_prefix, &&_iff, Bool-cases,
}
use canton_assurance_layer.Cli.Run.{ends_with}
use canton_assurance_layer.Diagnose.{
  Phase, sequencing, confirmation, participant, LedgerError, CatalogEntry, retryable_codes, one_of,
  phase_by_shape, phase_of_upper, phase_for, retryable_by_code, may_retry, is_definite,
}
use canton_assurance_layer.Diagnose.Extract.{CausePatterns}
use canton_assurance_layer.Diagnose.Answer.{diagnose}

-- The phases that another attempt may get past.
abbrev pub is_transient : Phase → Bool
is_transient sequencing = true
is_transient confirmation = true
is_transient participant = true
is_transient _ = false

member_of : (P : Text → Type 0) (l : List Text) (s : Text) → All P l → one_of l s ≡ true → P s
member_of P [] s a h = cc
member_of P (x ∷ l) s (a, rest) h = elim (Bool-cases (text_eq s x)) [
  | inl e ↦ subst P (sym ((text_eq_iff s x).0 e)) a
  | inr e ↦ member_of P l s rest (rw e at h)
]

retryable_codes-All : All (λ c. is_transient (phase_for c) ≡ true) retryable_codes
unfolding phase_for phase_of_upper phase_by_shape text_eq strip_prefix ends_with
retryable_codes-All = (
  refl,
  (refl, (refl, (refl, (refl, (refl, (refl, (refl, (refl, (refl, (refl, (refl, tt))))))))))),
)

-- An error without a category that diagnose calls retryable failed in sequencing, in confirmation
-- or in the participant, and the participant did not declare its answer definite.
pub diagnose-retryable :
    (re : CausePatterns) (catalog : Text → Option CatalogEntry) (error : LedgerError)
    → error.error_category ≡ none
    → (diagnose re catalog error).retryable ≡ true
    → (is_transient (diagnose re catalog error).phase ≡ true)
      × (is_definite error.definite_answer ≡ false)
unfolding diagnose retryable_by_code
diagnose-retryable re catalog error c h =
    let q =
      subst (λ x. (may_retry x error.code && not (is_definite error.definite_answer)) ≡ true) c h in
    let (r, d) = (&&_iff _ _).0 q in
    (
      member_of (λ k. is_transient (phase_for k) ≡ true) retryable_codes error.code
          retryable_codes-All r,
      ground arith,
    )
