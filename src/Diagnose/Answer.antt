-- ===== src/Diagnose/Answer.antt =====
-- rust/sim-diagnose/src/classify.rs: `diagnose`, the explanation of a parsed error.
use canton_assurance_layer.Prelude.{ℕ, Bool, not, ◌&&◌, Option, none, some, Text}
use canton_assurance_layer.Diagnose.{
  Phase, LedgerError, CatalogEntry, lookup, phase_for, category_name, may_retry, is_definite,
}
use canton_assurance_layer.Diagnose.Extract.{CausePatterns, Extracted, extract}

-- The explanation of a rejection, but for what `specialise` composes: the title, the summary and the
-- hints.
pub record Diagnosis : Type 0 where
  pub code : Text
  pub phase : Phase
  pub category : Option Text
  pub explanation : Option Text
  pub resolution : Option Text
  pub extracted : Extracted
  pub retryable : Bool
  pub definite_answer : Option Bool
  pub catalog_source : Option Text
  pub error : LedgerError

abbrev pub of_entry : (CatalogEntry → Text) → Option CatalogEntry → Option Text
of_entry field none = none
of_entry field (some entry) = some (field entry)

abbrev pub category_of : Option ℕ → Option CatalogEntry → Option Text
category_of (some category) entry = some (category_name category)
category_of none entry = of_entry (λ e. e.category) entry

unfoldable pub diagnose : CausePatterns → (Text → Option CatalogEntry) → LedgerError → Diagnosis
diagnose re catalog error =
    let entry = lookup catalog error.code in
    record {
      code = error.code;
      phase = phase_for error.code;
      category = category_of error.error_category entry;
      explanation = of_entry (λ e. e.explanation) entry;
      resolution = of_entry (λ e. e.resolution) entry;
      extracted = extract re error;
      retryable =
          may_retry error.error_category error.code && not (is_definite error.definite_answer);
      definite_answer = error.definite_answer;
      catalog_source = of_entry (λ e. e.source) entry;
      error = error;
    }
