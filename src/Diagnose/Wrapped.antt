-- ===== src/Diagnose/Wrapped.antt =====
-- A JSON error inside other text, as the clients of HTTP services print it.
use canton_assurance_layer.Prelude.{
  ℕ, suc, ◌+◌, ◌-◌, ◌≡◌, refl, sym, ◌∙◌, arith, true, false, ltb, [], ◌∷◌, ◌++◌, append_assoc,
  Option, none, some, Text, ◌==◌, length, length-append, take, All,
}
use canton_assurance_layer.Prelude.Space.Kept.{trim-between}
use canton_assurance_layer.Service.Keystore.Store.{taken_first, dropped_first}
use canton_assurance_layer.Diagnose.{LedgerError, CatalogEntry}
use canton_assurance_layer.Diagnose.Extract.{CausePatterns, extract}
use canton_assurance_layer.Diagnose.Answer.{diagnose}
use canton_assurance_layer.Diagnose.Ledger.{
  Json, Patterns, from_json, parse_inner, parse, from_text, extract_wrapped_status,
}
use canton_assurance_layer.Diagnose.Scan.{find, rfind, find_json_object}

abbrev pub IsNot : ℕ → ℕ → Type 0
IsNot c d = (d == c) ≡ false

find-first : (c : ℕ) (p s : Text) → All (IsNot c) p → find c (p ++ c ∷ s) ≡ some (length p)
unfolding find
find-first c [] s h = ground arith
find-first c (d ∷ p) s (h, hs) = rw (h, find-first c p s hs) refl

rfind-none : (c : ℕ) (s : Text) → All (IsNot c) s → rfind c s ≡ none
unfolding rfind
rfind-none c [] h = refl
rfind-none c (d ∷ s) (h, hs) = rw (h, rfind-none c s hs) refl

rfind-last : (c : ℕ) (p s : Text) → All (IsNot c) s → rfind c (p ++ c ∷ s) ≡ some (length p)
unfolding rfind
rfind-last c [] s h = rw (rfind-none c s h) (ground arith)
rfind-last c (d ∷ p) s h = rw (rfind-last c p s h) refl

find_json_object-between :
    (first middle last : Text)
    → All (IsNot 123) first
    → All (IsNot 125) last
    → find_json_object (first ++ 123 ∷ (middle ++ 125 ∷ last)) ≡ some (123 ∷ (middle ++ 125 ∷ []))
unfolding find_json_object
find_json_object-between first middle last h k =
    let n = length first in
    let m = length middle in
    let rest = middle ++ 125 ∷ last in
    let end_at : rfind 125 (first ++ 123 ∷ rest) ≡ some (n + suc m) =
      rw
        (
          sym (append_assoc first (123 ∷ middle) (125 ∷ last)),
          sym (length-append first (123 ∷ middle)),
        )
        (rfind-last 125 (first ++ 123 ∷ middle) last k) in
    let inside : take (suc m) rest ≡ middle ++ 125 ∷ [] =
      rw (sym (append_assoc middle (125 ∷ []) last)) (
        taken_first (middle ++ 125 ∷ []) last (suc m)
          (length-append middle (125 ∷ []) ∙ omega arith)) in
    let order : ltb n (n + suc m) ≡ true = ground arith in
    let width : n + suc m - n + 1 ≡ suc (suc m) = omega arith in
    rw
      (
        find-first 123 first rest h,
        end_at,
        order,
        width,
        dropped_first first (123 ∷ rest) n refl,
        inside,
      )
      refl

module _ (catalog : Text → Option CatalogEntry) (patterns : Patterns) (json : Json) where
  parse_inner-between :
      (before middle after : Text) {v : json.Value} {error : LedgerError}
      → json.from_str (123 ∷ (middle ++ 125 ∷ [])) ≡ some v
      → from_json json v ≡ some error
      → All (IsNot 123) before
      → All (IsNot 125) after
      → parse_inner catalog patterns json (before ++ 123 ∷ (middle ++ 125 ∷ after)) ≡ error
  unfolding parse_inner
  parse_inner-between before middle after hv he h k =
      let (first, last, eq, hf, hl) =
        trim-between (IsNot 123) (IsNot 125) 123 125 before middle after (omega arith, omega arith)
          (omega arith, omega arith) h k in
      rw (eq, find_json_object-between first middle last hf hl, hv, he) refl

  -- A text in which an error in JSON stands between its first opening and its last closing brace is diagnosed as that error is, but for the status and the raw text that the diagnosed error then has.
  pub diagnose-from_text :
      (re : CausePatterns) (before middle after : Text) {v : json.Value} {error : LedgerError}
      → json.from_str (123 ∷ (middle ++ 125 ∷ [])) ≡ some v
      → from_json json v ≡ some error
      → All (IsNot 123) before
      → All (IsNot 125) after
      → (let text = before ++ 123 ∷ (middle ++ 125 ∷ after) in
          diagnose re catalog (from_text catalog patterns json text)
          ≡ record (diagnose re catalog error) {
            error = record error { http_status = extract_wrapped_status patterns text; raw = text };
          })
  unfolding diagnose from_text parse extract
  diagnose-from_text re before middle after hv he h k =
      rw (parse_inner-between before middle after hv he h k) refl
