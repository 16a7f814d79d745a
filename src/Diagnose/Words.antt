-- ===== src/Diagnose/Words.antt =====
-- rust/sim-diagnose/src/classify.rs: the hints that every diagnosis has, and the sentences and
-- identifiers that it quotes. A slice of a text that cuts a character in two is a panic, `none` here.
use canton_assurance_layer.Prelude.{
  ℕ, suc, ◌+◌, ◌-◌, Bool, true, false, not, ◌&&◌, List, [], ◌∷◌, ◌++◌, Option, none, some, Text,
  codes, ◌==◌, ltb, leb, length, take, drop, map, is_empty, get_elem?, if◌then◌else◌,
}
use canton_assurance_layer.Prelude.Space.{trim}
use canton_assurance_layer.Report.Pack.{lower}
use canton_assurance_layer.Diagnose.{
  Phase, request, interpretation, authorization, sequencing, confirmation, LedgerError, upper,
  one_of, starts_with,
}
use canton_assurance_layer.Diagnose.Scan.{option_map}

abbrev pub is_continuation : Option ℕ → Bool
is_continuation none = false
is_continuation (some b) = leb 128 b && leb b 191

-- `str::is_char_boundary`, up to the end of the text
unfoldable pub is_char_boundary : Text → ℕ → Bool
is_char_boundary s i = leb i (length s) && not (is_continuation (get_elem? s i))

-- `s.find(". ")`
unfoldable pub find_stop : Text → Option ℕ
find_stop [] = none
find_stop (c ∷ s) =
    let rest = find_stop s in
    if starts_with (codes ". ") (c ∷ s) then some 0 else option_map (λ i. suc i) rest

-- The end of the first sentence.
abbrev pub stop_or_end : Option ℕ → Text → ℕ
stop_or_end none s = length s
stop_or_end (some i) s = i + 1

unfoldable pub sentence_end : Text → ℕ
sentence_end s = stop_or_end (find_stop s) s

unfoldable pub cut_of : Text → ℕ
cut_of s = if ltb (sentence_end s) 240 then sentence_end s else 240

abbrev pub ellipsis : Text
ellipsis = 226 ∷ 128 ∷ 166 ∷ []

unfoldable pub cut_at : Text → ℕ → Option Text
cut_at s cut =
    if is_char_boundary s cut
    then some (trim (take cut s) ++ (if ltb cut (length s) then ellipsis else []))
    else none

unfoldable pub first_sentence : Text → Option Text
first_sentence s = cut_at (trim s) (cut_of (trim s))

unfoldable pub short_cid : Text → Option Text
short_cid cid =
    if ltb 18 (length cid)
    then if is_char_boundary cid 10 && is_char_boundary cid (length cid - 6)
      then some (take 10 cid ++ ellipsis ++ drop (length cid - 6) cid)
      else none
    else if is_empty cid
    then some (codes "(unknown id)")
    else some cid

abbrev pub capital : Text → Text
capital [] = []
capital (c ∷ s) = if ltb c 128 then upper c ∷ s else c ∷ s

unfoldable pub humanize : Text → Text
humanize code = capital (map (λ c. if c == 95 then 32 else lower c) code)

abbrev pub unsent_hint : Text
unsent_hint =
    codes
      "This failure happens on the preparing participant: nothing was sent to the synchronizer and no traffic was consumed."

abbrev pub charged_hint : Text
charged_hint =
    codes
      "This failure happens after submission: traffic for the confirmation request is consumed even though the transaction is rejected."

abbrev pub phase_hints : Phase → List Text
phase_hints interpretation = unsent_hint ∷ []
phase_hints authorization = unsent_hint ∷ []
phase_hints request = unsent_hint ∷ []
phase_hints confirmation = charged_hint ∷ []
phase_hints sequencing = charged_hint ∷ []
phase_hints _ = []

abbrev pub correlation_hints : Option Text → List Text
correlation_hints none = []
correlation_hints (some cid) =
    (codes "Correlate with participant logs using correlationId " ++ cid ++ codes ".") ∷ []

unfoldable pub generic_hints : LedgerError → Phase → List Text
generic_hints error phase = phase_hints phase ++ correlation_hints error.correlation_id

-- The hints that stay, behind those seen.
unfoldable pub dedup_from : List Text → List Text → List Text
dedup_from seen [] = []
dedup_from seen (h ∷ hints) = elim (one_of seen h) [
  | true ↦ dedup_from seen hints
  | false ↦ h ∷ dedup_from (h ∷ seen) hints
]

abbrev pub dedup : List Text → List Text
dedup hints = dedup_from [] hints
