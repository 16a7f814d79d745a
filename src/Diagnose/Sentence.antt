-- ===== src/Diagnose/Sentence.antt =====
-- Where the first sentence of a cause can be cut.
use canton_assurance_layer.Prelude.{
  ℕ, suc, ◌+◌, ◌<◌, ◌≤◌, ◌≡◌, ◌↔◌, ◌⊎◌, refl, sym, arith, inl, inr, true, false, [], ◌∷◌, none,
  some, Text, codes, length, get_elem?, Bool-cases, Option-cases, strip_prefix, some_inj,
}
use canton_assurance_layer.Prelude.Space.{trim}
use canton_assurance_layer.Diagnose.{starts_with}
use canton_assurance_layer.Diagnose.Words.{
  is_continuation, is_char_boundary, find_stop, sentence_end, cut_at, cut_of, first_sentence,
}

-- A space stands at the index.
abbrev IsSpaceAt : Text → ℕ → Type 0
IsSpaceAt s i = (i < length s) × (get_elem? s i ≡ some 32)

stop-starts : (s : Text) → starts_with (codes ". ") s ≡ true → IsSpaceAt s 1
unfolding strip_prefix
stop-starts [] h = cc
stop-starts (c ∷ []) h = ground arith
stop-starts (c ∷ d ∷ s) h = ground arith

find_stop-IsSpaceAt : (s : Text) {i : ℕ} → find_stop s ≡ some i → IsSpaceAt s (suc i)
unfolding find_stop
find_stop-IsSpaceAt [] h = cc
find_stop-IsSpaceAt (c ∷ s) {i} h = elim (Bool-cases (starts_with (codes ". ") (c ∷ s))) [
  | inl e ↦
      let zero_eq : 0 ≡ i = some_inj (rw (find_stop, e) at h) in
      rw (sym zero_eq) (stop-starts (c ∷ s) e)
  | inr e ↦ elim (Option-cases (find_stop s)) [
    | inl n ↦ absurd (cc (rw (find_stop, e, n) at h))
    | inr (j, f) ↦
        let next : suc j ≡ i = some_inj (rw (find_stop, e, f) at h) in
        let (low, at) = find_stop-IsSpaceAt s f in rw (sym next) (omega arith, at)
  ]
]

end_of_text : (s : Text) → get_elem? s (length s) ≡ none
end_of_text [] = refl
end_of_text (c ∷ s) = end_of_text s

-- The end of the first sentence lies in the text, at the boundary of a character.
abbrev pub IsBoundary : Text → ℕ → Type 0
IsBoundary s i = (i ≤ length s) × (is_continuation (get_elem? s i) ≡ false)

sentence_end-IsBoundary : (s : Text) → IsBoundary s (sentence_end s)
unfolding sentence_end
sentence_end-IsBoundary s = elim (Option-cases (find_stop s)) [
  | inl n ↦ rw (sentence_end, n) (omega arith, rw (end_of_text s) refl)
  | inr (i, f) ↦
      let (low, at) = find_stop-IsSpaceAt s f in
      let next : i + 1 ≡ suc i = omega arith in
      rw (sentence_end, f, next) (omega arith, rw (at) refl)
]

cut_at-none :
    (s : Text) (i : ℕ)
    → i ≤ length s
    → (cut_at s i ≡ none) ↔ (is_continuation (get_elem? s i) ≡ true)
unfolding is_char_boundary cut_at
cut_at-none s i h = elim (Bool-cases (is_continuation (get_elem? s i))) [
  | inl e ↦ rw (e) (ground arith)
  | inr e ↦ rw (e) (ground arith)
]

cut_of-cases :
    (s : Text)
    → ((sentence_end s ≤ 240) × (cut_of s ≡ sentence_end s))
      ⊎ ((240 < sentence_end s) × (cut_of s ≡ 240))
unfolding cut_of
cut_of-cases s = ground arith

cut_none :
    (s : Text)
    → (cut_at s (cut_of s) ≡ none)
      ↔ ((240 < sentence_end s) × (is_continuation (get_elem? s 240) ≡ true))
cut_none s =
    let (inside, boundary) = sentence_end-IsBoundary s in
    elim (cut_of-cases s) [
      | inl (short, e) ↦ rw (e) (
        λ h. absurd (cc ((cut_at-none s (sentence_end s) inside).0 h, boundary)),
        λ h. absurd (omega arith),
      )
      | inr (long, e) ↦
          let there = cut_at-none s 240 (omega arith) in
          rw (e) (λ h. (long, there.0 h), λ h. there.1 h.1)
    ]

-- first_sentence panics exactly where the first sentence of the trimmed text is longer than 240
-- bytes, and byte 240 does not begin a character.
pub first_sentence-none :
    (s : Text)
    → (first_sentence s ≡ none)
      ↔ ((240 < sentence_end (trim s)) × (is_continuation (get_elem? (trim s) 240) ≡ true))
unfolding first_sentence
first_sentence-none s = cut_none (trim s)
