-- ===== src/Prelude/Space/Kept.antt =====
-- Trimming stops at a character that is not white space.
use Prim.Native.Nat.{ℕ, ◌≤◌}
use mathlib.Core.Path.{◌≡◌, refl}
use mathlib.Core.Logic.{inl, inr}
use mathlib.Core.Bool.{Bool, true, false, ◌&&◌, ◌||◌}
use mathlib.Core.List.{[], ◌∷◌, ◌++◌}
use native.Mathlib.Omega.{arith}
use canton_assurance_layer.Prelude.Tests.{Bool-cases, if◌then◌else◌}
use canton_assurance_layer.Prelude.Lists.{All}
use canton_assurance_layer.Prelude.Strings.{Text}
use canton_assurance_layer.Prelude.Space.{
  is_space1, is_space2, is_space3, is_blank, trim_start, trim_end, trim,
}

and_false : (a : Bool) → (a && false) ≡ false
and_false a = ground arith

no_blank :
    (one two three p q r : Bool)
    → p ≡ false
    → q ≡ false
    → r ≡ false
    → ((one && p) || ((two && q) || (three && r))) ≡ false
no_blank one two three p q r hp hq hr = ground arith

-- What a trimmed text is: the plain character's text behind a rest that all of something holds of.
abbrev pub Kept : (ℕ → Type 0) → Text → Text → Type 0
Kept P trimmed s = (rest : Text) × (trimmed ≡ rest ++ s) × All P rest

if-Kept :
    (P : ℕ → Type 0) (b : Bool) (u v s : Text)
    → Kept P u s
    → Kept P v s
    → Kept P (if b then u else v) s
if-Kept P true u v s h k = h
if-Kept P false u v s h k = k

trim_end-All : (P : ℕ → Type 0) (s : Text) → All P s → All P (trim_end s)
unfolding trim_end
trim_end-All P [] h = tt
trim_end-All P (a ∷ s) (ha, hs) = elim (Bool-cases (is_blank (a ∷ s))) [
  | inl e ↦ rw (trim_end, e) tt
  | inr e ↦ rw (trim_end, e) (ha, trim_end-All P s hs)
]

module _ (c : ℕ) (low : 33 ≤ c) (high : c ≤ 127) where
  is_space1-plain : is_space1 c ≡ false
  is_space1-plain = ground arith

  is_space2-first : (x : ℕ) → is_space2 c x ≡ false
  is_space2-first x = ground arith

  is_space2-last : (x : ℕ) → is_space2 x c ≡ false
  is_space2-last x = ground arith

  is_space3-first : (x y : ℕ) → is_space3 c x y ≡ false
  is_space3-first x y = ground arith

  is_space3-second : (x y : ℕ) → is_space3 x c y ≡ false
  is_space3-second x y = ground arith

  is_space3-last : (x y : ℕ) → is_space3 x y c ≡ false
  is_space3-last x y = ground arith

  is_blank-plain : (s t : Text) → is_blank (s ++ c ∷ t) ≡ false
  unfolding is_blank
  is_blank-plain [] [] = is_space1-plain
  is_blank-plain [] (x ∷ []) = rw (is_space1-plain, is_space2-first x) refl
  is_blank-plain [] (x ∷ y ∷ t) = rw (is_space1-plain, is_space2-first x, is_space3-first x y) refl
  is_blank-plain (a ∷ []) [] = rw (is_space1-plain, is_space2-last a, and_false (is_space1 a)) refl
  is_blank-plain (a ∷ []) (x ∷ t) =
      rw
        (is_blank-plain [] (x ∷ t), is_space2-last a, is_space3-second a x, and_false (is_space1 a))
        refl
  is_blank-plain (a ∷ b ∷ []) t =
      rw
        (
          is_blank-plain (b ∷ []) t,
          is_blank-plain [] t,
          is_space3-last a b,
          and_false (is_space1 a),
          and_false (is_space2 a b),
        )
        refl
  is_blank-plain (a ∷ b ∷ d ∷ s) t =
      no_blank (is_space1 a) (is_space2 a b) (is_space3 a b d) (is_blank (b ∷ d ∷ s ++ c ∷ t))
        (is_blank (d ∷ s ++ c ∷ t)) (is_blank (s ++ c ∷ t)) (is_blank-plain (b ∷ d ∷ s) t)
        (is_blank-plain (d ∷ s) t) (is_blank-plain s t)

  trim_end-plain : (s t : Text) → trim_end (s ++ c ∷ t) ≡ s ++ c ∷ trim_end t
  unfolding trim_end
  trim_end-plain [] t = rw (is_blank-plain [] t) refl
  trim_end-plain (a ∷ s) t = rw (is_blank-plain (a ∷ s) t, trim_end-plain s t) refl

  trim_start-plain : (t : Text) → trim_start (c ∷ t) ≡ c ∷ t
  unfolding trim_start
  trim_start-plain [] = rw (is_space1-plain) refl
  trim_start-plain (x ∷ []) = rw (is_space1-plain, is_space2-first x) refl
  trim_start-plain (x ∷ y ∷ t) = rw (is_space1-plain, is_space2-first x, is_space3-first x y) refl

  plain-Kept : (P : ℕ → Type 0) (t : Text) → Kept P (trim_start (c ∷ t)) (c ∷ t)
  plain-Kept P t = ([], trim_start-plain t, tt)

  trim_start-Kept :
      (P : ℕ → Type 0) (s t : Text) → All P s → Kept P (trim_start (s ++ c ∷ t)) (c ∷ t)
  unfolding trim_start
  trim_start-Kept P [] t h = plain-Kept P t
  trim_start-Kept P (a ∷ []) [] h = rw (is_space2-last a) (
      if-Kept P (is_space1 a) (trim_start (c ∷ [])) (a ∷ c ∷ []) (c ∷ []) (plain-Kept P [])
        (a ∷ [], refl, h))
  trim_start-Kept P (a ∷ []) (x ∷ t) h =
      rw (is_space2-last a, is_space3-second a x)
        (if-Kept P (is_space1 a) (trim_start (c ∷ x ∷ t)) (a ∷ c ∷ x ∷ t) (c ∷ x ∷ t)
          (plain-Kept P (x ∷ t)) (a ∷ [], refl, h))
  trim_start-Kept P (a ∷ b ∷ []) t (ha, hb) = rw (is_space3-last a b) (
      if-Kept P (is_space1 a) (trim_start (b ∷ c ∷ t)) _ (c ∷ t) (trim_start-Kept P (b ∷ []) t hb) (
        if-Kept P (is_space2 a b) (trim_start (c ∷ t)) (a ∷ b ∷ c ∷ t) (c ∷ t) (plain-Kept P t)
          (a ∷ b ∷ [], refl, (ha, hb))))
  trim_start-Kept P (a ∷ b ∷ d ∷ s) t (ha, (hb, (hd, hs))) =
      if-Kept P (is_space1 a) (trim_start (b ∷ d ∷ s ++ c ∷ t)) _ (c ∷ t)
        (trim_start-Kept P (b ∷ d ∷ s) t (hb, (hd, hs)))
        (if-Kept P (is_space2 a b) (trim_start (d ∷ s ++ c ∷ t)) _ (c ∷ t)
          (trim_start-Kept P (d ∷ s) t (hd, hs))
          (if-Kept P (is_space3 a b d) (trim_start (s ++ c ∷ t)) _ (c ∷ t)
            (trim_start-Kept P s t hs) (a ∷ b ∷ d ∷ s, refl, (ha, (hb, (hd, hs))))))

-- A text between two plain characters is trimmed outside of them only.
pub trim-between :
    (P Q : ℕ → Type 0) (c e : ℕ) (before middle after : Text)
    → (33 ≤ c) × (c ≤ 127)
    → (33 ≤ e) × (e ≤ 127)
    → All P before
    → All Q after
    → (first : Text) × (last : Text) × (trim (before ++ c ∷ (middle ++ e ∷ after))
        ≡ first ++ c ∷ (middle ++ e ∷ last))
      × All P first
      × All Q last
unfolding trim
trim-between P Q c e before middle after (c_low, c_high) (e_low, e_high) hp hq =
    let (first, eq, kept) = trim_start-Kept c c_low c_high P before (middle ++ e ∷ after) hp in
    (
      first,
      trim_end after,
      rw
          (
            eq,
            trim_end-plain c c_low c_high first (middle ++ e ∷ after),
            trim_end-plain e e_low e_high middle after,
          )
          refl,
      kept,
      trim_end-All Q after hq,
    )
