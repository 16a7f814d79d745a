-- ===== src/Prelude/Space.antt =====
-- White space as `str::trim` of the standard library takes it off: the characters of the Unicode
-- property White_Space, by their UTF-8 bytes.
pub mod Kept
use Prim.Native.Nat.{ℕ}
use mathlib.Core.Bool.{Bool, true, ◌&&◌, ◌||◌}
use mathlib.Core.List.{[], ◌∷◌}
use canton_assurance_layer.Prelude.Tests.{leb, ◌==◌, if◌then◌else◌}
use canton_assurance_layer.Prelude.Strings.{Text}

-- The white space that `str::trim` takes off, by the length of its UTF-8 form.
abbrev pub is_space1 : ℕ → Bool
is_space1 a = (a == 32) || (leb 9 a && leb a 13)

abbrev pub is_space2 : ℕ → ℕ → Bool
is_space2 a b = (a == 194) && ((b == 133) || (b == 160))

abbrev pub is_space3 : ℕ → ℕ → ℕ → Bool
is_space3 a b c =
    ((a == 225) && ((b == 154) && (c == 128)))
    || (((a == 226)
          && ((b == 128)
              && ((leb 128 c && leb c 138) || ((c == 168) || ((c == 169) || (c == 175))))))
        || (((a == 226) && ((b == 129) && (c == 159)))
            || ((a == 227) && ((b == 128) && (c == 128)))))

-- `s.trim().is_empty()`
unfoldable pub is_blank : Text → Bool
is_blank [] = true
is_blank (a ∷ []) = is_space1 a
is_blank (a ∷ b ∷ []) = (is_space1 a && is_space1 b) || is_space2 a b
is_blank (a ∷ b ∷ c ∷ s) =
    (is_space1 a && is_blank (b ∷ c ∷ s))
    || ((is_space2 a b && is_blank (c ∷ s)) || (is_space3 a b c && is_blank s))

-- `str::trim_start`
unfoldable pub trim_start : Text → Text
trim_start [] = []
trim_start (a ∷ []) = if is_space1 a then [] else a ∷ []
trim_start (a ∷ b ∷ []) =
    let one = trim_start (b ∷ []) in
    if is_space1 a then one else if is_space2 a b then [] else a ∷ b ∷ []
trim_start (a ∷ b ∷ c ∷ s) =
    let one = trim_start (b ∷ c ∷ s) in
    let two = trim_start (c ∷ s) in
    let three = trim_start s in
    if is_space1 a
    then one
    else if is_space2 a b
    then two
    else if is_space3 a b c
    then three
    else a ∷ b ∷ c ∷ s

-- `str::trim_end`: no suffix that begins inside a character is blank.
unfoldable pub trim_end : Text → Text
trim_end [] = []
trim_end (a ∷ s) = let rest = trim_end s in if is_blank (a ∷ s) then [] else a ∷ rest

unfoldable pub trim : Text → Text
trim s = trim_end (trim_start s)
