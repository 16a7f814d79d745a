-- ===== src/Prelude/Strings.antt =====
-- Text as its UTF-8 bytes: equality, the bytewise order of `str`, prefixes and literals.
-- Every operation that the crates apply to a `String` here works on bytes.
use Prim.Native.Nat.{ℕ, ◌<◌, compare, Ordering}
use Prim.Native.Nat.Ordering.{lt, eq, gt}
use Prim.Native.Char.{code}
use Prim.Native.String.{String}
use mathlib.Core.Path.{◌≡◌, refl}
use mathlib.Core.Logic.{◌↔◌, ◌⊎◌, inl, inr}
use mathlib.Core.Bool.{Bool, true, false, ◌&&◌}
use mathlib.Core.List.{List, [], ◌∷◌, ◌++◌}
use mathlib.Core.Option.{Option, none, some}
use native.Mathlib.Omega.{arith}
use canton_assurance_layer.Prelude.Tests.{◌==◌, if◌then◌else◌}
use canton_assurance_layer.Prelude.Lists.{All}

abbrev pub Bytes : Type 0
Bytes = List ℕ

abbrev pub Text : Type 0
Text = List ℕ

abbrev pub IsBytes : Bytes → Type 0
IsBytes = All (λ b. b < 256)

-- The bytes of an ASCII literal.
abbrev pub codes : String → Bytes
codes String.[] = []
codes (String.◌∷◌ c s) = code c ∷ codes s

unfoldable pub text_eq : Text → Text → Bool
text_eq [] [] = true
text_eq [] (y ∷ t) = false
text_eq (x ∷ s) [] = false
text_eq (x ∷ s) (y ∷ t) = (x == y) && text_eq s t

-- `str::cmp`
unfoldable pub cmp : Text → Text → Ordering
cmp [] [] = eq
cmp [] (y ∷ t) = lt
cmp (x ∷ s) [] = gt
cmp (x ∷ s) (y ∷ t) = let rest = cmp s t in elim (compare x y) [ lt ↦ lt | eq ↦ rest | gt ↦ gt ]

abbrev pub text_lt : Text → Text → Bool
text_lt s t = elim (cmp s t) [ lt ↦ true | _ ↦ false ]

abbrev pub text_le : Text → Text → Bool
text_le s t = elim (cmp s t) [ gt ↦ false | _ ↦ true ]

pub text_eq_refl : (s : Text) → text_eq s s ≡ true
unfolding text_eq
text_eq_refl [] = refl
text_eq_refl (x ∷ s) = ground (arith, text_eq_refl s)

pub text_eq→eq : (s t : Text) → text_eq s t ≡ true → s ≡ t
unfolding text_eq
text_eq→eq [] [] h = refl
text_eq→eq [] (y ∷ t) h = cc
text_eq→eq (x ∷ s) [] h = cc
text_eq→eq (x ∷ s) (y ∷ t) h = ground (arith, text_eq→eq s t)

pub text_eq_iff : (s t : Text) → (text_eq s t ≡ true) ↔ (s ≡ t)
text_eq_iff s t = (text_eq→eq s t, λ e. cc (e, text_eq_refl s))

pub Ordering-cases : (o : Ordering) → (o ≡ lt) ⊎ ((o ≡ eq) ⊎ (o ≡ gt))
Ordering-cases lt = inl refl
Ordering-cases eq = inr (inl refl)
Ordering-cases gt = inr (inr refl)

pub cmp_refl : (s : Text) → cmp s s ≡ eq
unfolding cmp
cmp_refl [] = refl
cmp_refl (x ∷ s) = ground (arith, cmp_refl s)

pub eq_of_cmp : (s t : Text) → cmp s t ≡ eq → s ≡ t
unfolding cmp
eq_of_cmp [] [] h = refl
eq_of_cmp [] (y ∷ t) h = cc
eq_of_cmp (x ∷ s) [] h = cc
eq_of_cmp (x ∷ s) (y ∷ t) h = ground (arith, eq_of_cmp s t)

pub lt_of_gt : (s t : Text) → cmp s t ≡ gt → cmp t s ≡ lt
unfolding cmp
lt_of_gt [] [] h = cc
lt_of_gt [] (y ∷ t) h = cc
lt_of_gt (x ∷ s) [] h = refl
lt_of_gt (x ∷ s) (y ∷ t) h = ground (arith, lt_of_gt s t)

pub gt_of_lt : (s t : Text) → cmp s t ≡ lt → cmp t s ≡ gt
unfolding cmp
gt_of_lt [] [] h = cc
gt_of_lt [] (y ∷ t) h = refl
gt_of_lt (x ∷ s) [] h = cc
gt_of_lt (x ∷ s) (y ∷ t) h = ground (arith, gt_of_lt s t)

pub cmp_trans : (s t u : Text) → cmp s t ≡ lt → cmp t u ≡ lt → cmp s u ≡ lt
unfolding cmp
cmp_trans [] [] u h k = cc
cmp_trans [] (y ∷ t) [] h k = cc
cmp_trans [] (y ∷ t) (z ∷ u) h k = refl
cmp_trans (x ∷ s) [] u h k = cc
cmp_trans (x ∷ s) (y ∷ t) [] h k = cc
cmp_trans (x ∷ s) (y ∷ t) (z ∷ u) h k = ground (arith, cmp_trans s t u)

-- `str::strip_prefix`
unfoldable pub strip_prefix : Text → Text → Option Text
strip_prefix [] s = some s
strip_prefix (p ∷ ps) [] = none
strip_prefix (p ∷ ps) (c ∷ s) = let rest = strip_prefix ps s in if p == c then rest else none

pub strip_prefix-append : (p s : Text) → strip_prefix p (p ++ s) ≡ some s
unfolding strip_prefix
strip_prefix-append [] s = refl
strip_prefix-append (c ∷ p) s = ground (arith, strip_prefix-append p s)

pub append_of_strip : (p s : Text) {r : Text} → strip_prefix p s ≡ some r → s ≡ p ++ r
unfolding strip_prefix
append_of_strip [] s h = cc
append_of_strip (c ∷ p) [] h = cc
append_of_strip (c ∷ p) (d ∷ s) {r} h = ground (arith, append_of_strip p s {r = r})
