-- ===== src/Prelude/Int.antt =====
-- Signed integers over the native numbers, with the truncating division of `i64`.
use canton_assurance_layer.Prelude.Tests.{leb, if◌then◌else◌}
use Prim.Native.Nat.{ℕ, suc, ◌+◌, ◌-◌, ◌*◌, ◌/◌}
use mathlib.Core.Path.{◌≡◌}
use mathlib.Core.Bool.{Bool}
use native.Mathlib.Omega.{arith}

-- `negsuc n` is -(n + 1).
pub data ℤ : Type 0 where
  pos : ℕ → ℤ
  negsuc : ℕ → ℤ

abbrev pub pos_part : ℤ → ℕ
pos_part (pos n) = n
pos_part (negsuc n) = 0

abbrev pub neg_part : ℤ → ℕ
neg_part (pos n) = 0
neg_part (negsuc n) = suc n

-- a - b, as an integer.
abbrev pub sub_ℕ : ℕ → ℕ → ℤ
sub_ℕ a b = if leb b a then pos (a - b) else negsuc (b - a - 1)

infixl 65 ◌+ℤ◌ ◌-ℤ◌
infixl 70 ◌*ℤ◌ ◌/ℤ◌
unfoldable pub ◌+ℤ◌ : ℤ → ℤ → ℤ
a +ℤ b = sub_ℕ (pos_part a + pos_part b) (neg_part a + neg_part b)

unfoldable pub ◌-ℤ◌ : ℤ → ℤ → ℤ
a -ℤ b = sub_ℕ (pos_part a + neg_part b) (neg_part a + pos_part b)

unfoldable pub ◌*ℤ◌ : ℤ → ℤ → ℤ
a *ℤ b =
    sub_ℕ (pos_part a * pos_part b + neg_part a * neg_part b)
      (pos_part a * neg_part b + neg_part a * pos_part b)

-- Division by a positive constant, towards zero.
unfoldable pub ◌/ℤ◌ : ℤ → ℕ → ℤ
a /ℤ b = sub_ℕ (pos_part a / b) (neg_part a / b)

abbrev pub is_nonneg : ℤ → Bool
is_nonneg a = leb (neg_part a) (pos_part a)

-- `i64::abs_diff`
unfoldable pub abs_diff : ℤ → ℤ → ℕ
abs_diff a b =
    let x = pos_part a + neg_part b in
    let y = pos_part b + neg_part a in if leb y x then x - y else y - x

pub abs_diff_comm : (a b : ℤ) → abs_diff a b ≡ abs_diff b a
unfolding abs_diff
abs_diff_comm a b = ground arith

pub abs_diff_self : (a : ℤ) → abs_diff a a ≡ 0
unfolding abs_diff
abs_diff_self a = ground arith
