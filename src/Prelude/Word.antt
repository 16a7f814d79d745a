-- ===== src/Prelude/Word.antt =====
-- Machine words: the bounds of `u64` and `u128`, their checked operations, and the eight
-- little-endian bytes of a `u64`.
use Prim.Native.Nat.{ℕ, zero, suc, ◌+◌, ◌*◌, ◌/◌, ◌%◌, ◌^◌, ◌<◌}
use mathlib.Core.Path.{◌≡◌, refl}
use mathlib.Core.List.{[], ◌∷◌}
use mathlib.Core.Option.{Option, none, some}
use native.Mathlib.Omega.{arith}
use canton_assurance_layer.Prelude.Tests.{ltb, if◌then◌else◌}
use canton_assurance_layer.Prelude.Lists.{length}
use canton_assurance_layer.Prelude.Strings.{Bytes, IsBytes}

abbrev pub u64_mod : ℕ
u64_mod = 2 ^ 64

abbrev pub u128_mod : ℕ
u128_mod = 2 ^ 128

-- `u128::checked_add` and `u128::checked_mul`
unfoldable pub checked_add : ℕ → ℕ → Option ℕ
checked_add a b = if ltb (a + b) u128_mod then some (a + b) else none

unfoldable pub checked_mul : ℕ → ℕ → Option ℕ
checked_mul a b = if ltb (a * b) u128_mod then some (a * b) else none

pub checked_add-eq-some :
    (a b : ℕ) {c : ℕ} → checked_add a b ≡ some c → (c ≡ a + b) × (c < u128_mod)
unfolding checked_add
checked_add-eq-some a b h = ground arith

pub checked_add_fits : (a b : ℕ) → a + b < u128_mod → checked_add a b ≡ some (a + b)
unfolding checked_add
checked_add_fits a b h = ground arith

-- The low `w` bytes of a number, least significant first; `to_le_bytes` is eight of them.
unfoldable pub le_bytes : ℕ → ℕ → Bytes
le_bytes zero n = []
le_bytes (suc w) n = (n % 256) ∷ le_bytes w (n / 256)

unfoldable pub u64le : ℕ → Bytes
unfolding le_bytes
u64le n = le_bytes 8 n

pub length-le_bytes : (w n : ℕ) → length (le_bytes w n) ≡ w
unfolding le_bytes
length-le_bytes zero n = refl
length-le_bytes (suc w) n = omega (arith, length-le_bytes w (n / 256))

pub le_bytes-IsBytes : (w n : ℕ) → IsBytes (le_bytes w n)
unfolding le_bytes
le_bytes-IsBytes zero n = tt
le_bytes-IsBytes (suc w) n = (omega arith, le_bytes-IsBytes w (n / 256))

pub length-u64le : (n : ℕ) → length (u64le n) ≡ 8
unfolding u64le
length-u64le n = refl

-- The value that little-endian bytes spell.
value_le : Bytes → ℕ
value_le [] = 0
value_le (b ∷ bs) = b + 256 * value_le bs

value_le-u64le : (n : ℕ) → n < u64_mod → value_le (u64le n) ≡ n
unfolding value_le u64le
value_le-u64le n h = omega arith

-- On `u64` the encoding loses nothing.
pub u64le_inj : (m n : ℕ) → m < u64_mod → n < u64_mod → u64le m ≡ u64le n → m ≡ n
u64le_inj m n hm hn h = cc (value_le-u64le m hm, value_le-u64le n hn, h)
