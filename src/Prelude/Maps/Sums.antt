-- ===== src/Prelude/Maps/Sums.antt =====
-- Maps of amounts, read per key: an absent key stands for zero.
use Prim.Native.Nat.{ℕ, ◌+◌}
use mathlib.Core.Path.{◌≡◌, refl}
use mathlib.Core.List.{[], ◌∷◌}
use mathlib.Core.Option.{Option, none, some}
use native.Mathlib.Omega.{arith}
use canton_assurance_layer.Prelude.Tests.{if◌then◌else◌}
use canton_assurance_layer.Prelude.Strings.{Text, text_eq, text_eq_iff}
use canton_assurance_layer.Prelude.Maps.{BTreeMap, get, IsSorted, get_above}

-- `.copied().unwrap_or(0)`
abbrev pub or_zero : Option ℕ → ℕ
or_zero none = 0
or_zero (some v) = v

abbrev pub amount : Text → BTreeMap ℕ → ℕ
amount k m = or_zero (get k m)

-- What a walk over the entries finds under `k`, all together.
unfoldable pub amounts : Text → BTreeMap ℕ → ℕ
amounts k [] = 0
amounts k ((j, v) ∷ m) = (if text_eq j k then v else 0) + amounts k m

amounts-above : (k : Text) (m : BTreeMap ℕ) → get k m ≡ none → amounts k m ≡ 0
unfolding amounts
amounts-above k [] h = refl
amounts-above k ((j, v) ∷ m) h = ground (arith, amounts-above k m)

-- In a sorted map a key stands once.
pub amounts-eq-amount : (k : Text) (m : BTreeMap ℕ) → IsSorted m → amounts k m ≡ amount k m
unfolding amounts
amounts-eq-amount k [] s = refl
amounts-eq-amount k ((j, v) ∷ m) s =
    ground (arith, amounts-eq-amount k m s.1, text_eq_iff j k, get_above j m s.0, amounts-above k m)
