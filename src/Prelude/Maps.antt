-- ===== src/Prelude/Maps.antt =====
-- Rust's `BTreeMap` with text keys: its entries in bytewise key order. The operations that the
-- crates use, over the list of entries; iteration is the list itself.
pub mod Collect
pub mod Sums
use Prim.Native.Nat.{Ordering}
use Prim.Native.Nat.Ordering.{lt, eq, gt}
use mathlib.Core.Path.{◌≡◌, refl}
use mathlib.Core.Bool.{Bool, true, false, ◌||◌, ◌&&◌}
use mathlib.Core.List.{List, [], ◌∷◌, map}
use mathlib.Core.Option.{Option, none, some}
use mathlib.Core.Logic.{◌⊎◌, inl, inr}
use native.Mathlib.Omega.{arith}
use canton_assurance_layer.Prelude.Tests.{if◌then◌else◌}
use canton_assurance_layer.Prelude.Lists.{All}
use canton_assurance_layer.Prelude.Strings.{
  Text, text_eq, cmp, text_eq_iff, eq_of_cmp, cmp_refl, lt_of_gt, cmp_trans, Ordering-cases,
}

abbrev pub BTreeMap {ℓ} : Type ℓ → Type ℓ
BTreeMap V = List (Text × V)

module _ {ℓ} {V : Type ℓ} where
  abbrev pub get : Text → BTreeMap V → Option V
  get k [] = none
  get k ((j, v) ∷ m) = if text_eq j k then some v else get k m

  abbrev pub contains_key : Text → BTreeMap V → Bool
  contains_key k m = elim (get k m) [ none ↦ false | some v ↦ true ]

  -- `insert`: the value of an old key is replaced.
  unfoldable pub insert : Text → V → BTreeMap V → BTreeMap V
  insert k v [] = (k, v) ∷ []
  insert k v ((j, w) ∷ m) =
      let rest = insert k v m in
      elim (cmp k j) [ lt ↦ (k, v) ∷ (j, w) ∷ m | eq ↦ (k, v) ∷ m | gt ↦ (j, w) ∷ rest ]

  abbrev pub keys : BTreeMap V → List Text
  keys [] = []
  keys ((k, v) ∷ m) = k ∷ keys m

  -- Every key of the map lies above `k`.
  abbrev pub IsAbove : Text → BTreeMap V → Type 0
  IsAbove k [] = Unit
  IsAbove k ((j, v) ∷ m) = (cmp k j ≡ lt) × IsAbove k m

  -- The keys rise strictly, which every map that the program builds or reads satisfies.
  abbrev pub IsSorted : BTreeMap V → Type 0
  IsSorted [] = Unit
  IsSorted ((k, v) ∷ m) = IsAbove k m × IsSorted m

  pub get-insert :
      (k j : Text) (v : V) (m : BTreeMap V)
      → get j (insert k v m) ≡ (if text_eq k j then some v else get j m)
  unfolding insert
  get-insert k j v [] = refl
  get-insert k j v ((i, w) ∷ m) = elim (Ordering-cases (cmp k i)) [
    | inl e ↦ rw (e, get)
    | inr (inl e) ↦ rw (e, get) (ground (arith, eq_of_cmp k i))
    | inr (inr e) ↦
        rw (e, get)
          (ground (
            arith,
            get-insert k j v m,
            text_eq_iff k j,
            text_eq_iff i j,
            eq_of_cmp k i,
            cmp_refl k,
          ))
  ]

  pub IsAbove-insert :
      (b k : Text) (v : V) (m : BTreeMap V) → cmp b k ≡ lt → IsAbove b m → IsAbove b (insert k v m)
  unfolding insert
  IsAbove-insert b k v [] h a = (h, tt)
  IsAbove-insert b k v ((i, w) ∷ m) h a = ground (arith, IsAbove-insert b k v m h a.1)

  pub IsAbove-trans : (b k : Text) (m : BTreeMap V) → cmp b k ≡ lt → IsAbove k m → IsAbove b m
  IsAbove-trans b k [] h a = tt
  IsAbove-trans b k ((i, w) ∷ m) h a = (cmp_trans b k i h a.0, IsAbove-trans b k m h a.1)

  pub IsSorted-insert : (k : Text) (v : V) (m : BTreeMap V) → IsSorted m → IsSorted (insert k v m)
  unfolding insert
  IsSorted-insert k v [] s = (tt, tt)
  IsSorted-insert k v ((i, w) ∷ m) s = ground (
    arith,
    IsSorted-insert k v m s.1,
    IsAbove-insert i k v m,
    IsAbove-trans k i m,
    lt_of_gt k i,
    eq_of_cmp k i,
  )

  -- A key below all the map's keys is not in the map.
  pub get_above : (k : Text) (m : BTreeMap V) → IsAbove k m → get k m ≡ none
  get_above k [] a = refl
  get_above k ((j, v) ∷ m) a = ground (arith, get_above k m a.1, text_eq_iff j k, cmp_refl k)
