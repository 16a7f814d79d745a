-- ===== src/Prelude/Maps/Collect.antt =====
-- A map read entry by entry, in the order of the text: a later entry replaces an earlier one with
-- the same key.
use Prim.Native.Nat.Ordering.{lt}
use mathlib.Core.Path.{◌≡◌, refl, ◌∙◌, sym}
use mathlib.Core.List.{List, [], ◌∷◌, ◌++◌, append_assoc, append-nil}
use canton_assurance_layer.Prelude.Strings.{Text, cmp, gt_of_lt}
use canton_assurance_layer.Prelude.Maps.{BTreeMap, insert, IsAbove, IsSorted}

module _ {ℓ} {V : Type ℓ} where
  unfoldable pub collect_into : BTreeMap V → List (Text × V) → BTreeMap V
  collect_into m [] = m
  collect_into m ((k, v) ∷ entries) = collect_into (insert k v m) entries

  above_last :
      (i k : Text) (v : V) (m rest : BTreeMap V) → IsAbove i (m ++ (k, v) ∷ rest) → cmp i k ≡ lt
  above_last i k v [] rest a = a.0
  above_last i k v ((j, w) ∷ m) rest a = above_last i k v m rest a.1

  insert-last :
      (k : Text) (v : V) (m rest : BTreeMap V)
      → IsSorted (m ++ (k, v) ∷ rest)
      → insert k v m ≡ m ++ (k, v) ∷ []
  unfolding insert
  insert-last k v [] rest s = refl
  insert-last k v ((i, w) ∷ m) rest (a, s) =
      rw (insert, gt_of_lt i k (above_last i k v m rest a), insert-last k v m rest s) refl

  -- Entries in rising order of keys are the map.
  pub collect_into-sorted :
      (m entries : BTreeMap V) → IsSorted (m ++ entries) → collect_into m entries ≡ m ++ entries
  unfolding collect_into
  collect_into-sorted m [] s = sym (append-nil m)
  collect_into-sorted m ((k, v) ∷ entries) s =
      let e = append_assoc m ((k, v) ∷ []) entries in
      rw (insert-last k v m entries s)
        (collect_into-sorted (m ++ (k, v) ∷ []) entries (rw (e) s) ∙ e)
