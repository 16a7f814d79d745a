-- ===== src/Report/Manifest/Diff.antt =====
-- rust/solvency-report/src/manifest.rs: `ManifestChange` and `diff`.
use Prim.Native.Nat.Ordering.{lt, eq, gt}
use canton_assurance_layer.Prelude.{
  Bool, false, not, ◌&&◌, List, [], ◌∷◌, Option, none, some, Text, cmp, if◌then◌else◌, ◌++◌, get,
  keys,
}
use canton_assurance_layer.Report.Document.{Disclosure, published, Manifest}
use canton_assurance_layer.Report.Manifest.{disclosure_eq}

pub data ManifestChange : Type 0 where
  added : Text → Disclosure → ManifestChange
  removed : Text → Disclosure → ManifestChange
  changed : Text → Disclosure → Disclosure → ManifestChange

abbrev pub path : ManifestChange → Text
path (added p state) = p
path (removed p was) = p
path (changed p from to) = p

unfoldable pub is_reduction : ManifestChange → Bool
is_reduction (added p state) = false
is_reduction (removed p was) = disclosure_eq was published
is_reduction (changed p from to) = disclosure_eq from published && not (disclosure_eq to published)

-- `sort` then `dedup` of the paths: each name once, in bytewise order.
unfoldable pub insert_path : Text → List Text → List Text
insert_path k [] = k ∷ []
insert_path k (j ∷ l) =
    let rest = insert_path k l in elim (cmp k j) [ lt ↦ k ∷ j ∷ l | eq ↦ j ∷ l | gt ↦ j ∷ rest ]

unfoldable pub sort_dedup : List Text → List Text
sort_dedup [] = []
sort_dedup (k ∷ l) = insert_path k (sort_dedup l)

-- The body of the `filter_map`; both absent is unreachable in the source.
unfoldable pub change_at : Text → Option Disclosure → Option Disclosure → List ManifestChange
change_at p (some from) (some to) = if disclosure_eq from to then [] else changed p from to ∷ []
change_at p none (some state) = added p state ∷ []
change_at p (some was) none = removed p was ∷ []
change_at p none none = []

unfoldable pub changes : List Text → Manifest → Manifest → List ManifestChange
changes [] previous current = []
changes (p ∷ ps) previous current =
    change_at p (get p previous.fields) (get p current.fields) ++ changes ps previous current

unfoldable pub diff : Manifest → Manifest → List ManifestChange
diff previous current =
    changes (sort_dedup (keys previous.fields ++ keys current.fields)) previous current
