-- ===== src/Report/Manifest/Changes.antt =====
-- rust/solvency-report/src/manifest.rs: which manifests have no difference.
use canton_assurance_layer.Prelude.{
  ◌≡◌, ◌↔◌, ◌⊎◌, refl, sym, ap, ◌∙◌, inl, inr, Bool-cases, true, List, [], ◌∷◌, ◌++◌, Option, none,
  some, Text, BTreeMap, get, keys, All, cmp, Ordering-cases, eq_of_cmp, text_eq, text_eq_iff, subst,
}
use canton_assurance_layer.Report.Document.{Disclosure, published, committed, withheld, Manifest}
use canton_assurance_layer.Report.Manifest.{disclosure_eq}
use canton_assurance_layer.Report.Manifest.Diff.{insert_path, sort_dedup, change_at, changes, diff}

disclosure_eq→eq : (a b : Disclosure) → disclosure_eq a b ≡ true → a ≡ b
disclosure_eq→eq published published h = refl
disclosure_eq→eq published committed h = cc
disclosure_eq→eq published withheld h = cc
disclosure_eq→eq committed published h = cc
disclosure_eq→eq committed committed h = refl
disclosure_eq→eq committed withheld h = cc
disclosure_eq→eq withheld published h = cc
disclosure_eq→eq withheld committed h = cc
disclosure_eq→eq withheld withheld h = refl

change_at-empty : (k : Text) (x y : Option Disclosure) → change_at k x y ≡ [] → x ≡ y
unfolding change_at
change_at-empty k none none h = refl
change_at-empty k none (some b) h = cc
change_at-empty k (some a) none h = cc
change_at-empty k (some a) (some b) h = elim (Bool-cases (disclosure_eq a b)) [
  | inl e ↦ ap some (disclosure_eq→eq a b e)
  | inr e ↦ absurd (cc (e, h))
]

change_at-same : (k : Text) (x : Option Disclosure) → change_at k x x ≡ []
unfolding change_at
change_at-same k none = refl
change_at-same k (some published) = refl
change_at-same k (some committed) = refl
change_at-same k (some withheld) = refl

append_empty {ℓ} : {A : Type ℓ} (xs ys : List A) → xs ++ ys ≡ [] → (xs ≡ []) × (ys ≡ [])
append_empty [] ys h = (refl, h)
append_empty (x ∷ xs) ys h = absurd (cc)

abbrev Agree : Manifest → Manifest → Text → Type 0
Agree a b k = get k a.fields ≡ get k b.fields

changes-All : (ps : List Text) (a b : Manifest) → changes ps a b ≡ [] → All (Agree a b) ps
unfolding changes
changes-All [] a b h = tt
changes-All (k ∷ ps) a b h =
    let (x, y) = append_empty (change_at k (get k a.fields) (get k b.fields)) (changes ps a b) h in
    (change_at-empty k _ _ x, changes-All ps a b y)

changes-same : (ps : List Text) (a b : Manifest) → ((k : Text) → Agree a b k) → changes ps a b ≡ []
unfolding changes
changes-same [] a b h = refl
changes-same (k ∷ ps) a b h = rw (h k, change_at-same k (get k b.fields)) (changes-same ps a b h)

All-insert_path :
    (P : Text → Type 0) (k : Text) (l : List Text) → All P (insert_path k l) → P k × All P l
unfolding insert_path
All-insert_path P k [] h = (h.0, tt)
All-insert_path P k (j ∷ l) h = elim (Ordering-cases (cmp k j)) [
  | inl e ↦
      let s : insert_path k (j ∷ l) ≡ k ∷ j ∷ l = rw (insert_path, e) refl in
      let q = subst (All P) s h in q
  | inr (inl e) ↦
      let s : insert_path k (j ∷ l) ≡ j ∷ l = rw (insert_path, e) refl in
      let q = subst (All P) s h in (subst P (sym (eq_of_cmp k j e)) q.0, q)
  | inr (inr e) ↦
      let s : insert_path k (j ∷ l) ≡ j ∷ insert_path k l = rw (insert_path, e) refl in
      let q = subst (All P) s h in let (a, b) = All-insert_path P k l q.1 in (a, (q.0, b))
]

pub All-sort_dedup : (P : Text → Type 0) (l : List Text) → All P (sort_dedup l) → All P l
unfolding sort_dedup
All-sort_dedup P [] h = tt
All-sort_dedup P (k ∷ l) h =
    let (a, b) = All-insert_path P k (sort_dedup l) h in (a, All-sort_dedup P l b)

pub All-split : (P : Text → Type 0) (xs ys : List Text) → All P (xs ++ ys) → All P xs × All P ys
All-split P [] ys h = (tt, h)
All-split P (x ∷ xs) ys (h, hs) = let (a, b) = All-split P xs ys hs in ((h, a), b)

pub absent_or {ℓ} :
    {V : Type ℓ} (P : Text → Type 0) (k : Text) (m : BTreeMap V)
    → All P (keys m)
    → (get k m ≡ none) ⊎ P k
absent_or P k [] h = inl refl
absent_or P k ((j, v) ∷ m) (h, hs) = elim (Bool-cases (text_eq j k)) [
  | inl e ↦ inr (subst P ((text_eq_iff j k).0 e) h)
  | inr e ↦ rw e (absent_or P k m hs)
]

-- `diff` reports no change exactly where the two manifests declare the same state for every field,
-- and nothing for the same fields.
pub diff-empty :
    (previous current : Manifest)
    → (diff previous current ≡ []) ↔ ((k : Text) → get k previous.fields ≡ get k current.fields)
unfolding diff
diff-empty previous current =
    (to, changes-same (sort_dedup (keys previous.fields ++ keys current.fields)) previous current)
  where
    to :
        changes (sort_dedup (keys previous.fields ++ keys current.fields)) previous current ≡ []
        → (k : Text) → Agree previous current k
    to h k =
        let names = keys previous.fields ++ keys current.fields in
        let all =
          All-sort_dedup (Agree previous current) names
            (changes-All (sort_dedup names) previous current h) in
        let (x, y) =
          All-split (Agree previous current) (keys previous.fields) (keys current.fields) all in
        elim (absent_or (Agree previous current) k previous.fields x) [
          | inr e ↦ e
          | inl e ↦ elim (absent_or (Agree previous current) k current.fields y) [
            | inr r ↦ r
            | inl r ↦ (e ∙ sym r)
          ]
        ]
