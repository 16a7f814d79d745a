-- ===== src/Report/Assurance/Sets.antt =====
-- rust/solvency-report/src/assurance.rs: membership in a set of levels.
use canton_assurance_layer.Prelude.{
  ◌≡◌, refl, sym, ap, ◌∙◌, inl, inr, Bool, Bool-cases, true, false, ◌&&◌, ◌||◌, List, [], ◌∷◌, any,
  ==_iff, ◌==◌, ltb,
}
use canton_assurance_layer.Report.Verify.Failure.{AssuranceLevel}
use canton_assurance_layer.Report.Assurance.{
  level_eq, strength, insert_level, insert_if, contains_level,
}

pub or_idem : (x y : Bool) → (x || y) ≡ (x || (x || y))
or_idem true y = refl
or_idem false y = refl

pub or_swap : (x y z : Bool) → (x || (y || z)) ≡ (y || (x || z))
or_swap true true z = refl
or_swap true false z = refl
or_swap false y z = refl

pub or_assoc : (x y z : Bool) → (x || (y || z)) ≡ ((x || y) || z)
or_assoc true y z = refl
or_assoc false y z = refl

pub or_false : (x : Bool) → (x || false) ≡ x
or_false true = refl
or_false false = refl

-- How the flags of a level that is not in play fall out, for each of the levels.
pub none_or : (x y : Bool) → ((x && false) || ((y && false) || false)) ≡ false
none_or true true = refl
none_or true false = refl
none_or false true = refl
none_or false false = refl

pub claimed_or : (x y : Bool) → ((x && false) || ((y && false) || true)) ≡ true
claimed_or true true = refl
claimed_or true false = refl
claimed_or false true = refl
claimed_or false false = refl

pub three_or : (a x y : Bool) → (a || ((x && false) || ((y && false) || false))) ≡ a
three_or a x y = ap (λ r. a || r) (none_or x y) ∙ or_false a

pub pinned_or : (x y : Bool) → ((x && true) || ((y && false) || false)) ≡ x
pinned_or true y = refl
pinned_or false true = refl
pinned_or false false = refl

pub recomputed_or : (x y : Bool) → ((x && false) || ((y && true) || false)) ≡ y
recomputed_or true true = refl
recomputed_or true false = refl
recomputed_or false true = refl
recomputed_or false false = refl

pub contains_level-insert_level :
    (a b : AssuranceLevel) (l : List AssuranceLevel)
    → contains_level a (insert_level b l) ≡ (level_eq a b || contains_level a l)
unfolding contains_level insert_level
contains_level-insert_level a b [] = refl
contains_level-insert_level a b (c ∷ l) = elim (Bool-cases (ltb (strength b) (strength c))) [
  | inl below ↦ rw below refl
  | inr above ↦ elim (Bool-cases (level_eq b c)) [
    | inl same ↦
        let e : level_eq a c ≡ level_eq a b =
          ap (λ n. strength a == n) (sym ((==_iff (strength b) (strength c)).0 same)) in
        rw (above, same, e) (or_idem (level_eq a b) (any (level_eq a) l))
    | inr other ↦
        rw (above, other)
          (ap (λ r. level_eq a c || r) (contains_level-insert_level a b l)
            ∙ or_swap (level_eq a c) (level_eq a b) (any (level_eq a) l))
  ]
]

pub contains_level-insert_if :
    (t : Bool) (a b : AssuranceLevel) (l : List AssuranceLevel)
    → contains_level a (insert_if t b l) ≡ ((t && level_eq a b) || contains_level a l)
contains_level-insert_if true a b l = contains_level-insert_level a b l
contains_level-insert_if false a b l = refl
