-- ===== src/Effects/Fuel.antt =====
-- The fuel of the walk is enough: each level of it visits a node that was not visited before.
use canton_assurance_layer.Prelude.{
  ℕ, suc, zero, ◌+◌, ◌≤◌, ◌<◌, ◌≡◌, refl, sym, subst, arith, Bool, true, false, not, List, [], ◌∷◌,
  Option, none, some, Text, text_eq, text_eq_iff, Bool-cases, inl, inr, length, BTreeMap, get,
  contains_key, insert, if◌then◌else◌, Result, ok,
}
use canton_assurance_layer.Effects.Model.{BTreeSet, Node, Walk}
use canton_assurance_layer.Effects.{
  Exhausted, start, index_nodes, ids, children_of, mark, visit, walk_each, walk, walk_all,
}
use canton_assurance_layer.Effects.Visit.{contains_key-insert, walk-Kept}

-- How many of the map's entries have a key outside the set.
unfoldable unvisited : {V : Type 0} → BTreeMap V → BTreeSet → ℕ
unvisited [] set = 0
unvisited ((k, v) ∷ m) set = (if contains_key k set then 0 else 1) + unvisited m set

IsWithin : BTreeSet → BTreeSet → Type 0
IsWithin small large = (k : Text) → contains_key k small ≡ true → contains_key k large ≡ true

unvisited-IsWithin :
    {V : Type 0} (m : BTreeMap V) (small large : BTreeSet)
    → IsWithin small large
    → unvisited m large ≤ unvisited m small
unfolding unvisited IsWithin
unvisited-IsWithin [] small large w = omega arith
unvisited-IsWithin ((k, v) ∷ m) small large w =
    ground (arith, unvisited-IsWithin m small large w, w k)

unvisited-length : {V : Type 0} (m : BTreeMap V) → unvisited m [] ≡ length m
unfolding unvisited
unvisited-length [] = refl
unvisited-length ((k, v) ∷ m) = omega (arith, unvisited-length m)

unvisited-bounded :
    {V : Type 0} (m : BTreeMap V) (set : BTreeSet) → unvisited m set < suc (length m)
unfolding IsWithin
unvisited-bounded m set =
    let most = unvisited-IsWithin m [] set (λ k h. cc) in omega (arith, most, unvisited-length m)

insert-IsWithin : (id : Text) (set : BTreeSet) → IsWithin set (insert id tt set)
unfolding IsWithin
insert-IsWithin id set k h = ground (arith, contains_key-insert id k tt set)

unvisited-insert :
    {V : Type 0} (m : BTreeMap V) (id : Text) (set : BTreeSet) {v : V}
    → contains_key id set ≡ false
    → get id m ≡ some v
    → unvisited m (insert id tt set) < unvisited m set
unfolding unvisited
unvisited-insert [] id set {v = v} new e = cc
unvisited-insert ((k, w) ∷ m) id set {v = v} new e = elim (Bool-cases (text_eq k id)) [
  | inl f ↦
      let same : k ≡ id = (text_eq_iff k id).0 f in
      let fresh = subst (λ x. contains_key x set ≡ false) (sym same) new in
      let rest = unvisited-IsWithin m set (insert id tt set) (insert-IsWithin id set) in
      ground (arith, contains_key-insert id k tt set, (text_eq_iff id k).1 (sym same), fresh, rest)
  | inr f ↦
      let rest = unvisited-insert m id set {v = v} new (rw f at e) in
      let apart : text_eq id k ≡ false = ground (arith, text_eq_iff id k, text_eq_iff k id) in
      rw (contains_key-insert id k tt set, apart) (omega (arith, rest))
]

module _ {LfValue Value : Type 0} (value_to_json : LfValue → Value) (include_arguments : Bool)
    (by_id : BTreeMap (Node LfValue)) where
  -- A loop returns where each walk in it does, which it need only where few nodes are left.
  walk_each-total :
      (fuel : ℕ) (go : Text → Walk Value → Result Exhausted (Walk Value))
      (wanted : Text → Walk Value → Bool)
      → ((id : Text) (s : Walk Value)
          → unvisited by_id s.visited < fuel
          → (r : Walk Value) × (go id s ≡ ok r))
      → ((id : Text) (s r : Walk Value) → go id s ≡ ok r → IsWithin s.visited r.visited)
      → (each : List Text) (s : Walk Value) → unvisited by_id s.visited < fuel
      → (r : Walk Value) × (walk_each go wanted each s ≡ ok r)
  unfolding walk_each
  walk_each-total fuel go wanted returns grows [] s few = (s, refl)
  walk_each-total fuel go wanted returns grows (id ∷ each) s few = elim (Bool-cases (wanted id s)) [
    | inl w ↦
        let (next, e) = returns id s few in
        let left = unvisited-IsWithin by_id s.visited next.visited (grows id s next e) in
        let (r, f) =
          walk_each-total fuel go wanted returns grows each next (omega (arith, few, left)) in
        (r, rw (w, e) f)
    | inr w ↦ let (r, f) = walk_each-total fuel go wanted returns grows each s few in (r, rw w f)
  ]

  walk-IsWithin :
      (fuel : ℕ) (id : Text) (depth : ℕ) (s r : Walk Value)
      → walk value_to_json include_arguments by_id fuel id depth s ≡ ok r
      → IsWithin s.visited r.visited
  unfolding IsWithin
  walk-IsWithin fuel id depth s r e =
      (walk-Kept value_to_json include_arguments by_id fuel id depth s r e).0.1

  opened-total :
      (fuel : ℕ) (id : Text) (depth : ℕ) (s : Walk Value)
      → ((c : Text) (x : Walk Value)
          → unvisited by_id x.visited < fuel
          → (r : Walk Value) × (walk value_to_json include_arguments by_id fuel c (depth + 1) x
              ≡ ok r))
      → unvisited by_id s.visited < suc fuel
      → contains_key id s.visited ≡ false
      → (o : Option (Node LfValue)) → get id by_id ≡ o
      → (r : Walk Value) × (walk value_to_json include_arguments by_id (suc fuel) id depth s ≡ ok r)
  unfolding walk visit
  opened-total fuel id depth s below few e none g = (mark id s, rw (e, g) refl)
  opened-total fuel id depth s below few e (some none) g = (mark id s, rw (e, g) refl)
  opened-total fuel id depth s below few e (some (some t)) g =
      let less = unvisited-insert by_id id s.visited {v = some t} e g in
      let (r, f) =
        walk_each-total fuel
          (λ c x. walk value_to_json include_arguments by_id fuel c (depth + 1) x)
          (λ c x. contains_key c by_id) below (λ c x y w. walk-IsWithin fuel c (depth + 1) x y w)
          (children_of t) (visit value_to_json include_arguments id depth t (mark id s))
          (omega (arith, few, less)) in
      (r, rw (e, g) f)

  walk-total :
      (fuel : ℕ) (id : Text) (depth : ℕ) (s : Walk Value)
      → unvisited by_id s.visited < fuel
      → (r : Walk Value) × (walk value_to_json include_arguments by_id fuel id depth s ≡ ok r)
  unfolding walk visit
  walk-total zero id depth s few = absurd (omega (arith, few))
  walk-total (suc fuel) id depth s few = elim (Bool-cases (contains_key id s.visited)) [
    | inl e ↦ (s, rw e refl)
    | inr e ↦
        opened-total fuel id depth s (λ c x. walk-total fuel c (depth + 1) x) few e (get id by_id)
          refl
  ]

module _ {LfValue Value : Type 0} (value_to_json : LfValue → Value) (include_arguments : Bool) where
  -- The walks of every transaction return: the fuel is enough for any roots and nodes, also where
  -- nodes are missing or are their own descendants.
  pub walk_all-total :
      (roots : List Text) (nodes : List (Text × Option (Node LfValue)))
      → (r : Walk Value) × (walk_all value_to_json include_arguments roots nodes ≡ ok r)
  unfolding walk_all
  walk_all-total roots nodes =
      let by_id = index_nodes nodes [] in
      let fuel = suc (length by_id) in
      let go =
        λ (id : Text) (s : Walk Value). walk value_to_json include_arguments by_id fuel id 0 s in
      let returns = λ (id : Text) (s : Walk Value).
        walk-total value_to_json include_arguments by_id fuel id 0 s in
      let grows = λ (id : Text) (s r : Walk Value).
        walk-IsWithin value_to_json include_arguments by_id fuel id 0 s r in
      let enough = λ (s : Walk Value). unvisited-bounded by_id s.visited in
      let (rooted, e) =
        walk_each-total value_to_json include_arguments by_id fuel go (λ id s. true) returns grows
          roots (start) (enough (start)) in
      let (r, f) =
        walk_each-total value_to_json include_arguments by_id fuel go
          (λ id s. not (contains_key id s.visited)) returns grows (ids nodes) rooted
          (enough rooted) in
      (r, rw e f)
