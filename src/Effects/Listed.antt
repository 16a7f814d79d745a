-- ===== src/Effects/Listed.antt =====
-- The nodes that the effects of a transaction list.
use canton_assurance_layer.Prelude.{
  suc, ◌≡◌, refl, sym, subst, arith, Bool, true, not, ◌||◌, List, [], ◌∷◌, Option, none, some, Text,
  text_eq, text_eq_iff, Bool-cases, inl, inr, length, any, BTreeMap, get, contains_key, insert,
  get-insert, if◌then◌else◌, Result, ok, >>=-eq-ok, ok-injective,
}
use canton_assurance_layer.Effects.Model.{Node, Walk}
use canton_assurance_layer.Effects.{Exhausted, start, index_nodes, ids, walk_each, walk, walk_all}
use canton_assurance_layer.Effects.Visit.{
  listed, one_if, is_known, counted, Holds, Kept, walk_each-Kept, walk-Kept,
}

module _ {LfValue Value : Type 0} (value_to_json : LfValue → Value) (include_arguments : Bool) where
  -- A node that is indexed is one of the transaction's.
  index_nodes-any :
      (nodes : List (Text × Option (Node LfValue))) (by_id : BTreeMap (Node LfValue)) (id : Text)
      → is_known (get id (index_nodes nodes by_id)) ≡ true
      → (any (text_eq id) (ids nodes) || is_known (get id by_id)) ≡ true
  unfolding index_nodes
  index_nodes-any [] by_id id h = h
  index_nodes-any ((j, none) ∷ nodes) by_id id h = ground (arith, index_nodes-any nodes by_id id h)
  index_nodes-any ((j, some v1) ∷ nodes) by_id id h =
      let q = index_nodes-any nodes (insert j v1 by_id) id h in
      elim (Bool-cases (text_eq j id)) [
        | inl e ↦ rw ((text_eq_iff id j).1 (sym ((text_eq_iff j id).0 e))) refl
        | inr e ↦ let known = (rw (get-insert j id v1 by_id, e) at q) in ground (arith, known)
      ]

  module _ (by_id : BTreeMap (Node LfValue))
      (go : Text → Walk Value → Result Exhausted (Walk Value))
      (kept : (id : Text) (s r : Walk Value)
        → go id s ≡ ok r
        → Kept value_to_json include_arguments by_id s r × (contains_key id r.visited ≡ true)) where
    walk_each-visited :
        (each : List Text) (s r : Walk Value)
        → walk_each go (λ id x. not (contains_key id x.visited)) each s ≡ ok r
        → (id : Text) → any (text_eq id) each ≡ true
        → contains_key id r.visited ≡ true
    unfolding walk_each
    walk_each-visited [] s r h id m = cc
    walk_each-visited (j ∷ each) s r h id m =
        let (next, e, h1) =
          >>=-eq-ok (if not (contains_key j s.visited) then go j s else ok s) _ h in
        let (_, grows) =
          walk_each-Kept value_to_json include_arguments by_id go
            (λ id x. not (contains_key id x.visited)) (λ c x y w. (kept c x y w).0) each next r
            h1 in
        elim (Bool-cases (text_eq id j)) [
          | inl f ↦ grows id (
              subst (λ k. contains_key k next.visited ≡ true) (sym ((text_eq_iff id j).0 f))
                (begun next e))
          | inr f ↦ walk_each-visited each next r h1 id (rw f at m)
        ]
      where
        begun :
            (next : Walk Value)
            → (if not (contains_key j s.visited) then go j s else ok s) ≡ ok next
            → contains_key j next.visited ≡ true
        begun next e = elim (Bool-cases (contains_key j s.visited)) [
          | inl seen ↦
              subst (λ (x : Walk Value). contains_key j x.visited ≡ true)
                (ok-injective (rw seen at e)) seen
          | inr new ↦ (kept j s next (rw new at e)).1
        ]

  start-Holds :
      (by_id : BTreeMap (Node LfValue)) → Holds value_to_json include_arguments by_id (start)
  unfolding listed
  start-Holds by_id = record { once = λ id. refl; counts = refl }

  -- Where the nodes are walked from the roots and then from all that are left, every node of a known
  -- type is listed exactly once, no other is, and the counts are of the nodes that are listed.
  pub walk_all-listed :
      (roots : List Text) (nodes : List (Text × Option (Node LfValue))) (r : Walk Value)
      → walk_all value_to_json include_arguments roots nodes ≡ ok r
      → ((id : Text) → listed id r.nodes ≡ one_if (is_known (get id (index_nodes nodes []))))
        × (counted r.counts ≡ length r.nodes)
  unfolding walk_all
  walk_all-listed roots nodes r h =
      let by_id = index_nodes nodes [] in
      let go = λ (id : Text) (s : Walk Value).
        walk value_to_json include_arguments by_id (suc (length by_id)) id 0 s in
      let kept = λ (id : Text) (s r : Walk Value) (e : go id s ≡ ok r).
        walk-Kept value_to_json include_arguments by_id (suc (length by_id)) id 0 s r e in
      let plain = λ (id : Text) (s r : Walk Value) (e : go id s ≡ ok r). (kept id s r e).0 in
      let (rooted, e, h1) = >>=-eq-ok (walk_each go (λ id s. true) roots (start)) _ h in
      let first =
        (walk_each-Kept value_to_json include_arguments by_id go (λ id s. true) plain roots _ rooted
            e).0
          (start-Holds by_id) in
      let last =
        (walk_each-Kept value_to_json include_arguments by_id go
            (λ id s. not (contains_key id s.visited)) plain _ rooted r h1).0
          first in
      (
        (λ id. elim (Bool-cases (is_known (get id by_id))) [
          | inl k ↦
              let m = index_nodes-any nodes [] id k in
              let v = walk_each-visited by_id go kept _ rooted r h1 id (ground (arith, m)) in
              rw (last.once id, v) refl
          | inr k ↦ rw (last.once id, k) (ground arith)
        ]),
        last.counts,
      )
