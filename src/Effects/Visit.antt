-- ===== src/Effects/Visit.antt =====
-- What one walk keeps: every node of a known type is listed once it is visited, and once only.
use canton_assurance_layer.Prelude.{
  ℕ, suc, zero, ◌+◌, ◌≡◌, refl, subst, ap, ◌∙◌, arith, Bool, true, false, ◌&&◌, List, [], ◌∷◌, ◌++◌,
  Option, none, some, Text, text_eq, text_eq_refl, text_eq_iff, Bool-cases, inl, inr, length,
  length-append, BTreeMap, get, contains_key, insert, get-insert, if◌then◌else◌, Result, ok,
  >>=-eq-ok, ok-injective,
}
use canton_assurance_layer.Effects.Model.{
  NodeType, Node, EffectNode, EffectCounts, Walk, create, exercise, fetch, rollback,
}
use canton_assurance_layer.Effects.{
  Exhausted, children_of, effect, count, mark, visit, walk_each, walk,
}

pub contains_key-insert {ℓ} :
    {V : Type ℓ} (k j : Text) (v : V) (m : BTreeMap V)
    → contains_key j (insert k v m) ≡ (if text_eq k j then true else contains_key j m)
contains_key-insert {V = V} k j v m =
    ap (λ (o : Option V). elim o [ none ↦ false | some w ↦ true ]) (get-insert k j v m)
    ∙ elim (Bool-cases (text_eq k j)) [ inl e ↦ rw e refl | inr e ↦ rw e refl ]

abbrev pub one_if : Bool → ℕ
one_if true = 1
one_if false = 0

module _ {Value : Type 0} where
  -- How many of the nodes have the id.
  unfoldable pub listed : Text → List (EffectNode Value) → ℕ
  listed id [] = 0
  listed id (e ∷ nodes) = one_if (text_eq e.node_id id) + listed id nodes

  listed-append :
      (id : Text) (xs ys : List (EffectNode Value))
      → listed id (xs ++ ys) ≡ listed id xs + listed id ys
  unfolding listed
  listed-append id [] ys = omega arith
  listed-append id (x ∷ xs) ys = omega (arith, listed-append id xs ys)

abbrev pub is_known : {LfValue : Type 0} → Option (Node LfValue) → Bool
is_known (some (some t)) = true
is_known _ = false

abbrev pub counted : EffectCounts → ℕ
counted n = n.creates + (n.exercises + (n.fetches + n.rollbacks))

module _ {LfValue Value : Type 0} (value_to_json : LfValue → Value) (include_arguments : Bool) where
  effect-node_id :
      (id : Text) (depth : ℕ) (t : NodeType LfValue)
      → (effect value_to_json include_arguments id depth t).node_id ≡ id
  unfolding effect
  effect-node_id id depth (create c) = refl
  effect-node_id id depth (exercise e) = refl
  effect-node_id id depth (fetch f) = refl
  effect-node_id id depth (rollback children) = refl

  count-counted :
      (t : NodeType LfValue) (n : EffectCounts)
      → counted (count value_to_json include_arguments t n) ≡ counted n + 1
  count-counted (create c) n = omega arith
  count-counted (exercise e) n = omega arith
  count-counted (fetch f) n = omega arith
  count-counted (rollback children) n = omega arith

  module _ (by_id : BTreeMap (Node LfValue)) where
    -- Each node of a known type is listed once if it is visited, and else not; and the counts are
    -- of the nodes that are listed.
    pub record Holds (s : Walk Value) : Type 0 where
      pub once :
          (id : Text)
          → listed id s.nodes ≡ one_if (contains_key id s.visited && is_known (get id by_id))
      pub counts : counted s.counts ≡ length s.nodes

    nothing : (b : Bool) → one_if (b && false) ≡ 0
    nothing true = refl
    nothing false = refl

    mark-Holds :
        (id : Text) (s : Walk Value) → is_known (get id by_id) ≡ false → Holds s → Holds (mark id s)
    mark-Holds id s u h = record {
      once = λ j. elim (Bool-cases (text_eq id j)) [
        | inl e ↦
            let known = subst (λ k. is_known (get k by_id) ≡ false) ((text_eq_iff id j).0 e) u in
            rw (h.once j, contains_key-insert id j tt s.visited, e, known)
              (nothing (contains_key j s.visited))
        | inr e ↦ rw (h.once j, contains_key-insert id j tt s.visited, e) refl
      ];
      counts = h.counts;
    }

    visit-Holds :
        (id : Text) (depth : ℕ) (t : NodeType LfValue) (s : Walk Value)
        → contains_key id s.visited ≡ false
        → get id by_id ≡ some (some t)
        → Holds s
        → Holds (visit value_to_json include_arguments id depth t (mark id s))
    unfolding visit listed
    visit-Holds id depth t s new e h = record {
      once = λ j. elim (Bool-cases (text_eq id j)) [
        | inl f ↦
            let same = (text_eq_iff id j).0 f in
            let fresh = subst (λ k. contains_key k s.visited ≡ false) same new in
            let known = subst (λ k. get k by_id ≡ some (some t)) same e in
            rw
              (
                listed-append j s.nodes _,
                h.once j,
                effect-node_id id depth t,
                contains_key-insert id j tt s.visited,
                f,
                fresh,
                known,
              )
              refl
        | inr f ↦
            rw
              (
                listed-append j s.nodes _,
                h.once j,
                effect-node_id id depth t,
                contains_key-insert id j tt s.visited,
                f,
              )
              (omega arith)
      ];
      counts = omega (
        arith,
        h.counts,
        count-counted t s.counts,
        length-append s.nodes (effect value_to_json include_arguments id depth t ∷ []),
      );
    }

    -- What a walk keeps of the state before it.
    abbrev pub Kept : Walk Value → Walk Value → Type 0
    Kept s r =
        (Holds s → Holds r)
        × ((k : Text) → contains_key k s.visited ≡ true → contains_key k r.visited ≡ true)

    mark-visited :
        (id : Text) (s : Walk Value) (k : Text)
        → contains_key k s.visited ≡ true
        → contains_key k (mark id s).visited ≡ true
    mark-visited id s k h = rw (contains_key-insert id k tt s.visited, h) (either (text_eq id k))
      where
        either : (b : Bool) → (if b then true else true) ≡ true
        either true = refl
        either false = refl

    mark-itself : (id : Text) (s : Walk Value) → contains_key id (mark id s).visited ≡ true
    mark-itself id s = rw (contains_key-insert id id tt s.visited, text_eq_refl id) refl

    pub walk_each-Kept :
        (go : Text → Walk Value → Result Exhausted (Walk Value)) (wanted : Text → Walk Value → Bool)
        → ((id : Text) (s r : Walk Value) → go id s ≡ ok r → Kept s r)
        → (ids : List Text) (s r : Walk Value) → walk_each go wanted ids s ≡ ok r
        → Kept s r
    unfolding walk_each
    walk_each-Kept go wanted kept [] s r h = subst (Kept s) (ok-injective h) ((λ x. x), (λ k x. x))
    walk_each-Kept go wanted kept (id ∷ ids) s r h =
        let (next, e, h1) = >>=-eq-ok (if wanted id s then go id s else ok s) _ h in
        let (holds, grows) = walk_each-Kept go wanted kept ids next r h1 in
        let (first, begun) = once_kept (wanted id s) next e in
        ((λ x. holds (first x)), (λ k x. grows k (begun k x)))
      where
        once_kept :
            (b : Bool) (next : Walk Value) → (if b then go id s else ok s) ≡ ok next → Kept s next
        once_kept true next e = kept id s next e
        once_kept false next e = subst (Kept s) (ok-injective e) ((λ x. x), (λ k x. x))

    stopped-Kept :
        (id : Text) (s r : Walk Value)
        → is_known (get id by_id) ≡ false
        → mark id s ≡ r
        → Kept s r × (contains_key id r.visited ≡ true)
    stopped-Kept id s r u same =
        subst (λ (x : Walk Value). Kept s x × (contains_key id x.visited ≡ true)) same
          ((mark-Holds id s u, mark-visited id s), mark-itself id s)

    -- A walk at a node that is new, by what the node is.
    opened-Kept :
        (fuel : ℕ) (id : Text) (depth : ℕ) (s r : Walk Value)
        → ((c : Text) (x y : Walk Value)
            → walk value_to_json include_arguments by_id fuel c (depth + 1) x ≡ ok y
            → Kept x y)
        → walk value_to_json include_arguments by_id (suc fuel) id depth s ≡ ok r
        → contains_key id s.visited ≡ false
        → (o : Option (Node LfValue)) → get id by_id ≡ o
        → Kept s r × (contains_key id r.visited ≡ true)
    unfolding walk visit
    opened-Kept fuel id depth s r below h e none g =
        stopped-Kept id s r (rw g refl) (ok-injective (rw (e, g) at h))
    opened-Kept fuel id depth s r below h e (some none) g =
        stopped-Kept id s r (rw g refl) (ok-injective (rw (e, g) at h))
    opened-Kept fuel id depth s r below h e (some (some t)) g =
        let (holds, grows) =
          walk_each-Kept (λ c x. walk value_to_json include_arguments by_id fuel c (depth + 1) x)
            (λ c x. contains_key c by_id) below (children_of t) _ r (rw (e, g) at h) in
        (
          ((λ x. holds (visit-Holds id depth t s e g x)), (λ k x. grows k (mark-visited id s k x))),
          grows id (mark-itself id s),
        )

    pub walk-Kept :
        (fuel : ℕ) (id : Text) (depth : ℕ) (s r : Walk Value)
        → walk value_to_json include_arguments by_id fuel id depth s ≡ ok r
        → Kept s r × (contains_key id r.visited ≡ true)
    unfolding walk visit
    walk-Kept zero id depth s r h = cc
    walk-Kept (suc fuel) id depth s r h = elim (Bool-cases (contains_key id s.visited)) [
      | inl e ↦
          let same : s ≡ r = ok-injective (rw e at h) in
          (
            subst (Kept s) same ((λ x. x), (λ k x. x)),
            subst (λ (x : Walk Value). contains_key id x.visited ≡ true) same e,
          )
      | inr e ↦
          opened-Kept fuel id depth s r (λ c x y w. (walk-Kept fuel c (depth + 1) x y w).0) h e
            (get id by_id) refl
    ]
