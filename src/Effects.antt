-- ===== src/Effects.antt =====
-- rust/sim-core/src/prepared.rs: the effects of a prepared transaction, its forest of nodes walked
-- in depth. The JSON form of a value is a parameter.
pub mod Model
pub mod Prepared
pub mod Visit
pub mod Fuel
pub mod Listed
pub mod Complete
use canton_assurance_layer.Prelude.{
  ℕ, suc, zero, ◌+◌, Bool, true, false, not, List, [], ◌∷◌, ◌++◌, Option, none, some, Text, codes,
  is_empty, length, BTreeMap, get, contains_key, insert, if◌then◌else◌, Result, ok, err, ◌>>=◌,
}
use canton_assurance_layer.Effects.Model.{
  Identifier, NodeKind, create_kind, exercise_kind, fetch_kind, rollback_kind, EffectCounts,
  BTreeSet, Create, Exercise, Fetch, NodeType, create, exercise, fetch, rollback, Node, EffectNode,
  Walk,
}

unfoldable pub identifier_string : Identifier → Text
identifier_string id = id.package_id ++ b':' ∷ (id.module_name ++ b':' ∷ id.entity_name)

abbrev pub template_string : Option Identifier → Option Text
template_string none = none
template_string (some id) = some (identifier_string id)

unfoldable pub non_empty : Text → Option Text
non_empty s = if is_empty s then none else some s

unfoldable pub extend : List Text → BTreeSet → BTreeSet
extend [] set = set
extend (x ∷ xs) set = extend xs (insert x tt set)

pub data Exhausted : Type 0 where
  exhausted : Exhausted

module _ {LfValue : Type 0} where
  abbrev pub children_of : (NodeType LfValue) → List Text
  children_of (create c) = []
  children_of (exercise e) = e.children
  children_of (fetch f) = []
  children_of (rollback children) = children

  -- The nodes by their ids, those without a version left out.
  unfoldable pub index_nodes :
      List (Text × Option (Node LfValue)) → BTreeMap (Node LfValue) → BTreeMap (Node LfValue)
  index_nodes [] by_id = by_id
  index_nodes ((id, none) ∷ nodes) by_id = index_nodes nodes by_id
  index_nodes ((id, some v1) ∷ nodes) by_id = index_nodes nodes (insert id v1 by_id)

  abbrev pub ids : List (Text × Option (Node LfValue)) → List Text
  ids [] = []
  ids ((id, _) ∷ nodes) = id ∷ ids nodes

module _ {Value : Type 0} where
  abbrev pub mark : Text → (Walk Value) → Walk Value
  mark id s = record s { visited = insert id tt s.visited }

  -- The loop over some nodes: those that `wanted` passes are walked.
  unfoldable pub walk_each :
      (Text → (Walk Value) → Result Exhausted (Walk Value))
      → (Text → (Walk Value) → Bool)
      → List Text
      → Walk Value
      → Result Exhausted (Walk Value)
  walk_each go wanted [] s = ok s
  walk_each go wanted (id ∷ ids) s = do
    next ← if wanted id s then go id s else ok s
    walk_each go wanted ids next

  abbrev pub start : Walk Value
  start = record {
    nodes = [];
    counts = record { creates = 0; archives = 0; exercises = 0; fetches = 0; rollbacks = 0 };
    informees = [];
    consumed = [];
    visited = [];
  }

module _ {LfValue Value : Type 0} (value_to_json : LfValue → Value) where
  module _ (include_arguments : Bool) where
    abbrev pub arg : Option LfValue → Option Value
    arg none = none
    arg (some v) = if include_arguments then some (value_to_json v) else none

    unfoldable pub effect : Text → ℕ → (NodeType LfValue) → EffectNode Value
    effect id depth (create c) = record {
      node_id = id;
      depth = depth;
      kind = create_kind;
      template_id = template_string c.template_id;
      package_name = non_empty c.package_name;
      interface_id = none;
      contract_id = non_empty c.contract_id;
      choice = none;
      consuming = none;
      acting_parties = [];
      signatories = c.signatories;
      stakeholders = c.stakeholders;
      choice_observers = [];
      argument = arg c.argument;
      result = none;
      children = [];
    }
    effect id depth (exercise e) = record {
      node_id = id;
      depth = depth;
      kind = exercise_kind;
      template_id = template_string e.template_id;
      package_name = non_empty e.package_name;
      interface_id = template_string e.interface_id;
      contract_id = non_empty e.contract_id;
      choice = non_empty e.choice_id;
      consuming = some e.consuming;
      acting_parties = e.acting_parties;
      signatories = e.signatories;
      stakeholders = e.stakeholders;
      choice_observers = e.choice_observers;
      argument = arg e.chosen_value;
      result = arg e.exercise_result;
      children = e.children;
    }
    effect id depth (fetch f) = record {
      node_id = id;
      depth = depth;
      kind = fetch_kind;
      template_id = template_string f.template_id;
      package_name = non_empty f.package_name;
      interface_id = template_string f.interface_id;
      contract_id = non_empty f.contract_id;
      choice = none;
      consuming = none;
      acting_parties = f.acting_parties;
      signatories = f.signatories;
      stakeholders = f.stakeholders;
      choice_observers = [];
      argument = none;
      result = none;
      children = [];
    }
    effect id depth (rollback children) = record {
      node_id = id;
      depth = depth;
      kind = rollback_kind;
      template_id = none;
      package_name = none;
      interface_id = none;
      contract_id = none;
      choice = none;
      consuming = none;
      acting_parties = [];
      signatories = [];
      stakeholders = [];
      choice_observers = [];
      argument = none;
      result = none;
      children = children;
    }

    abbrev pub count : (NodeType LfValue) → EffectCounts → EffectCounts
    count (create c) n = record n { creates = n.creates + 1 }
    count (exercise e) n = record n {
      exercises = n.exercises + 1;
      archives = if e.consuming then n.archives + 1 else n.archives;
    }
    count (fetch f) n = record n { fetches = n.fetches + 1 }
    count (rollback children) n = record n { rollbacks = n.rollbacks + 1 }

    abbrev pub informed : (NodeType LfValue) → BTreeSet → BTreeSet
    informed (create c) set = extend c.stakeholders (extend c.signatories set)
    informed (exercise e) set =
        extend e.choice_observers
          (extend e.acting_parties (extend e.stakeholders (extend e.signatories set)))
    informed (fetch f) set =
        extend f.acting_parties (extend f.stakeholders (extend f.signatories set))
    informed (rollback children) set = set

    abbrev pub archived : (NodeType LfValue) → BTreeSet → BTreeSet
    archived (create c) set = set
    archived (exercise e) set = if e.consuming then insert e.contract_id tt set else set
    archived (fetch f) set = set
    archived (rollback children) set = set

    unfoldable pub visit : Text → ℕ → (NodeType LfValue) → (Walk Value) → Walk Value
    visit id depth t s = record s {
      nodes = s.nodes ++ effect id depth t ∷ [];
      counts = count t s.counts;
      informees = informed t s.informees;
      consumed = archived t s.consumed;
    }

    module _ (by_id : BTreeMap (Node LfValue)) where
      -- On fuel: how deep the nodes are nested at most.
      unfoldable pub walk : ℕ → Text → ℕ → (Walk Value) → Result Exhausted (Walk Value)
      walk zero id depth s = err exhausted
      walk (suc fuel) id depth s =
          let down = λ (c : Text) (next : (Walk Value)). walk fuel c (depth + 1) next in
          if contains_key id s.visited then ok s else elim (get id by_id) [
            | none ↦ ok (mark id s)
            | some none ↦ ok (mark id s)
            | some (some t) ↦
                walk_each down (λ c next. contains_key c by_id) (children_of t)
                  (visit id depth t (mark id s))
          ]

    -- The walks of `effects_of`: from the roots, and then from every node not visited yet.
    unfoldable pub walk_all :
        List Text → List (Text × Option (Node LfValue)) → Result Exhausted (Walk Value)
    walk_all roots nodes =
        let by_id = index_nodes nodes [] in
        let go = λ (id : Text) (s : (Walk Value)). walk by_id (suc (length by_id)) id 0 s in
        walk_each go (λ id s. true) roots start
        >>= walk_each go (λ id s. not (contains_key id s.visited)) (ids nodes)
