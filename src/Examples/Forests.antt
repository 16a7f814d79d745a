-- ===== src/Examples/Forests.antt =====
-- A prepared transaction whose second node names its parent among its children, with a node that no
-- root leads to and one without a version.
use canton_assurance_layer.Prelude.{
  ◌≡◌, refl, true, List, [], ◌∷◌, Option, none, some, Text, codes, text_eq, cmp, length, insert, ok,
}
use canton_assurance_layer.Effects.Model.{NodeType, Node, Walk, create, exercise, rollback}
use canton_assurance_layer.Effects.{start, index_nodes, walk_all}
use canton_assurance_layer.Effects.Visit.{listed, one_if, is_known, counted}
use canton_assurance_layer.Effects.Fuel.{walk_all-total}
use canton_assurance_layer.Effects.Complete.{last_node, effects_of-total}
use canton_assurance_layer.Effects.Prepared.{PreparedTransaction, Effects, Library, effects_of}
use canton_assurance_layer.Effects as Forest
use canton_assurance_layer.Examples.Trees.{or_else}

abbrev same : Text → Text
same value = value

abbrev transfer : NodeType Text
transfer = exercise (record {
  template_id = none;
  package_name = codes "amulet";
  interface_id = none;
  contract_id = codes "c0";
  choice_id = codes "Transfer";
  consuming = true;
  acting_parties = codes "alice" ∷ [];
  signatories = codes "dso" ∷ [];
  stakeholders = codes "alice" ∷ [];
  choice_observers = [];
  chosen_value = some (codes "{}");
  exercise_result = none;
  children = codes "1" ∷ codes "2" ∷ [];
})

abbrev payment : NodeType Text
payment = create (record {
  template_id = none;
  package_name = codes "amulet";
  contract_id = codes "c1";
  signatories = codes "dso" ∷ [];
  stakeholders = codes "bob" ∷ [];
  argument = some (codes "{}");
})

abbrev nodes : List (Text × Option (Node Text))
nodes =
    (codes "0", some (some transfer))
    ∷ (codes "1", some (some payment))
    ∷ (codes "2", some (some (rollback (codes "0" ∷ []))))
    ∷ (codes "3", some (some payment))
    ∷ (codes "4", none)
    ∷ []

abbrev roots : List Text
roots = codes "0" ∷ codes "9" ∷ []

abbrev walked : Walk Text
walked = or_else (walk_all same true roots nodes) (start)

walked_returned : walk_all same true roots nodes ≡ ok walked
unfolding text_eq cmp insert Forest.identifier_string Forest.non_empty Forest.extend Forest.effect
    Forest.visit Forest.walk_each Forest.walk Forest.index_nodes Forest.walk_all
walked_returned = refl

walked_four : length walked.nodes ≡ 4
unfolding text_eq cmp insert Forest.identifier_string Forest.non_empty Forest.extend Forest.effect
    Forest.visit Forest.walk_each Forest.walk Forest.index_nodes Forest.walk_all
walked_four = refl

-- The walk returns on these nodes, the fuel being enough.
walked_whole : (r : Walk Text) × (walk_all same true roots nodes ≡ ok r)
walked_whole = walk_all-total same true roots nodes

abbrev prepared : PreparedTransaction Text
prepared = record {
  transaction = some (record { version = codes "2.1"; roots = roots; nodes = nodes });
  metadata = none;
}

abbrev library : Library
library = record { rfc3339 = λ micros. none; base64_decode = λ text. some text }

effects_of-total_example :
    (e : Effects Text) × (effects_of library same prepared 99 (codes "AA") (codes "V2") true ≡ ok e)
    × ((id : Text) → listed id e.nodes ≡ one_if (is_known (last_node id nodes)))
    × (counted e.counts ≡ length e.nodes)
effects_of-total_example =
    effects_of-total library same prepared 99 (codes "AA") (codes "V2") true
      (record { version = codes "2.1"; roots = roots; nodes = nodes }) refl
