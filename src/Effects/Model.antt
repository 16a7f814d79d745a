-- ===== src/Effects/Model.antt =====
-- rust/sim-core/src/model.rs: what the walk collects; and the nodes that it reads, the messages
-- generated from rust/sim-proto/proto, as far as it reads them.
use canton_assurance_layer.Prelude.{ℕ, Bool, List, Option, Text, BTreeMap}

pub record Identifier : Type 0 where
  pub package_id : Text
  pub module_name : Text
  pub entity_name : Text

pub data NodeKind : Type 0 where
  create_kind exercise_kind fetch_kind rollback_kind : NodeKind

pub record EffectCounts : Type 0 where
  pub creates : ℕ
  pub archives : ℕ
  pub exercises : ℕ
  pub fetches : ℕ
  pub rollbacks : ℕ

-- A `BTreeSet` of texts
abbrev pub BTreeSet : Type 0
BTreeSet = BTreeMap (Unit {0})

module _ (LfValue : Type 0) where
  pub record Create : Type 0 where
    pub template_id : Option Identifier
    pub package_name : Text
    pub contract_id : Text
    pub signatories : List Text
    pub stakeholders : List Text
    pub argument : Option LfValue

  pub record Exercise : Type 0 where
    pub template_id : Option Identifier
    pub package_name : Text
    pub interface_id : Option Identifier
    pub contract_id : Text
    pub choice_id : Text
    pub consuming : Bool
    pub acting_parties : List Text
    pub signatories : List Text
    pub stakeholders : List Text
    pub choice_observers : List Text
    pub chosen_value : Option LfValue
    pub exercise_result : Option LfValue
    pub children : List Text

  pub record Fetch : Type 0 where
    pub template_id : Option Identifier
    pub package_name : Text
    pub interface_id : Option Identifier
    pub contract_id : Text
    pub acting_parties : List Text
    pub signatories : List Text
    pub stakeholders : List Text

  pub data NodeType : Type 0 where
    create : Create → NodeType
    exercise : Exercise → NodeType
    fetch : Fetch → NodeType
    rollback : List Text → NodeType

  -- A node whose type may be missing.
  abbrev pub Node : Type 0
  Node = Option NodeType

module _ (Value : Type 0) where
  pub record EffectNode : Type 0 where
    pub node_id : Text
    pub depth : ℕ
    pub kind : NodeKind
    pub template_id : Option Text
    pub package_name : Option Text
    pub interface_id : Option Text
    pub contract_id : Option Text
    pub choice : Option Text
    pub consuming : Option Bool
    pub acting_parties : List Text
    pub signatories : List Text
    pub stakeholders : List Text
    pub choice_observers : List Text
    pub argument : Option Value
    pub result : Option Value
    pub children : List Text

  -- What the walk collects, and the nodes it has been at.
  pub record Walk : Type 0 where
    pub nodes : List EffectNode
    pub counts : EffectCounts
    pub informees : BTreeSet
    pub consumed : BTreeSet
    pub visited : BTreeSet
