-- ===== src/Report/Profile/Rules.antt =====
-- rust/solvency-report/src/profile.rs: what an entry of the registry pins.
use canton_assurance_layer.Prelude.{Bool, true, false, List, Option, Text}

pub data LeafKind : Type 0 where
  customer entity repo_leg shareholder settled_trade attested_holder custody_position : LeafKind

unfoldable pub uses_leaf_v2 : LeafKind → Bool
uses_leaf_v2 customer = false
uses_leaf_v2 entity = false
uses_leaf_v2 _ = true

-- The derived `==`.
unfoldable pub leaf_kind_eq : LeafKind → LeafKind → Bool
leaf_kind_eq customer customer = true
leaf_kind_eq entity entity = true
leaf_kind_eq repo_leg repo_leg = true
leaf_kind_eq shareholder shareholder = true
leaf_kind_eq settled_trade settled_trade = true
leaf_kind_eq attested_holder attested_holder = true
leaf_kind_eq custody_position custody_position = true
leaf_kind_eq _ _ = false

pub record Coverage : Type 0 where
  pub covering : Text
  pub covered : Text

-- The field `statement`, prose for a reader that no code reads, is left out.
pub record ProfileRules : Type 0 where
  pub name : Text
  pub leaf : LeafKind
  pub required_aggregates : List Text
  pub coverage : Option Coverage
  pub required_leaf_maps : List Text
  pub unanimous_maps : List Text
