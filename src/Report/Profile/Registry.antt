-- ===== src/Report/Profile/Registry.antt =====
-- rust/solvency-report/src/profile.rs: the seven profiles, and `lookup`.
use canton_assurance_layer.Prelude.{
  List, [], ◌∷◌, Option, none, some, Text, codes, text_eq, if◌then◌else◌,
}
use canton_assurance_layer.Report.Profile.Rules.{
  customer, entity, repo_leg, shareholder, settled_trade, attested_holder, custody_position,
  ProfileRules,
}

abbrev pub solvency_liabilities : ProfileRules
solvency_liabilities = record {
  name = codes "solvency.liabilities";
  leaf = customer;
  required_aggregates = codes "root_sums" ∷ [];
  coverage = none;
  required_leaf_maps = [];
  unanimous_maps = [];
}

abbrev pub solvency_group : ProfileRules
solvency_group = record {
  name = codes "solvency.group";
  leaf = entity;
  required_aggregates = codes "root_sums" ∷ [];
  coverage = none;
  required_leaf_maps = [];
  unanimous_maps = [];
}

abbrev pub collateral_repo : ProfileRules
collateral_repo = record {
  name = codes "collateral.repo";
  leaf = repo_leg;
  required_aggregates = codes "collateral/*" ∷ codes "exposure/*" ∷ [];
  coverage = some (record { covering = codes "collateral"; covered = codes "exposure" });
  required_leaf_maps = [];
  unanimous_maps = [];
}

abbrev pub fund_nav : ProfileRules
fund_nav = record {
  name = codes "fund.nav";
  leaf = shareholder;
  required_aggregates = codes "units/*" ∷ codes "entitlement/*" ∷ [];
  coverage = none;
  required_leaf_maps = [];
  unanimous_maps = [];
}

abbrev pub settlement_dvp : ProfileRules
settlement_dvp = record {
  name = codes "settlement.dvp";
  leaf = settled_trade;
  required_aggregates = codes "delivered/*" ∷ codes "paid/*" ∷ [];
  coverage = none;
  required_leaf_maps = codes "delivered" ∷ codes "paid" ∷ [];
  unanimous_maps = [];
}

abbrev pub eligibility_holder : ProfileRules
eligibility_holder = record {
  name = codes "eligibility.holder";
  leaf = attested_holder;
  required_aggregates = codes "attested/*" ∷ [];
  coverage = none;
  required_leaf_maps = codes "attested" ∷ [];
  unanimous_maps = codes "attested" ∷ [];
}

abbrev pub coverage_custody : ProfileRules
coverage_custody = record {
  name = codes "coverage.custody";
  leaf = custody_position;
  required_aggregates = codes "held/*" ∷ [];
  coverage = none;
  required_leaf_maps = codes "held" ∷ [];
  unanimous_maps = [];
}

abbrev pub registry : List ProfileRules
registry =
    solvency_liabilities ∷ solvency_group ∷ collateral_repo ∷ fund_nav ∷ settlement_dvp
    ∷ eligibility_holder ∷ coverage_custody ∷ []

-- `iter().find`
unfoldable pub find_name : Text → List ProfileRules → Option ProfileRules
find_name name [] = none
find_name name (rules ∷ l) = if text_eq rules.name name then some rules else find_name name l

unfoldable pub lookup : Text → Option ProfileRules
lookup name = find_name name registry
