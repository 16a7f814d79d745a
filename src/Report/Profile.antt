-- ===== src/Report/Profile.antt =====
-- rust/solvency-report/src/profile.rs: the registry of disclosure profiles, and `validate`.
pub mod Rules
pub mod Registry
pub mod Satisfied
pub use Rules.{
  LeafKind, customer, entity, repo_leg, shareholder, settled_trade, attested_holder,
  custody_position, Coverage, ProfileRules,
}
unfoldable pub use Rules.{uses_leaf_v2, leaf_kind_eq}
unfoldable pub use Registry.{lookup}
use canton_assurance_layer.Prelude.{
  ℕ, ◌+◌, ◌-◌, ◌*◌, Bool, true, false, not, List, [], ◌∷◌, ◌++◌, Option, none, some, Text, codes,
  text_eq, ltb, ◌==◌, if◌then◌else◌, BTreeMap, amount, is_empty, keys, any, take, length,
  strip_prefix, u128_mod, Result, ok, err, ok_or, ensure, for_each, ◌>>=◌, ◌>>◌,
}
use canton_assurance_layer.Report.Document.{Report}

-- Why a report violates its profile: the aggregate, the key or the rule that the message names.
pub data Violation : Type 0 where
  unknown_aggregate missing_aggregate not_covered not_unanimous : Text → Violation

pub data ProfileError : Type 0 where
  unknown : Text → ProfileError
  violation : Text → Violation → ProfileError

abbrev pub has_prefix : Text → Text → Bool
has_prefix p s = elim (strip_prefix p s) [ none ↦ false | some r ↦ true ]

-- `str::ends_with("/*")`
unfoldable pub is_wildcard : Text → Bool
is_wildcard [] = false
is_wildcard (a ∷ s) =
    let rest = is_wildcard s in if text_eq (a ∷ s) (codes "/*") then true else rest

-- The `match` on an aggregate: whether the report carries it, or the unknown name.
unfoldable pub aggregate_present : Report → Text → Result Violation Bool
aggregate_present report aggregate =
    if text_eq aggregate (codes "root_sums")
    then ok (not (is_empty report.root_sums))
    else if text_eq aggregate (codes "mark_prices")
    then ok (not (is_empty report.mark_prices))
    else if is_wildcard aggregate
    then ok (any (has_prefix (take (length aggregate - 1) aggregate)) (keys report.root_sums))
    else err (unknown_aggregate aggregate)

unfoldable pub check_aggregate : Report → Text → Result Violation (Unit {0})
check_aggregate report aggregate = do
  present ← aggregate_present report aggregate
  ensure present (missing_aggregate aggregate)

-- One round of the coverage loop; a key that is not of the covered map is skipped.
unfoldable pub check_covered : Report → Coverage → Text × ℕ → Result Violation (Unit {0})
check_covered report c (key, required) = elim (strip_prefix (c.covered ++ b'/' ∷ []) key) [
  | none ↦ ok tt
  | some asset ↦
      ensure (not (ltb (amount (c.covering ++ b'/' ∷ asset) report.root_sums) required))
        (not_covered key)
]

unfoldable pub check_coverage : Report → Option Coverage → Result Violation (Unit {0})
check_coverage report none = ok tt
check_coverage report (some c) = for_each (check_covered report c) report.root_sums

abbrev pub one : ℕ
one = 1_000_000_000_000_000_000

unfoldable pub saturating_mul : ℕ → ℕ → ℕ
saturating_mul a b = if ltb (a * b) u128_mod then a * b else u128_mod - 1

-- One round of the unanimity loop.
unfoldable pub check_total : Report → Text → Text × ℕ → Result Violation (Unit {0})
check_total report map_name (key, total) = elim (strip_prefix (map_name ++ b'/' ∷ []) key) [
  | none ↦ ok tt
  | some rule ↦ ensure (total == saturating_mul report.leaf_count one) (not_unanimous key)
]

unfoldable pub check_unanimous : Report → Text → Result Violation (Unit {0})
check_unanimous report map_name = for_each (check_total report map_name) report.root_sums

-- The checks of one set of rules, in order.
unfoldable pub check_rules : Report → ProfileRules → Result Violation (Unit {0})
check_rules report rules = do
  for_each (check_aggregate report) rules.required_aggregates
  check_coverage report rules.coverage
  for_each (check_unanimous report) rules.unanimous_maps

-- A violation names the profile.
abbrev pub under_profile :
    ProfileRules → Result Violation (Unit {0}) → Result ProfileError ProfileRules
under_profile rules (ok _) = ok rules
under_profile rules (err v) = err (violation rules.name v)

unfoldable pub validate : Report → Result ProfileError ProfileRules
validate report = do
  rules ← ok_or (lookup report.profile) (unknown report.profile)
  under_profile rules (check_rules report rules)
