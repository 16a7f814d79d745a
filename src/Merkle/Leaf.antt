-- ===== src/Merkle/Leaf.antt =====
-- rust/solvency-merkle/src/lib.rs: the leaves. A v1 leaf commits to one balance set, a v2 leaf to
-- several named amount maps.
pub mod Binding
use canton_assurance_layer.Prelude.{
  ℕ, List, [], ◌∷◌, ◌++◌, Bytes, Text, codes, BTreeMap, insert, contains_key, keys, length, u64le,
  Result, ok, err, ensure, for_each, ◌>>=◌, ◌>>◌, if◌then◌else◌,
}
use canton_assurance_layer.Primitives.{Primitives}
use canton_assurance_layer.Merkle.Encoding.{
  MerkleError, duplicate_asset, unsafe_map_name, unsafe_asset_name, canonical_balances, lp, lpmap,
  is_safe_name, qualified,
}
use canton_assurance_layer.Merkle.Node.{Node}

abbrev pub leaf_domain : Bytes
leaf_domain = codes "rocky-solvency-leaf-v1"

abbrev pub leaf_domain_v2 : Bytes
leaf_domain_v2 = codes "rocky-solvency-leaf-v2"

-- The maps of a v2 leaf, by name.
abbrev pub AmountMaps : Type 0
AmountMaps = BTreeMap (BTreeMap ℕ)

-- The name checks of `leaf_hash_v2`.
unfoldable pub check_map : Text × BTreeMap ℕ → Result MerkleError (Unit {0})
check_map (map_name, amounts) = do
  ensure (is_safe_name map_name) (unsafe_map_name map_name)
  for_each (λ asset. ensure (is_safe_name asset) (unsafe_asset_name asset)) (keys amounts)

-- The bytes of the maps, behind their count.
unfoldable pub map_entries : AmountMaps → Bytes
map_entries [] = []
map_entries ((map_name, amounts) ∷ maps) = lp map_name ++ (lpmap amounts ++ map_entries maps)

-- The sums of a v2 leaf: every map under qualified keys.
unfoldable pub insert_qualified : Text → BTreeMap ℕ → BTreeMap ℕ → BTreeMap ℕ
insert_qualified map_name [] sums = sums
insert_qualified map_name ((asset, amount) ∷ amounts) sums =
    insert_qualified map_name amounts (insert (qualified map_name asset) amount sums)

unfoldable pub flatten_maps : AmountMaps → BTreeMap ℕ → BTreeMap ℕ
flatten_maps [] sums = sums
flatten_maps ((map_name, amounts) ∷ maps) sums =
    flatten_maps maps (insert_qualified map_name amounts sums)

-- The sums of a v1 leaf: the loop of `leaf_node`.
unfoldable pub insert_balances : List (Text × ℕ) → BTreeMap ℕ → Result MerkleError (BTreeMap ℕ)
insert_balances [] sums = ok sums
insert_balances ((asset, v) ∷ balances) sums =
    let rest = insert_balances balances (insert asset v sums) in
    if contains_key asset sums then err (duplicate_asset asset) else rest

module _ (p : Primitives) where
  unfoldable pub leaf_salt : Bytes → Text → Bytes
  leaf_salt master_salt user_id = p.hmac_sha256 master_salt user_id

  unfoldable pub leaf_hash : Bytes → Text → List (Text × ℕ) → Result MerkleError Bytes
  leaf_hash salt user_id balances = do
    canonical ← canonical_balances balances
    ok (p.sha256 (leaf_domain ++ (salt ++ (p.sha256 user_id ++ canonical))))

  unfoldable pub leaf_node : Bytes → Text → List (Text × ℕ) → Result MerkleError Node
  leaf_node salt user_id balances = do
    hash ← leaf_hash salt user_id balances
    sums ← insert_balances balances []
    ok (record { hash = hash; sums = sums })

  unfoldable pub leaf_preimage_v2 : Bytes → Text → AmountMaps → Bytes
  leaf_preimage_v2 salt subject_id maps =
      leaf_domain_v2 ++ (salt ++ (p.sha256 subject_id ++ (u64le (length maps) ++ map_entries maps)))

  unfoldable pub leaf_hash_v2 : Bytes → Text → AmountMaps → Result MerkleError Bytes
  leaf_hash_v2 salt subject_id maps = do
    for_each check_map maps
    ok (p.sha256 (leaf_preimage_v2 salt subject_id maps))

  unfoldable pub leaf_node_v2 : Bytes → Text → AmountMaps → Result MerkleError Node
  leaf_node_v2 salt subject_id maps = do
    hash ← leaf_hash_v2 salt subject_id maps
    ok (record { hash = hash; sums = flatten_maps maps [] })
