-- ===== src/Merkle/Encoding.antt =====
-- rust/solvency-merkle/src/lib.rs: the byte encodings that enter a hash. `canonical_balances` and
-- `sums_canonical` join with delimiters; `lp` and `lpmap` write lengths first.
pub mod Prefix
use canton_assurance_layer.Prelude.{
  ℕ, Bool, true, false, not, ◌&&◌, ◌||◌, ◌==◌, leb, if◌then◌else◌, List, [], ◌∷◌, ◌++◌, Text, Bytes,
  Ordering, cmp, text_eq, codes, BTreeMap, length, is_empty, all, map, Result, ok, err, ◌>>=◌, ◌>>◌,
  u64le,
}
use Prim.Native.Nat.Ordering.{lt, eq, gt}
use canton_assurance_layer.Merkle.Amount.{format_amount_18dp, is_digit}

-- One for each `bail!` and `ensure!` of the crate's tree code.
pub data MerkleError : Type 0 where
  duplicate_asset unsafe_map_name unsafe_asset_name sum_overflow : Text → MerkleError
  no_leaves : MerkleError
  index_out_of_range : ℕ → MerkleError

-- `sort_by` on the key. It is stable: an entry goes behind the equal ones before it.
unfoldable pub sort_into : Text × ℕ → List (Text × ℕ) → List (Text × ℕ)
sort_into x [] = x ∷ []
sort_into (k, v) ((j, w) ∷ l) =
    let rest = sort_into (k, v) l in elim (cmp k j) [ gt ↦ (j, w) ∷ rest | _ ↦ (k, v) ∷ (j, w) ∷ l ]

unfoldable pub sort_by_key : List (Text × ℕ) → List (Text × ℕ)
sort_by_key [] = []
sort_by_key (x ∷ l) = sort_into x (sort_by_key l)

-- The loop over `windows(2)`.
unfoldable pub check_windows : List (Text × ℕ) → Result MerkleError (Unit {0})
check_windows [] = ok tt
check_windows (x ∷ []) = ok tt
check_windows ((k, v) ∷ (j, w) ∷ l) =
    let rest = check_windows ((j, w) ∷ l) in if text_eq k j then err (duplicate_asset k) else rest

-- `[T]::join`
unfoldable pub join : ℕ → List Text → Text
join sep [] = []
join sep (s ∷ []) = s
join sep (s ∷ t ∷ l) = s ++ sep ∷ join sep (t ∷ l)

-- `format!("{asset}:{}", format_amount_18dp(v))`
unfoldable pub entry_text : Text × ℕ → Text
entry_text (asset, v) = asset ++ b':' ∷ format_amount_18dp v

unfoldable pub canonical_balances : List (Text × ℕ) → Result MerkleError Text
canonical_balances balances = do
  let sorted = sort_by_key balances
  check_windows sorted
  ok (join b'|' (map entry_text sorted))

unfoldable pub sums_canonical : BTreeMap ℕ → Text
sums_canonical sums = join b'|' (map entry_text sums)

unfoldable pub lp : Text → Bytes
lp s = u64le (length s) ++ s

-- The entries behind the count.
unfoldable pub lp_entries : BTreeMap ℕ → Bytes
lp_entries [] = []
lp_entries ((asset, amount) ∷ m) = lp asset ++ (lp (format_amount_18dp amount) ++ lp_entries m)

unfoldable pub lpmap : BTreeMap ℕ → Bytes
lpmap m = u64le (length m) ++ lp_entries m

-- `char::is_ascii_alphanumeric`
abbrev pub is_ascii_alphanumeric : ℕ → Bool
is_ascii_alphanumeric c = is_digit c || ((leb b'A' c && leb c b'Z') || (leb b'a' c && leb c b'z'))

unfoldable pub is_safe_name : Text → Bool
is_safe_name name =
    not (is_empty name)
    && all (λ c. is_ascii_alphanumeric c || ((c == b'.') || ((c == b'_') || (c == b'-')))) name

-- `format!("{map_name}/{asset}")`
unfoldable pub qualified : Text → Text → Text
qualified map_name asset = map_name ++ b'/' ∷ asset
