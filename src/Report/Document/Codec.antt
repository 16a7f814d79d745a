-- ===== src/Report/Document/Codec.antt =====
-- rust/solvency-report/src/document.rs: `amount_map` and `amount_map_of_maps`, the codecs of amounts
-- as decimal texts. What serde_json does of the maps of texts is not part of it.
use canton_assurance_layer.Prelude.{
  ℕ, ◌<◌, ◌≡◌, refl, List, [], ◌∷◌, Text, BTreeMap, Result, ok, map_err, ◌>>=◌, All, u128_mod, ap,
  ◌∙◌, insert, collect_into, collect_into-sorted, IsSorted, IsAbove,
}
use canton_assurance_layer.Merkle.Amount.{AmountError, parse_amount_18dp, format_amount_18dp}
use canton_assurance_layer.Merkle.Amount.RoundTrip.{parse-format}

-- `asset {asset}: {e}`
pub data CodecError : Type 0 where
  bad_asset : Text → AmountError → CodecError

unfoldable pub serialize : BTreeMap ℕ → BTreeMap Text
serialize [] = []
serialize ((k, v) ∷ m) = (k, format_amount_18dp v) ∷ serialize m

unfoldable pub parse_each : BTreeMap Text → Result CodecError (BTreeMap ℕ)
parse_each [] = ok []
parse_each ((asset, v) ∷ raw) = do
  parsed ← map_err (bad_asset asset) (parse_amount_18dp v)
  rest ← parse_each raw
  ok ((asset, parsed) ∷ rest)

-- The entries are those of the document, in its order; it may name an asset twice.
unfoldable pub deserialize : List (Text × Text) → Result CodecError (BTreeMap ℕ)
deserialize entries = parse_each (collect_into [] entries)

unfoldable pub serialize_maps : BTreeMap (BTreeMap ℕ) → BTreeMap (BTreeMap Text)
serialize_maps [] = []
serialize_maps ((k, m) ∷ maps) = (k, serialize m) ∷ serialize_maps maps

unfoldable pub deserialize_into :
    BTreeMap (BTreeMap ℕ)
    → List (Text × List (Text × Text))
    → Result CodecError (BTreeMap (BTreeMap ℕ))
deserialize_into maps [] = ok maps
deserialize_into maps ((k, entries) ∷ raws) = do
  m ← deserialize entries
  deserialize_into (insert k m maps) raws

abbrev pub deserialize_maps :
    List (Text × List (Text × Text)) → Result CodecError (BTreeMap (BTreeMap ℕ))
deserialize_maps raws = deserialize_into [] raws

-- Every amount is a `u128`, every asset stands once.
abbrev pub IsWritten : BTreeMap ℕ → Type 0
IsWritten m = IsSorted m × All (λ (e : Text × ℕ). e.1 < u128_mod) m

IsAbove-serialize : (k : Text) (m : BTreeMap ℕ) → IsAbove k m → IsAbove k (serialize m)
unfolding serialize
IsAbove-serialize k [] a = tt
IsAbove-serialize k ((j, v) ∷ m) (h, a) = (h, IsAbove-serialize k m a)

IsSorted-serialize : (m : BTreeMap ℕ) → IsSorted m → IsSorted (serialize m)
unfolding serialize
IsSorted-serialize [] s = tt
IsSorted-serialize ((k, v) ∷ m) (a, s) = (IsAbove-serialize k m a, IsSorted-serialize m s)

parse_each-serialize :
    (m : BTreeMap ℕ) → All (λ (e : Text × ℕ). e.1 < u128_mod) m → parse_each (serialize m) ≡ ok m
unfolding serialize parse_each
parse_each-serialize [] h = refl
parse_each-serialize ((k, v) ∷ m) (h, hs) = rw (parse-format v h, parse_each-serialize m hs) refl

deserialize-serialize : (m : BTreeMap ℕ) → IsWritten m → deserialize (serialize m) ≡ ok m
unfolding deserialize
deserialize-serialize m (s, h) =
    rw (collect_into-sorted [] (serialize m) (IsSorted-serialize m s)) (parse_each-serialize m h)

deserialize_into-serialize_maps :
    (maps into : BTreeMap (BTreeMap ℕ))
    → All (λ (e : Text × BTreeMap ℕ). IsWritten e.1) maps
    → deserialize_into into (serialize_maps maps) ≡ ok (collect_into into maps)
unfolding serialize_maps deserialize_into collect_into
deserialize_into-serialize_maps [] into h = refl
deserialize_into-serialize_maps ((k, m) ∷ maps) into (h, hs) =
    rw (deserialize-serialize m h) (deserialize_into-serialize_maps maps (insert k m into) hs)

-- Maps of maps of u128 amounts, every key once and in order, are read back as they were written.
pub deserialize_maps-serialize_maps :
    (maps : BTreeMap (BTreeMap ℕ))
    → IsSorted maps
    → All (λ (e : Text × BTreeMap ℕ). IsWritten e.1) maps
    → deserialize_maps (serialize_maps maps) ≡ ok maps
deserialize_maps-serialize_maps maps s h =
    deserialize_into-serialize_maps maps [] h ∙ ap (λ m. ok m) (collect_into-sorted [] maps s)
