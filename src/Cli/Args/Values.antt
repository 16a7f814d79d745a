-- ===== src/Cli/Args/Values.antt =====
-- rust/solvency-cli/src/args.rs: the commands, and the values that their flags have.
use canton_assurance_layer.Prelude.{
  ℕ, Bool, not, ◌&&◌, ◌||◌, List, [], ◌∷◌, Option, none, some, Text, codes, text_eq, ◌==◌, ltb, all,
  is_empty, length, BTreeMap, insert, if◌then◌else◌, Result, ok, ok_or, ensure, u64_mod, ◌>>=◌,
  ◌>>◌,
}
use canton_assurance_layer.Merkle.Amount.{split_once, is_digit, decimal_value}
use canton_assurance_layer.Reserve.{is_hex_digit}

pub data ProofSource : Type 0 where
  one_file : Text → ProofSource
  directory : Text → ProofSource

pub data Command : Type 0 where
  verify : Text → ProofSource → Text → Bool → Command
  verify_group : Text → ProofSource → Text → Bool → Command
  -- group report, membership, report, proof, trusted key, group key
  verify_chain : Text → Text → Text → Text → Text → Text → Bool → Command
  recompute : Text → Text → Bool → Command
  verify_pack : Text → Text → Bool → Command
  anchors : Text → Bool → Command
  -- custody, liabilities, statement, trusted key, custody key, tolerance
  coverage : Text → Text → Text → Text → Text → ℕ → Bool → Command
  -- report, statement; proof, anchor, attestations, provenance; attestors, trusted key
  assurance :
      Text
      → Text
      → Option Text
      → Option Text
      → Option Text
      → Option Text
      → BTreeMap Text
      → Text
      → Bool
      → Command
  provenance : Text → Text → Option Text → Text → Bool → Command
  manifest_diff : Text → Text → Bool → Command
  digest : Text → Command
  help version : Command

pub data UsageError : Type 0 where
  no_command : UsageError
  unknown_command unknown_flag needs_value required bad_key bad_attestor bad_role bad_skew :
      Text → UsageError
  one_required exclusive : Text → Text → UsageError

unfoldable pub is_key : Text → Bool
is_key key = (length key == 64) && all is_hex_digit key

unfoldable pub validate_key : Text → Result UsageError (Unit {0})
validate_key key = ensure (is_key key) (bad_key key)

-- `str::split` on one ASCII character
unfoldable pub split_on : ℕ → Text → List Text
split_on c [] = [] ∷ []
split_on c (x ∷ s) = let rest = split_on c s in if x == c then [] ∷ rest else onto x rest
  where
    onto : ℕ → List Text → List Text
    onto x [] = (x ∷ []) ∷ []
    onto x (w ∷ ws) = (x ∷ w) ∷ ws

unfoldable pub add_attestors : List Text → BTreeMap Text → Result UsageError (BTreeMap Text)
add_attestors [] out = ok out
add_attestors (entry ∷ entries) out = do
  (hex, role) ← ok_or (split_once b':' entry) (bad_attestor entry)
  validate_key hex
  ensure (text_eq role (codes "issuer") || text_eq role (codes "third-party")) (bad_role role)
  add_attestors entries (insert hex role out)

unfoldable pub parse_attestors : Option Text → Result UsageError (BTreeMap Text)
parse_attestors none = ok []
parse_attestors (some raw) = add_attestors (split_on b',' raw) []

-- `str::parse::<u64>`: digits behind an optional plus sign, below 2 ^ 64.
abbrev pub unsigned : Text → Text
unsigned [] = []
unsigned (c ∷ s) = if c == b'+' then s else c ∷ s

unfoldable pub parse_u64 : Text → Option ℕ
parse_u64 raw =
    if is_empty (unsigned raw) || not (all is_digit (unsigned raw))
    then none
    else if ltb (decimal_value 0 (unsigned raw)) u64_mod
    then some (decimal_value 0 (unsigned raw))
    else none
