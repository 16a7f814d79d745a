-- ===== src/Merkle/Amount.antt =====
-- rust/solvency-merkle/src/lib.rs: `parse_amount_18dp` and `format_amount_18dp`, decimal text with
-- 18 fraction digits in a `u128`. The proofs are in the modules below.
pub mod Digits
pub mod RoundTrip
pub mod Grammar
use canton_assurance_layer.Prelude.{
  ℕ, zero, suc, ◌+◌, ◌-◌, ◌*◌, ◌/◌, ◌%◌, ◌^◌, ◌≡◌, refl, Bool, true, false, not, ◌&&◌, ◌||◌, Option,
  none, some, List, [], ◌∷◌, ◌++◌, Text, codes, ltb, leb, ◌==◌, if◌then◌else◌, length, replicate,
  is_empty, all, Result, ok, err, ◌>>=◌, ◌>>◌, ensure, ok_or, and_then, u128_mod, checked_add,
  checked_mul,
}

abbrev pub scale_digits : ℕ
scale_digits = 18

abbrev pub scale : ℕ
scale = 1_000_000_000_000_000_000

-- One for each `ensure!` and fallible call of `parse_amount_18dp`.
pub data AmountError : Type 0 where
  missing_integer_part bare_point too_many_places not_decimal bad_number overflow : AmountError

abbrev pub behind : ℕ → Option (Text × Text) → Option (Text × Text)
behind x none = none
behind x (some (i, f)) = some (x ∷ i, f)

-- `str::split_once`
unfoldable pub split_once : ℕ → Text → Option (Text × Text)
split_once c [] = none
split_once c (x ∷ s) = let rest = split_once c s in if x == c then some ([], s) else behind x rest

abbrev pub is_digit : ℕ → Bool
is_digit c = leb b'0' c && leb c b'9'

-- The number that digits spell behind `acc`.
unfoldable pub decimal_value : ℕ → Text → ℕ
decimal_value acc [] = acc
decimal_value acc (c ∷ s) = decimal_value (acc * 10 + (c - b'0')) s

-- `str::parse::<u128>` on a text of digits: it fails on the empty text and on overflow.
unfoldable pub parse_u128 : Text → Option ℕ
parse_u128 s =
    if is_empty s || not (all is_digit s)
    then none
    else if ltb (decimal_value 0 s) u128_mod
    then some (decimal_value 0 s)
    else none

-- `format!("{s:0<18}")`
abbrev pub pad_right : ℕ → Text → Text
pad_right w s = s ++ replicate (w - length s) b'0'

-- `match s.split_once('.')`: the parts, and whether there was a point.
abbrev pub amount_parts : Text → Option (Text × Text) → Text × Text
amount_parts s none = (s, [])
amount_parts s (some parts) = parts

abbrev pub has_point : Option (Text × Text) → Bool
has_point none = false
has_point (some parts) = true

-- `int.checked_mul(SCALE).and_then(|v| v.checked_add(frac))`
unfoldable pub join_parts : ℕ → ℕ → Result AmountError ℕ
join_parts int frac = ok_or (and_then (checked_mul int scale) (λ v. checked_add v frac)) overflow

-- `if frac_part.is_empty() { 0 } else { format!("{frac_part:0<18}").parse()? }`
unfoldable pub fraction_units : Text → Result AmountError ℕ
fraction_units f =
    if is_empty f then ok 0 else ok_or (parse_u128 (pad_right scale_digits f)) bad_number

-- The checks and the arithmetic, over the result of `split_once`.
unfoldable pub parse_parts : Bool → Text → Text → Result AmountError ℕ
parse_parts pointed i f = do
  ensure (not (is_empty i)) missing_integer_part
  ensure (not pointed || not (is_empty f)) bare_point
  ensure (leb (length f) scale_digits) too_many_places
  ensure (all is_digit i && all is_digit f) not_decimal
  int ← ok_or (parse_u128 i) bad_number
  frac ← fraction_units f
  join_parts int frac

unfoldable pub parse_amount_18dp : Text → Result AmountError ℕ
parse_amount_18dp s =
    let split = split_once b'.' s in
    let parts = amount_parts s split in parse_parts (has_point split) parts.0 parts.1

-- `{}` of a `u128`: at most 39 digits, since 2 ^ 128 < 10 ^ 39.
unfoldable pub emit : ℕ → ℕ → Text
emit zero n = []
emit (suc f) n =
    let rest = emit f (n / 10) in if ltb n 10 then (b'0' + n) ∷ [] else rest ++ (b'0' + n % 10) ∷ []

unfoldable pub decimal : ℕ → Text
decimal n = emit 39 n

-- `{:018}` of a number below 10 ^ 18
unfoldable pub padded : ℕ → ℕ → Text
padded zero n = []
padded (suc w) n = padded w (n / 10) ++ (b'0' + n % 10) ∷ []

unfoldable pub format_amount_18dp : ℕ → Text
format_amount_18dp v = decimal (v / scale) ++ b'.' ∷ padded scale_digits (v % scale)
