-- ===== src/Diagnose/Scan.antt =====
-- rust/sim-diagnose/src/ledger_error.rs: the numbers and the JSON object that are found in a text, and
-- what the module uses of `Option`.
use canton_assurance_layer.Prelude.{
  ℕ, suc, ◌+◌, ◌-◌, ◌%◌, ◌^◌, Bool, true, false, not, ◌||◌, [], ◌∷◌, Option, none, some, Text,
  codes, text_eq, ◌==◌, ltb, all, take, drop, is_empty, and_then, if◌then◌else◌,
}
use canton_assurance_layer.Prelude.Int.{ℤ, pos, negsuc}
use canton_assurance_layer.Merkle.Amount.{is_digit, decimal_value}

-- `unwrap_or` and `or_else`
abbrev pub unwrap_or {ℓ} : {A : Type ℓ} → A → Option A → A
unwrap_or a none = a
unwrap_or a (some b) = b

abbrev pub or_else {ℓ} : {A : Type ℓ} → Option A → Option A → Option A
or_else none next = next
or_else (some a) next = some a

abbrev pub option_map {ℓ κ} : {A : Type ℓ} {B : Type κ} → (A → B) → Option A → Option B
option_map f none = none
option_map f (some a) = some (f a)

-- `str::parse` of an unsigned type below the bound: a plus sign may stand before the digits.
abbrev pub parse_digits : ℕ → Text → Option ℕ
parse_digits bound s =
    if is_empty s || not (all is_digit s)
    then none
    else if ltb (decimal_value 0 s) bound
    then some (decimal_value 0 s)
    else none

unfoldable pub parse_unsigned : ℕ → Text → Option ℕ
parse_unsigned bound [] = none
parse_unsigned bound (c ∷ s) = if c == 43 then parse_digits bound s else parse_digits bound (c ∷ s)

-- `str::parse` of a `bool`
unfoldable pub parse_bool : Text → Option Bool
parse_bool s =
    if text_eq s (codes "true")
    then some true
    else if text_eq s (codes "false")
    then some false
    else none

-- `as i32` of an `i64`
abbrev pub signed32 : ℕ → ℤ
signed32 n = if ltb n (2 ^ 31) then pos n else negsuc (2 ^ 32 - n - 1)

unfoldable pub as_i32 : ℤ → ℤ
as_i32 (pos n) = signed32 (n % 2 ^ 32)
as_i32 (negsuc n) = signed32 (2 ^ 32 - 1 - n % 2 ^ 32)

-- `str::find` and `str::rfind` of a character of one byte
unfoldable pub find : ℕ → Text → Option ℕ
find c [] = none
find c (d ∷ s) = let rest = find c s in if d == c then some 0 else option_map (λ i. suc i) rest

unfoldable pub rfind : ℕ → Text → Option ℕ
rfind c [] = none
rfind c (d ∷ s) =
    let rest = rfind c s in or_else (option_map (λ i. suc i) rest) (if d == c then some 0 else none)

-- `&text[start..=end]`, where the end lies after the start
abbrev pub slice : Text → ℕ → ℕ → Option Text
slice text start end =
    if ltb start end then some (take (end - start + 1) (drop start text)) else none

unfoldable pub find_json_object : Text → Option Text
find_json_object text =
    and_then (find 123 text) (λ start. and_then (rfind 125 text) (slice text start))
