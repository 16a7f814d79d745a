-- ===== src/Report/Instant.antt =====
-- rust/solvency-report/src/instant.rs: the timestamp profile and the arithmetic on it. A slice
-- `text[a..b]` is `take (b - a) (drop a text)`, and the length test comes before every index.
pub mod Skew
use canton_assurance_layer.Prelude.{
  ℕ, ◌+◌, ◌-◌, ◌*◌, ◌/◌, ◌%◌, Bool, true, false, not, ◌&&◌, ◌||◌, List, [], ◌∷◌, Option, none, some,
  Text, codes, text_eq, ltb, leb, ◌==◌, if◌then◌else◌, length, get_elem?, get_last?, take, drop,
  all, is_empty, and_then,
}
use canton_assurance_layer.Prelude.Int.{ℤ, pos, ◌+ℤ◌, ◌-ℤ◌, ◌*ℤ◌, ◌/ℤ◌, is_nonneg, abs_diff}
use canton_assurance_layer.Merkle.Amount.{is_digit, decimal_value}

unfoldable pub days_from_civil : ℤ → ℕ → ℕ → ℤ
days_from_civil year m d =
    let y = (if leb m 2 then year -ℤ pos 1 else year) in
    let era = (if is_nonneg y then y else y -ℤ pos 399) /ℤ 400 in
    let yoe = y -ℤ era *ℤ pos 400 in
    let mp : ℕ = (m + 9) % 12 in
    let doy = pos ((153 * mp + 2) / 5) +ℤ pos d -ℤ pos 1 in
    let doe = yoe *ℤ pos 365 +ℤ yoe /ℤ 4 -ℤ yoe /ℤ 100 +ℤ doy in
    era *ℤ pos 146_097 +ℤ doe -ℤ pos 719_468

-- The years that `parse` reads are four digits, so no sign.
unfoldable pub is_leap : ℕ → Bool
is_leap y = (y % 4 == 0 && not (y % 100 == 0)) || (y % 400 == 0)

unfoldable pub days_in_month : ℕ → ℕ → ℕ
days_in_month y m =
    if m == 1 || (m == 3 || (m == 5 || (m == 7 || (m == 8 || (m == 10 || (m == 12))))))
    then 31
    else if m == 4 || (m == 6 || (m == 9 || (m == 11)))
    then 30
    else if m == 2
    then (if is_leap y then 29 else 28)
    else 0

-- The closure `digits`: the number in a range of bytes, if they are digits.
unfoldable pub digits : Text → ℕ → ℕ → Option ℕ
digits text from to =
    let slice = take (to - from) (drop from text) in
    if all is_digit slice then some (decimal_value 0 slice) else none

unfoldable pub byte_is : Text → ℕ → ℕ → Bool
byte_is text i b = elim (get_elem? text i) [ none ↦ false | some c ↦ c == b ]

-- `rest[1..rest.len() - 1]` is one digit or more.
unfoldable pub fraction_is_valid : Text → Bool
fraction_is_valid rest =
    let frac = take (length rest - 2) (drop 1 rest) in not (is_empty frac) && all is_digit frac

-- The `match` on what follows the seconds.
unfoldable pub tail_is_valid : Text → Bool
tail_is_valid rest =
    if text_eq rest (codes "Z")
    then true
    else if byte_is rest 0 b'.' && byte_is rest (length rest - 1) b'Z'
    then fraction_is_valid rest
    else false

unfoldable pub layout_is_valid : Text → Bool
layout_is_valid text =
    (leb 20 (length text) && all (λ b. ltb b 128) text)
    && ((byte_is text 4 b'-' && (byte_is text 7 b'-' && byte_is text 10 b'T'))
        && (byte_is text 13 b':' && byte_is text 16 b':'))

unfoldable pub date_is_valid : ℕ → ℕ → ℕ → Bool
date_is_valid year month day =
    (leb 1 month && leb month 12) && (leb 1 day && leb day (days_in_month year month))

unfoldable pub time_is_valid : ℕ → ℕ → ℕ → Bool
time_is_valid hour minute second = leb hour 23 && (leb minute 59 && leb second 59)

-- The seconds since the epoch of the parts.
unfoldable pub epoch : ℕ → ℕ → ℕ → ℕ → ℕ → ℕ → ℤ
epoch year month day hour minute second =
    days_from_civil (pos year) month day *ℤ pos 86_400 +ℤ pos (hour * 3_600 + minute * 60 + second)

infixl 5 ◌>>=◌
abbrev ◌>>=◌ {ℓ κ} : {A : Type ℓ} {B : Type κ} → Option A → (A → Option B) → Option B
m >>= f = and_then m f

unfoldable pub parse : Text → Option ℤ
parse text =
    let parts : Option ℤ = (do
      year ← digits text 0 4
      month ← digits text 5 7
      day ← digits text 8 10
      hour ← digits text 11 13
      minute ← digits text 14 16
      second ← digits text 17 19
      (if tail_is_valid (drop 19 text)
            && (date_is_valid year month day && time_is_valid hour minute second)
          then some (epoch year month day hour minute second)
          else none)) in
    if layout_is_valid text then parts else none

unfoldable pub skew : Text → Text → Option ℕ
skew a b = do x ← parse a; y ← parse b; some (abs_diff x y)
