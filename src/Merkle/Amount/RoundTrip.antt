-- ===== src/Merkle/Amount/RoundTrip.antt =====
-- What is printed is read back, so the printed form is canonical.
use canton_assurance_layer.Prelude.{
  ℕ, suc, ◌+◌, ◌*◌, ◌/◌, ◌%◌, ◌<◌, ◌≡◌, refl, true, false, some, [], ◌∷◌, ◌++◌, append-nil, arith,
  Text, length, all, is_empty, ok, u128_mod, checked_add, checked_mul, ◌∙◌, ap,
}
use canton_assurance_layer.Merkle.Amount.{
  scale, scale_digits, is_digit, split_once, decimal_value, parse_u128, pad_right, parse_parts,
  fraction_units, parse_amount_18dp, join_parts, decimal, padded, emit, format_amount_18dp,
}
use canton_assurance_layer.Merkle.Amount.Digits.{
  emit_value, emit_digits, emit_nonempty, padded_value, padded_digits, length-padded,
}

-- A text of digits is cut at the point behind it.
pub split_once_digits :
    (s t : Text) → all is_digit s ≡ true → split_once b'.' (s ++ b'.' ∷ t) ≡ some (s, t)
unfolding split_once
split_once_digits [] t h = refl
split_once_digits (c ∷ s) t h = ground (arith, split_once_digits s t)

pub parse_u128_digits :
    (s : Text)
    → is_empty s ≡ false
    → all is_digit s ≡ true
    → decimal_value 0 s < u128_mod
    → parse_u128 s ≡ some (decimal_value 0 s)
unfolding parse_u128
parse_u128_digits s n d h = ground arith

pad_right_full : (f : Text) → length f ≡ 18 → pad_right scale_digits f ≡ f
pad_right_full f h = rw (h) (append-nil f)

pub join_parts_fits :
    (int frac : ℕ) → int * scale + frac < u128_mod → join_parts int frac ≡ ok (int * scale + frac)
unfolding join_parts checked_add checked_mul
join_parts_fits int frac h = ground arith

-- Parts in full form are read as they spell.
parse_parts_full :
    (i f : Text)
    → is_empty i ≡ false
    → is_empty f ≡ false
    → length f ≡ 18
    → all is_digit i ≡ true
    → all is_digit f ≡ true
    → decimal_value 0 i * scale + decimal_value 0 f < u128_mod
    → parse_parts true i f ≡ ok (decimal_value 0 i * scale + decimal_value 0 f)
unfolding parse_parts fraction_units
parse_parts_full i f ni nf l di df h =
    rw
      (
        ni,
        nf,
        l,
        di,
        df,
        parse_u128_digits i ni di (omega arith),
        append-nil,
        parse_u128_digits f nf df (omega arith),
      )
      (join_parts_fits (decimal_value 0 i) (decimal_value 0 f) h)

padded_nonempty : (w n : ℕ) → is_empty (padded (suc w) n) ≡ false
unfolding padded
padded_nonempty w n = go (padded w (n / 10)) (b'0' + n % 10)
  where
    go : (s : Text) (c : ℕ) → is_empty (s ++ c ∷ []) ≡ false
    go [] c = refl
    go (d ∷ s) c = refl

module _ (v : ℕ) (fits : v < u128_mod) where
  whole_value : decimal_value 0 (emit 39 (v / scale)) ≡ v / scale
  whole_value = emit_value 39 (v / scale) (omega arith)

  fraction_value : decimal_value 0 (padded 18 (v % scale)) ≡ v % scale
  fraction_value = padded_value 18 (v % scale) (omega arith)

  parts_value :
      decimal_value 0 (emit 39 (v / scale)) * scale + decimal_value 0 (padded 18 (v % scale)) ≡ v
  parts_value = rw (whole_value, fraction_value) (omega arith)

-- Every `u128` amount is read back from its canonical form.
pub parse-format : (v : ℕ) → v < u128_mod → parse_amount_18dp (format_amount_18dp v) ≡ ok v
unfolding parse_amount_18dp format_amount_18dp decimal
parse-format v h =
    let i = emit 39 (v / scale) in
    let f = padded 18 (v % scale) in
    rw (split_once_digits i f (emit_digits 39 (v / scale))) (
      parse_parts_full i f (emit_nonempty 38 (v / scale)) (padded_nonempty 17 (v % scale))
        (length-padded 18 (v % scale)) (emit_digits 39 (v / scale)) (padded_digits 18 (v % scale))
        (rw (parts_value v h) h)
      ∙ ap ok (parts_value v h))
