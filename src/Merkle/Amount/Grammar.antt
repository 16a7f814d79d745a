-- ===== src/Merkle/Amount/Grammar.antt =====
-- `parse_amount_18dp` accepts exactly the decimals with at most 18 places that fit a `u128`.
use canton_assurance_layer.Prelude.{
  ℕ, zero, suc, ◌+◌, ◌-◌, ◌*◌, ◌<◌, ◌≤◌, ◌≡◌, refl, ◌⊎◌, inl, inr, Bool, true, false, not, some,
  none, [], ◌∷◌, ◌++◌, arith, Text, leb, length, replicate, all, is_empty, ok, ensure, ok_or,
  u128_mod, checked_add, checked_mul, Option, ◌&&◌, ◌||◌, ◌==◌, if◌then◌else◌, >>-eq-ok, >>=-eq-ok,
  ensure-eq-ok, ok_or-eq-ok, &&_iff, leb→le, le→leb, ◌↔◌, ◌∙◌, ap, sym,
}
use canton_assurance_layer.Merkle.Amount.{
  scale, is_digit, split_once, behind, decimal_value, parse_u128, pad_right, parse_parts,
  parse_amount_18dp, join_parts, amount_parts, has_point, fraction_units, missing_integer_part,
  bare_point, too_many_places, not_decimal, bad_number,
}
use canton_assurance_layer.Merkle.Amount.RoundTrip.{
  split_once_digits, parse_u128_digits, join_parts_fits,
}
use canton_assurance_layer.Merkle.Amount.Digits.{all-append}

-- The text is `whole`, or `whole.fraction` with a digit behind the point, and stands for `v`
-- units of 10 ^ -18.
pub record Spells (s : Text) (v : ℕ) : Type 0 where
  pub whole : Text
  pub fraction : Text
  pub shape :
      ((s ≡ whole) × (fraction ≡ []))
      ⊎ ((s ≡ whole ++ b'.' ∷ fraction) × (is_empty fraction ≡ false))
  pub whole_given : is_empty whole ≡ false
  pub whole_digits : all is_digit whole ≡ true
  pub fraction_digits : all is_digit fraction ≡ true
  pub precise : length fraction ≤ 18
  pub exact : v ≡ decimal_value 0 whole * scale + decimal_value 0 (pad_right 18 fraction)

join_parts_sound :
    (int frac : ℕ) {v : ℕ} → join_parts int frac ≡ ok v → (v ≡ int * scale + frac) × (v < u128_mod)
unfolding join_parts checked_add checked_mul
join_parts_sound int frac h = ground arith

parse_u128_sound : (s : Text) {n : ℕ} → parse_u128 s ≡ some n → n ≡ decimal_value 0 s
unfolding parse_u128
parse_u128_sound s h = ground arith

fraction_units_sound :
    (f : Text) {n : ℕ} → fraction_units f ≡ ok n → n ≡ decimal_value 0 (pad_right 18 f)
unfolding fraction_units
fraction_units_sound [] h = unfold decimal_value in cc
fraction_units_sound (c ∷ f) {n} h = ground (arith, parse_u128_sound (pad_right 18 (c ∷ f)) {n = n})

record PartsSpell (pointed : Bool) (i f : Text) (v : ℕ) : Type 0 where
  given : is_empty i ≡ false
  behind_point : (pointed ≡ false) ⊎ (is_empty f ≡ false)
  digits : (all is_digit i ≡ true) × (all is_digit f ≡ true)
  precise : length f ≤ 18
  exact : v ≡ decimal_value 0 i * scale + decimal_value 0 (pad_right 18 f)
  fits : v < u128_mod

parse_parts_sound :
    (pointed : Bool) (i f : Text) {v : ℕ}
    → parse_parts pointed i f ≡ ok v
    → PartsSpell pointed i f v
unfolding parse_parts
parse_parts_sound pointed i f {v} h =
    let (a, h1) = >>-eq-ok (ensure (not (is_empty i)) missing_integer_part) _ h in
    let (b, h2) = >>-eq-ok (ensure (not pointed || not (is_empty f)) bare_point) _ h1 in
    let (c, h3) = >>-eq-ok (ensure (leb (length f) 18) too_many_places) _ h2 in
    let (d, h4) = >>-eq-ok (ensure (all is_digit i && all is_digit f) not_decimal) _ h3 in
    let (int, e, h5) = >>=-eq-ok (ok_or (parse_u128 i) bad_number) _ h4 in
    let (frac, g, h6) = >>=-eq-ok (fraction_units f) _ h5 in
    let j = join_parts_sound int frac {v = v} h6 in
    record {
      given = ground (arith, ensure-eq-ok _ _ a);
      behind_point = ground (arith, ensure-eq-ok _ _ b);
      digits = (&&_iff _ _).0 (ensure-eq-ok _ _ d);
      precise = leb→le _ _ (ensure-eq-ok _ _ c);
      exact = omega (
        arith,
        j.0,
        parse_u128_sound i {n = int} (ok_or-eq-ok (parse_u128 i) bad_number e),
        fraction_units_sound f {n = frac} g,
      );
      fits = j.1;
    }

split_step :
    (c : ℕ) (s : Text) (o : Option (Text × Text)) {i f : Text}
    → ((p r : Text) → o ≡ some (p, r) → s ≡ p ++ b'.' ∷ r)
    → (if c == b'.' then some ([], s) else behind c o) ≡ some (i, f)
    → c ∷ s ≡ i ++ b'.' ∷ f
split_step c s none ih h = ground arith
split_step c s (some (p, r)) ih h = ground (arith, ih p r refl)

split_once_sound : (s : Text) {i f : Text} → split_once b'.' s ≡ some (i, f) → s ≡ i ++ b'.' ∷ f
unfolding split_once
split_once_sound [] h = cc
split_once_sound (c ∷ s) {i} {f} h =
    split_step c s (split_once b'.' s) (λ p r e. split_once_sound s {i = p} {f = r} e) h

split_once-none : (s : Text) → all is_digit s ≡ true → split_once b'.' s ≡ none
unfolding split_once
split_once-none [] h = refl
split_once-none (c ∷ s) h = ground (arith, split_once-none s)

parse_sound : (s : Text) {v : ℕ} → parse_amount_18dp s ≡ ok v → Spells s v × (v < u128_mod)
unfolding parse_amount_18dp
parse_sound s {v} h = go (split_once b'.' s) refl h
  where
    go :
        (o : Option (Text × Text))
        → split_once b'.' s ≡ o
        → parse_parts (has_point o) (amount_parts s o).0 (amount_parts s o).1 ≡ ok v
        → Spells s v × (v < u128_mod)
    go none e g =
        let r = parse_parts_sound false s [] {v = v} g in
        (
          record {
            whole = s;
            fraction = [];
            shape = inl (refl, refl);
            whole_given = r.given;
            whole_digits = r.digits.0;
            fraction_digits = refl;
            precise = r.precise;
            exact = r.exact;
          },
          r.fits,
        )
    go (some (i, f)) e g =
        let r = parse_parts_sound true i f {v = v} g in
        (
          record {
            whole = i;
            fraction = f;
            shape = inr (split_once_sound s e, ground (arith, r.behind_point));
            whole_given = r.given;
            whole_digits = r.digits.0;
            fraction_digits = r.digits.1;
            precise = r.precise;
            exact = r.exact;
          },
          r.fits,
        )

all-replicate : (n : ℕ) → all is_digit (replicate n b'0') ≡ true
all-replicate zero = refl
all-replicate (suc n) = all-replicate n

fraction_units_complete :
    (f : Text)
    → all is_digit f ≡ true
    → decimal_value 0 (pad_right 18 f) < u128_mod
    → fraction_units f ≡ ok (decimal_value 0 (pad_right 18 f))
unfolding fraction_units
fraction_units_complete [] d h = unfold decimal_value in refl
fraction_units_complete (c ∷ f) d h = rw (
    parse_u128_digits (pad_right 18 (c ∷ f)) refl
      (rw (all-append (c ∷ f) (replicate (18 - length (c ∷ f)) b'0'), all-replicate, d)) h)

parse_parts_complete :
    (pointed : Bool) (i f : Text)
    → is_empty i ≡ false
    → (not pointed || not (is_empty f)) ≡ true
    → all is_digit i ≡ true
    → all is_digit f ≡ true
    → length f ≤ 18
    → decimal_value 0 i * scale + decimal_value 0 (pad_right 18 f) < u128_mod
    → parse_parts pointed i f ≡ ok (decimal_value 0 i * scale + decimal_value 0 (pad_right 18 f))
unfolding parse_parts
parse_parts_complete pointed i f ni b di df l h =
    rw
      (
        ni,
        b,
        le→leb (length f) 18 l,
        di,
        df,
        parse_u128_digits i ni di (omega arith),
        fraction_units_complete f df (omega arith),
      )
      (join_parts_fits (decimal_value 0 i) (decimal_value 0 (pad_right 18 f)) h)

parse_complete : (s : Text) {v : ℕ} → Spells s v → v < u128_mod → parse_amount_18dp s ≡ ok v
unfolding parse_amount_18dp
parse_complete s {v} r h = go r.shape
  where
    i : Text
    i = r.whole

    f : Text
    f = r.fraction

    go :
        ((s ≡ i) × (f ≡ [])) ⊎ ((s ≡ i ++ b'.' ∷ f) × (is_empty f ≡ false))
        → parse_parts
            (has_point (split_once b'.' s))
            (amount_parts s (split_once b'.' s)).0
            (amount_parts s (split_once b'.' s)).1
          ≡ ok v
    go (inl (e, n)) =
        let x : v ≡ decimal_value 0 i * scale + decimal_value 0 (pad_right 18 []) =
          rw n at r.exact in
        rw (e, split_once-none i r.whole_digits)
          (parse_parts_complete false i [] r.whole_given refl r.whole_digits refl (omega arith)
              (rw (← x) h)
            ∙ ap ok (sym x))
    go (inr (e, n)) =
        rw (e, split_once_digits i f r.whole_digits)
          (parse_parts_complete true i f r.whole_given (rw n) r.whole_digits r.fraction_digits
              r.precise (rw (← r.exact) h)
            ∙ ap ok (sym r.exact))

-- `parse_amount_18dp` returns `v` exactly when the text is a plain decimal with at most 18 places
-- (at least one digit before the point, and one behind it where there is a point) that stands for
-- `v` units of 10 ^ -18, and `v` fits a `u128`.
pub parse-Spells : (s : Text) (v : ℕ) → (parse_amount_18dp s ≡ ok v) ↔ (Spells s v × (v < u128_mod))
parse-Spells s v = (parse_sound s, λ (r, h). parse_complete s r h)
