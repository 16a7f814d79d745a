-- ===== src/Merkle/Amount/Digits.antt =====
-- The two printers spell the number, in digits.
use native.Mathlib.Nat.{pow-suc}
use canton_assurance_layer.Prelude.{
  ℕ, zero, suc, ◌+◌, ◌-◌, ◌*◌, ◌/◌, ◌%◌, ◌^◌, ◌<◌, ◌≡◌, refl, true, false, [], ◌∷◌, ◌++◌, arith,
  Text, ltb, length, length-append, all, is_empty, Bool-cases, inl, inr, ◌&&◌,
}
use canton_assurance_layer.Merkle.Amount.{is_digit, decimal_value, emit, padded}

pub decimal_value-append :
    (s t : Text) (a : ℕ) → decimal_value a (s ++ t) ≡ decimal_value (decimal_value a s) t
unfolding decimal_value
decimal_value-append [] t a = refl
decimal_value-append (c ∷ s) t a = decimal_value-append s t (a * 10 + (c - b'0'))

pub all-append : (s t : Text) → all is_digit (s ++ t) ≡ (all is_digit s && all is_digit t)
all-append [] t = refl
all-append (c ∷ s) t = ground (arith, all-append s t)

-- A digit behind a text that spells `m`.
decimal_value-snoc :
    (s : Text) (m n : ℕ)
    → decimal_value 0 s ≡ m
    → m ≡ n / 10
    → decimal_value 0 (s ++ (b'0' + n % 10) ∷ []) ≡ n
unfolding decimal_value
decimal_value-snoc s m n h e = omega (arith, decimal_value-append s ((b'0' + n % 10) ∷ []) 0)

pub emit_value : (f n : ℕ) → n < 10 ^ f → decimal_value 0 (emit f n) ≡ n
unfolding emit decimal_value
emit_value zero n h = omega arith
emit_value (suc f) n h = elim (Bool-cases (ltb n 10)) [
  | inl small ↦ rw small (omega arith)
  | inr large ↦ rw large (
      decimal_value-snoc (emit f (n / 10)) (n / 10) n
        (emit_value f (n / 10) (omega (arith, pow-suc 10 f))) refl)
]

digit_of : (n : ℕ) → is_digit (b'0' + n % 10) ≡ true
digit_of n = ground arith

pub emit_digits : (f n : ℕ) → all is_digit (emit f n) ≡ true
unfolding emit
emit_digits zero n = refl
emit_digits (suc f) n =
    ground (
      arith,
      emit_digits f (n / 10),
      all-append (emit f (n / 10)) ((b'0' + n % 10) ∷ []),
      digit_of n,
    )

pub emit_nonempty : (f n : ℕ) → is_empty (emit (suc f) n) ≡ false
unfolding emit
emit_nonempty f n = elim (Bool-cases (ltb n 10)) [
  | inl small ↦ rw small
  | inr large ↦ rw large (snoc (emit f (n / 10)) (b'0' + n % 10))
]
  where
    snoc : (s : Text) (c : ℕ) → is_empty (s ++ c ∷ []) ≡ false
    snoc [] c = refl
    snoc (d ∷ s) c = refl

pub padded_value : (w n : ℕ) → n < 10 ^ w → decimal_value 0 (padded w n) ≡ n
unfolding padded decimal_value
padded_value zero n h = omega arith
padded_value (suc w) n h =
    decimal_value-snoc (padded w (n / 10)) (n / 10) n
      (padded_value w (n / 10) (omega (arith, pow-suc 10 w))) refl

pub padded_digits : (w n : ℕ) → all is_digit (padded w n) ≡ true
unfolding padded
padded_digits zero n = refl
padded_digits (suc w) n = ground (
  arith,
  padded_digits w (n / 10),
  all-append (padded w (n / 10)) ((b'0' + n % 10) ∷ []),
  digit_of n,
)

pub length-padded : (w n : ℕ) → length (padded w n) ≡ w
unfolding padded
length-padded zero n = refl
length-padded (suc w) n =
    omega
      (arith, length-padded w (n / 10), length-append (padded w (n / 10)) ((b'0' + n % 10) ∷ []))
