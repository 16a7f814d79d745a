-- ===== src/Merkle/Encoding/Prefix.antt =====
-- A length-prefixed encoding is read back in one way only, whatever bytes follow it.
use canton_assurance_layer.Prelude.{
  ℕ, zero, suc, ◌+◌, ◌/◌, ◌%◌, ◌<◌, ◌≤◌, ◌≡◌, refl, sym, ap, ◌∙◌, [], ◌∷◌, ◌++◌, append_assoc,
  arith, Text, Bytes, BTreeMap, All, length, length-append, append_inj, u64_mod, u128_mod, u64le,
  length-u64le, u64le_inj, ltb, Bool-cases, inl, inr,
}
use canton_assurance_layer.Merkle.Amount.{format_amount_18dp, decimal, emit, padded, scale}
use canton_assurance_layer.Merkle.Amount.Digits.{length-padded}
use canton_assurance_layer.Merkle.Amount.RoundTrip.{parse-format}
use canton_assurance_layer.Merkle.Encoding.{lp, lp_entries, lpmap}

-- A length that a `u64` holds, as every length on the machine is.
abbrev pub HasLength : Text → Type 0
HasLength s = length s < u64_mod

-- A map as the program can hold it: `u64` lengths and `u128` amounts.
pub record Fits (m : BTreeMap ℕ) : Type 0 where
  pub count : length m < u64_mod
  pub entries : All (λ (e : Text × ℕ). HasLength e.0 × (e.1 < u128_mod)) m

pub lp_inj :
    (s t x y : Text) → HasLength s → HasLength t → lp s ++ x ≡ lp t ++ y → (s ≡ t) × (x ≡ y)
unfolding lp
lp_inj s t x y hs ht h =
    let e : u64le (length s) ++ (s ++ x) ≡ u64le (length t) ++ (t ++ y) =
      sym (append_assoc (u64le (length s)) s x) ∙ h ∙ append_assoc (u64le (length t)) t y in
    let (n, r) =
      append_inj (u64le (length s)) (u64le (length t)) (s ++ x) (t ++ y)
        (length-u64le (length s) ∙ sym (length-u64le (length t))) e in
    append_inj s t x y (u64le_inj (length s) (length t) hs ht n) r

-- The canonical form determines the amount.
pub format_inj :
    (v w : ℕ) → v < u128_mod → w < u128_mod → format_amount_18dp v ≡ format_amount_18dp w → v ≡ w
format_inj v w hv hw e = cc (parse-format v hv, parse-format w hw, e)

length-emit : (f n : ℕ) → length (emit f n) ≤ f
unfolding emit
length-emit zero n = omega arith
length-emit (suc f) n = elim (Bool-cases (ltb n 10)) [
  | inl small ↦ rw small (omega arith)
  | inr large ↦ rw large (
      omega (arith, length-emit f (n / 10), length-append (emit f (n / 10)) ((b'0' + n % 10) ∷ [])))
]

pub length-format : (v : ℕ) → length (format_amount_18dp v) < u64_mod
unfolding format_amount_18dp decimal
length-format v =
    let rest = b'.' ∷ padded 18 (v % scale) in
    omega (
      arith,
      length-append (emit 39 (v / scale)) rest,
      length-emit 39 (v / scale),
      length-padded 18 (v % scale),
    )

lp_entries_inj :
    (m n : BTreeMap ℕ) (x y : Bytes)
    → length m ≡ length n
    → All (λ (e : Text × ℕ). HasLength e.0 × (e.1 < u128_mod)) m
    → All (λ (e : Text × ℕ). HasLength e.0 × (e.1 < u128_mod)) n
    → lp_entries m ++ x ≡ lp_entries n ++ y
    → (m ≡ n) × (x ≡ y)
unfolding lp_entries
lp_entries_inj [] [] x y l hm hn h = (refl, h)
lp_entries_inj [] (b ∷ n) x y l hm hn h = absurd (omega arith)
lp_entries_inj (a ∷ m) [] x y l hm hn h = absurd (omega arith)
lp_entries_inj ((j, v) ∷ m) ((k, w) ∷ n) x y l (hj, hm) (hk, hn) h =
    let regroup = λ (j : Text) (f e x : Bytes).
      append_assoc (lp j) (lp f ++ e) x ∙ ap (λ (t : Bytes). lp j ++ t) (append_assoc (lp f) e x) in
    let fv = format_amount_18dp v in
    let fw = format_amount_18dp w in
    let e : lp j ++ (lp fv ++ (lp_entries m ++ x)) ≡ lp k ++ (lp fw ++ (lp_entries n ++ y)) =
      sym (regroup j fv (lp_entries m) x) ∙ h ∙ regroup k fw (lp_entries n) y in
    let (ej, e1) = lp_inj j k _ _ hj.0 hk.0 e in
    let (ef, e2) = lp_inj fv fw _ _ (length-format v) (length-format w) e1 in
    let (em, ex) = lp_entries_inj m n x y (omega arith) hm hn e2 in
    let ev = format_inj v w hj.1 hk.1 ef in (cc (ej, ev, em), ex)

-- Two maps with one encoding, whatever follows, are the same map, and so are the rests.
pub lpmap_inj :
    (m n : BTreeMap ℕ) (x y : Bytes)
    → Fits m
    → Fits n
    → lpmap m ++ x ≡ lpmap n ++ y
    → (m ≡ n) × (x ≡ y)
unfolding lpmap
lpmap_inj m n x y hm hn h =
    let e : u64le (length m) ++ (lp_entries m ++ x) ≡ u64le (length n) ++ (lp_entries n ++ y) =
      sym (append_assoc (u64le (length m)) (lp_entries m) x)
      ∙ h
      ∙ append_assoc (u64le (length n)) (lp_entries n) y in
    let (c, r) =
      append_inj (u64le (length m)) (u64le (length n)) (lp_entries m ++ x) (lp_entries n ++ y)
        (length-u64le (length m) ∙ sym (length-u64le (length n))) e in
    lp_entries_inj m n x y (u64le_inj (length m) (length n) hm.count hn.count c) hm.entries
      hn.entries r
