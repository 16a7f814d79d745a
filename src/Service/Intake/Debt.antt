-- ===== src/Service/Intake/Debt.antt =====
-- What a leaf's entries say, read by themselves, and what the loop makes of them: the bad debt of
-- each asset, and the balances.
use canton_assurance_layer.Prelude.{
  ℕ, ◌+◌, ◌<◌, ◌≡◌, refl, subst, arith, not, List, [], ◌∷◌, Option, none, some, Text, is_empty,
  BTreeMap, insert, amount, get-insert, text_eq, text_eq_iff, if◌then◌else◌, Result, ok, err,
  ensure, ok_or, map_err, >>=-eq-ok, >>-eq-ok, ok-injective, ok_or-eq-ok, checked_add,
  checked_add-eq-some, u128_mod,
}
use canton_assurance_layer.Prelude.Space.{trim}
use canton_assurance_layer.Merkle.Amount.{AmountError, parse_amount_18dp}
use canton_assurance_layer.Report.Verify.Accepted.{map_err-eq-ok}
use canton_assurance_layer.Service.Intake.{
  bad_amount, bad_debt_overflow, empty_asset, Sheet, owe, hold, sign_of, enter_signed,
  enter_balance, enter_balances,
}

abbrev pub value_or_zero : Result AmountError ℕ → ℕ
value_or_zero (ok a) = a
value_or_zero (err e) = 0

-- What an entry owes and what it holds, by its sign.
abbrev pub debit : Option Text → ℕ
debit none = 0
debit (some magnitude) = value_or_zero (parse_amount_18dp magnitude)

abbrev pub credit : Option Text → Text → ℕ
credit none raw = value_or_zero (parse_amount_18dp raw)
credit (some magnitude) raw = 0

abbrev pub owes : Text → Text × Text → ℕ
owes k (name, raw) = if text_eq (trim name) k then debit (sign_of raw) else 0

-- What the entries of one asset owe, and hold, all together.
unfoldable pub owed : Text → List (Text × Text) → ℕ
owed k [] = 0
owed k (e ∷ m) = owes k e + owed k m

abbrev pub Fits : BTreeMap ℕ → Type 0
Fits m = (k : Text) → amount k m < u128_mod

pub amount-insert :
    (k j : Text) (v : ℕ) (m : BTreeMap ℕ)
    → amount k (insert j v m) ≡ (if text_eq j k then v else amount k m)
amount-insert k j v m = rw (get-insert j k v m) (ground arith)

-- What one entry does to the state of the loop.
abbrev pub Enters : Text → ℕ → ℕ → Sheet → Sheet → Type 0
Enters asset debt units s s' =
    ((k : Text)
      → amount k s'.bad_debt ≡ amount k s.bad_debt + (if text_eq asset k then debt else 0))
    × (s'.balances ≡ insert asset units s.balances)
    × (Fits s.bad_debt → Fits s'.bad_debt)

owe-Enters :
    (asset magnitude : Text) (s : Sheet) {s' : Sheet}
    → owe asset magnitude s ≡ ok s'
    → Enters asset (value_or_zero (parse_amount_18dp magnitude)) 0 s s'
unfolding owe
owe-Enters asset magnitude s {s'} h =
    let (debt, e, h1) = >>=-eq-ok (map_err bad_amount (parse_amount_18dp magnitude)) _ h in
    let (slot, f, h2) =
      >>=-eq-ok (ok_or (checked_add (amount asset s.bad_debt) debt) bad_debt_overflow) _ h1 in
    let p : parse_amount_18dp magnitude ≡ ok debt = map_err-eq-ok bad_amount _ e in
    let (sum, fits) =
      checked_add-eq-some (amount asset s.bad_debt) debt {c = slot}
        (ok_or-eq-ok _ bad_debt_overflow f) in
    subst (Enters asset (value_or_zero (parse_amount_18dp magnitude)) 0 s) (ok-injective h2) (
      (λ k.
          rw (amount-insert k asset slot s.bad_debt, p) (ground (arith, text_eq_iff asset k, sum))),
      refl,
      (λ all k. rw (amount-insert k asset slot s.bad_debt) (ground (arith, all k, fits))),
    )

hold-Enters :
    (asset raw : Text) (s : Sheet) {s' : Sheet}
    → hold asset raw s ≡ ok s'
    → Enters asset 0 (value_or_zero (parse_amount_18dp raw)) s s'
unfolding hold
hold-Enters asset raw s {s'} h =
    let (units, e, h1) = >>=-eq-ok (map_err bad_amount (parse_amount_18dp raw)) _ h in
    let p : parse_amount_18dp raw ≡ ok units = map_err-eq-ok bad_amount _ e in
    subst (Enters asset 0 (value_or_zero (parse_amount_18dp raw)) s) (ok-injective h1)
      ((λ k. ground arith), rw p refl, (λ all. all))

enter_signed-Enters :
    (asset : Text) (sign : Option Text) (raw : Text) (s : Sheet) {s' : Sheet}
    → enter_signed asset sign raw s ≡ ok s'
    → Enters asset (debit sign) (credit sign raw) s s'
unfolding enter_signed
enter_signed-Enters asset none raw s {s'} h = hold-Enters asset raw s {s' = s'} h
enter_signed-Enters asset (some magnitude) raw s {s'} h = owe-Enters asset magnitude s {s' = s'} h

pub enter_balance-Enters :
    (e : Text × Text) (s : Sheet) {s' : Sheet}
    → enter_balance e s ≡ ok s'
    → Enters (trim e.0) (debit (sign_of e.1)) (credit (sign_of e.1) (trim e.1)) s s'
unfolding enter_balance
enter_balance-Enters (name, raw) s {s'} h =
    let (named, h1) = >>-eq-ok (ensure (not (is_empty (trim name))) empty_asset) _ h in
    enter_signed-Enters (trim name) (sign_of raw) (trim raw) s {s' = s'} h1

-- The loop over one leaf's balances adds what they owe to the bad debt, and keeps it in a `u128`.
pub enter_balances-owed :
    (m : List (Text × Text)) (s : Sheet) {s' : Sheet}
    → enter_balances m s ≡ ok s'
    → ((k : Text) → amount k s'.bad_debt ≡ amount k s.bad_debt + owed k m)
      × (Fits s.bad_debt → Fits s'.bad_debt)
unfolding enter_balances owed
enter_balances-owed [] s {s'} h =
    subst
      (λ (t : Sheet).
        ((k : Text) → amount k t.bad_debt ≡ amount k s.bad_debt + 0)
        × (Fits s.bad_debt → Fits t.bad_debt))
      (ok-injective h) ((λ k. omega arith), (λ all. all))
enter_balances-owed (e ∷ m) s {s'} h =
    let (next, f, h1) = >>=-eq-ok (enter_balance e s) _ h in
    let (debt, held, fits) = enter_balance-Enters e s {s' = next} f in
    let (rest, still) = enter_balances-owed m next {s' = s'} h1 in
    ((λ k. omega (arith, debt k, rest k)), (λ all. still (fits all)))
