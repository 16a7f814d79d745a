-- ===== src/Reserve/Totals.antt =====
-- Totals per asset: they exist exactly where every asset's amounts together fit in a `u128`.
use canton_assurance_layer.Prelude.{
  ℕ, ◌+◌, ◌<◌, ◌≡◌, refl, subst, arith, List, [], ◌∷◌, Text, BTreeMap, insert, get-insert, amount,
  text_eq, text_eq_iff, text_eq_refl, if◌then◌else◌, ok, ok_or, >>=-eq-ok, ok-injective,
  ok_or-eq-ok, checked_add, checked_add-eq-some, checked_add_fits, u128_mod,
}
use canton_assurance_layer.Reserve.{CustodyPosition, total_overflows, totals_from, totals}

-- What the positions in an asset hold, all together.
unfoldable pub held_in : Text → List CustodyPosition → ℕ
held_in k [] = 0
held_in k (position ∷ positions) =
    (if text_eq position.asset k then position.amount else 0) + held_in k positions

amount-slot :
    (k : Text) (position : CustodyPosition) (positions : List CustodyPosition) (slot : ℕ)
    (out : BTreeMap ℕ)
    → slot ≡ amount position.asset out + position.amount
    → amount k (insert position.asset slot out) + held_in k positions
      ≡ amount k out + held_in k (position ∷ positions)
unfolding held_in
amount-slot k position positions slot out e =
    rw (get-insert position.asset k slot out) (ground (arith, e, text_eq_iff position.asset k))

totals_from-held_in :
    (positions : List CustodyPosition) (out : BTreeMap ℕ) {result : BTreeMap ℕ}
    → ((k : Text) → amount k out < u128_mod)
    → totals_from positions out ≡ ok result
    → (k : Text)
    → (amount k result ≡ amount k out + held_in k positions) × (amount k result < u128_mod)
unfolding totals_from held_in
totals_from-held_in [] out {result} fits h k =
    subst (λ m. (amount k m ≡ amount k out + 0) × (amount k m < u128_mod)) (ok-injective h)
      (omega arith, fits k)
totals_from-held_in (position ∷ positions) out {result} fits h k =
    let (slot, e, h1) =
      >>=-eq-ok
        (ok_or (checked_add (amount position.asset out) position.amount)
          (total_overflows position.asset))
        _ h in
    let (sum, fit) =
      checked_add-eq-some (amount position.asset out) position.amount {c = slot}
        (ok_or-eq-ok _ (total_overflows position.asset) e) in
    let (q, below) =
      totals_from-held_in positions (insert position.asset slot out) {result = result}
        (λ j. rw (get-insert position.asset j slot out) (ground (arith, fits j, fit))) h1 k in
    (omega (arith, q, amount-slot k position positions slot out sum), below)

own_slot :
    (position : CustodyPosition) (positions : List CustodyPosition) (out : BTreeMap ℕ)
    → amount position.asset out + held_in position.asset (position ∷ positions) < u128_mod
    → amount position.asset out + position.amount < u128_mod
unfolding held_in
own_slot position positions out h = ground (arith, h, text_eq_refl position.asset)

totals_from_fits :
    (positions : List CustodyPosition) (out : BTreeMap ℕ)
    → ((k : Text) → amount k out + held_in k positions < u128_mod)
    → (result : BTreeMap ℕ) × (totals_from positions out ≡ ok result)
unfolding totals_from
totals_from_fits [] out fits = (out, refl)
totals_from_fits (position ∷ positions) out fits =
    let slot = amount position.asset out + position.amount in
    let own : slot < u128_mod = own_slot position positions out (fits position.asset) in
    let (result, e) =
      totals_from_fits positions (insert position.asset slot out)
        (λ k. rw (amount-slot k position positions slot out refl) (fits k)) in
    (result, rw (checked_add_fits (amount position.asset out) position.amount own) e)

-- `totals` returns totals exactly where, for every asset, the positions in it together fit in a
-- `u128`; and then each total is what the positions in the asset hold together.
pub totals-held_in :
    (positions : List CustodyPosition)
    → (((k : Text) → held_in k positions < u128_mod)
        → (out : BTreeMap ℕ) × (totals positions ≡ ok out))
      × ((out : BTreeMap ℕ)
          → totals positions ≡ ok out
          → (k : Text) → (amount k out ≡ held_in k positions) × (held_in k positions < u128_mod))
unfolding totals
totals-held_in positions = (
  (λ fits. totals_from_fits positions [] (λ k. omega (arith, fits k))),
  (λ out h k.
      let (q, below) = totals_from-held_in positions [] {result = out} (λ j. omega arith) h k in
      (omega (arith, q), omega (arith, q, below))),
)
