-- ===== src/Reserve/Holdings.antt =====
-- What `parse_holdings` accepts: every item read, in order, and no contract twice.
use canton_assurance_layer.Prelude.{
  ◌≡◌, refl, ap, subst, arith, ◌↔◌, Bool, true, false, not, List, [], ◌∷◌, some, Text, text_eq,
  text_eq_iff, any, All, ok, ok_or, ensure, ensure-eq-ok, map_err, >>=-eq-ok, >>-eq-ok,
  ok-injective, ok_or-eq-ok,
}
use canton_assurance_layer.Merkle.Amount.{parse_amount_18dp}
use canton_assurance_layer.Reserve.{
  Json, HoldingFields, CustodyPosition, no_arguments, no_asset, no_amount, not_json, not_an_array,
  appears_twice, bad_amount, contract_id_of, position_of, read_items, parse_holdings,
}

-- No contract stands twice.
abbrev pub IsApart : List CustodyPosition → Type 0
IsApart [] = Unit
IsApart (x ∷ positions) =
    All (λ (y : CustodyPosition). text_eq x.contract_id y.contract_id ≡ false) positions
    × IsApart positions

-- No contract is one of those seen before.
abbrev IsNew : List Text → List CustodyPosition → Type 0
IsNew seen = All (λ (x : CustodyPosition). any (text_eq x.contract_id) seen ≡ false)

not-eq-true : (b : Bool) → not b ≡ true → b ≡ false
not-eq-true b h = ground arith

pub text_eq_comm : (s t : Text) → text_eq s t ≡ text_eq t s
text_eq_comm s t = ground (arith, text_eq_iff s t, text_eq_iff t s)

IsNew-split :
    (id : Text) (seen : List Text) (positions : List CustodyPosition)
    → IsNew (id ∷ seen) positions
    → All (λ (y : CustodyPosition). text_eq id y.contract_id ≡ false) positions
      × IsNew seen positions
IsNew-split id seen [] h = (tt, tt)
IsNew-split id seen (x ∷ positions) (h, hs) =
    let (a, b) = IsNew-split id seen positions hs in
    ((ground (arith, text_eq_comm id x.contract_id), a), (ground arith, b))

IsNew-join :
    (id : Text) (seen : List Text) (positions : List CustodyPosition)
    → All (λ (y : CustodyPosition). text_eq id y.contract_id ≡ false) positions
    → IsNew seen positions
    → IsNew (id ∷ seen) positions
IsNew-join id seen [] a h = tt
IsNew-join id seen (x ∷ positions) (a, apart) (h, hs) =
    (ground (arith, text_eq_comm id x.contract_id), IsNew-join id seen positions apart hs)

module _ (json : Json) (fields : HoldingFields) where
  -- The item's created event has the position's contract id, and its arguments the rest.
  abbrev pub IsRead : json.Value → CustodyPosition → Type 0
  IsRead item position =
      (created : json.Value) × (contract_id_of json item ≡ ok (created, position.contract_id))
      × (position_of json fields created position.contract_id ≡ ok position)

  abbrev pub AreRead : List json.Value → List CustodyPosition → Type 0
  AreRead [] [] = Unit
  AreRead [] (position ∷ positions) = ⊥
  AreRead (item ∷ items) [] = ⊥
  AreRead (item ∷ items) (position ∷ positions) = IsRead item position × AreRead items positions

  position_of-contract_id :
      (created : json.Value) (id : Text) {position : CustodyPosition}
      → position_of json fields created id ≡ ok position
      → id ≡ position.contract_id
  unfolding position_of
  position_of-contract_id created id {position} h =
      let (arguments, a, h1) = >>=-eq-ok (ok_or (json.get _ created) (no_arguments id)) _ h in
      let (av, b, h2) =
        >>=-eq-ok (ok_or (json.get fields.asset_field arguments) (no_asset id)) _ h1 in
      let (asset, c, h3) = >>=-eq-ok (ok_or (json.as_str av) (no_asset id)) _ h2 in
      let (rv, d, h4) =
        >>=-eq-ok (ok_or (json.get fields.amount_field arguments) (no_amount id)) _ h3 in
      let (raw, e, h5) = >>=-eq-ok (ok_or (json.as_str rv) (no_amount id)) _ h4 in
      let (units, f, h6) = >>=-eq-ok (map_err (bad_amount id) (parse_amount_18dp raw)) _ h5 in
      ap (λ (x : CustodyPosition). x.contract_id) (ok-injective h6)

  read_first :
      (seen : List Text) (item : json.Value) (items : List json.Value) (position : CustodyPosition)
      (rest : List CustodyPosition) (created : json.Value) (id : Text)
      → contract_id_of json item ≡ ok (created, id)
      → any (text_eq id) seen ≡ false
      → position_of json fields created id ≡ ok position
      → id ≡ position.contract_id
      → AreRead items rest × IsApart rest × IsNew (id ∷ seen) rest
      → AreRead (item ∷ items) (position ∷ rest)
        × IsApart (position ∷ rest)
        × IsNew seen (position ∷ rest)
  read_first seen item items position rest created id a new b same (reads, apart, fresh) =
      let (others, still) =
        IsNew-split position.contract_id seen rest
          (subst (λ i. IsNew (i ∷ seen) rest) same fresh) in
      (
        (
          (
            created,
            subst (λ i. contract_id_of json item ≡ ok (created, i)) same a,
            subst (λ i. position_of json fields created i ≡ ok position) same b,
          ),
          reads,
        ),
        (others, apart),
        (subst (λ i. any (text_eq i) seen ≡ false) same new, still),
      )

  read_items-AreRead :
      (seen : List Text) (items : List json.Value) (positions : List CustodyPosition)
      → read_items json fields seen items ≡ ok positions
      → AreRead items positions × IsApart positions × IsNew seen positions
  unfolding read_items
  read_items-AreRead seen [] positions h =
      subst (λ ps. AreRead [] ps × IsApart ps × IsNew seen ps) (ok-injective h) (tt, tt, tt)
  read_items-AreRead seen (item ∷ items) positions h =
      let ((created, id), a, h1) = >>=-eq-ok (contract_id_of json item) _ h in
      let (new, h2) = >>-eq-ok (ensure (not (any (text_eq id) seen)) (appears_twice id)) _ h1 in
      let (position, b, h3) = >>=-eq-ok (position_of json fields created id) _ h2 in
      let (rest, c, h4) = >>=-eq-ok (read_items json fields (id ∷ seen) items) _ h3 in
      subst (λ ps. AreRead (item ∷ items) ps × IsApart ps × IsNew seen ps) (ok-injective h4)
        (read_first seen item items position rest created id a
          (not-eq-true _ (ensure-eq-ok _ (appears_twice id) new)) b
          (position_of-contract_id created id {position = position} b)
          (read_items-AreRead (id ∷ seen) items rest c))

  read_items_lem :
      (seen : List Text) (items : List json.Value) (positions : List CustodyPosition)
      → AreRead items positions
      → IsApart positions
      → IsNew seen positions
      → read_items json fields seen items ≡ ok positions
  unfolding read_items
  read_items_lem seen [] [] r a n = refl
  read_items_lem seen [] (position ∷ positions) r a n = absurd r
  read_items_lem seen (item ∷ items) [] r a n = absurd r
  read_items_lem seen (item ∷ items) (x ∷ positions) ((created, e, f), r) (a, apart) (n, new) =
      rw
        (
          e,
          n,
          f,
          read_items_lem (x.contract_id ∷ seen) items positions r apart
              (IsNew-join x.contract_id seen positions a new),
        )
        refl

  IsNew-empty : (positions : List CustodyPosition) → IsNew [] positions
  IsNew-empty [] = tt
  IsNew-empty (x ∷ positions) = (refl, IsNew-empty positions)

  -- `parse_holdings` returns some positions exactly where the body is an array whose items are read
  -- to those positions, in that order, and no two positions have one contract id.
  pub parse_holdings-AreRead :
      (body : Text) (positions : List CustodyPosition)
      → (parse_holdings json body fields ≡ ok positions) ↔ (
          (parsed : json.Value) × (items : List json.Value) × (json.from_str body ≡ some parsed)
          × (json.as_array parsed ≡ some items)
          × AreRead items positions
          × IsApart positions)
  unfolding parse_holdings
  parse_holdings-AreRead body positions = (
    (λ h.
        let (parsed, a, h1) = >>=-eq-ok (ok_or (json.from_str body) not_json) _ h in
        let (items, b, h2) = >>=-eq-ok (ok_or (json.as_array parsed) not_an_array) _ h1 in
        let (reads, apart, new) = read_items-AreRead [] items positions h2 in
        (
          parsed,
          items,
          ok_or-eq-ok (json.from_str body) not_json a,
          ok_or-eq-ok (json.as_array parsed) not_an_array b,
          reads,
          apart,
        )),
    (λ h.
        let (parsed, items, a, b, reads, apart) = h in
        rw (a, b) (read_items_lem [] items positions reads apart (IsNew-empty positions))),
  )
