-- ===== src/Reserve/Custody/Order.antt =====
-- The report does not depend on the order in which the participant returned the positions.
use Prim.Native.Nat.Ordering.{lt, gt}
use mathlib.Core.List.{Permᴰ}
use mathlib.Core.List.Permᴰ.{nil, cons, swap, trans}
use canton_assurance_layer.Prelude.{
  ◌≡◌, refl, sym, ◌∙◌, subst, arith, false, inl, inr, List, [], ◌∷◌, All, Text, Bytes, text_eq,
  text_eq_iff, cmp, cmp_refl, eq_of_cmp, lt_of_gt, cmp_trans, Ordering-cases, is_empty,
}
use canton_assurance_layer.Primitives.{Primitives}
use canton_assurance_layer.Report.Sign.{ReportSigner}
use canton_assurance_layer.Report.Produce.{ReportMetadata}
use canton_assurance_layer.Reserve.{CustodyPosition}
use canton_assurance_layer.Reserve.Holdings.{IsApart, text_eq_comm}
use canton_assurance_layer.Reserve.Custody.{insert_by_id, sort_by_id, build_custody_report}

gt_of_lt : (s t : Text) → cmp s t ≡ lt → cmp t s ≡ gt
gt_of_lt s t h = elim (Ordering-cases (cmp t s)) [
  | inl e ↦ absurd (cc (cmp_trans s t s h e, cmp_refl s))
  | inr (inl e) ↦ absurd (cc (eq_of_cmp t s e, h, cmp_refl s))
  | inr (inr e) ↦ e
]

-- Two positions of different contracts are inserted in either order.
insert_by_id-lt :
    (a b : CustodyPosition) (l : List CustodyPosition)
    → cmp a.contract_id b.contract_id ≡ lt
    → insert_by_id a (insert_by_id b l) ≡ insert_by_id b (insert_by_id a l)
unfolding insert_by_id
insert_by_id-lt a b [] h = rw (insert_by_id, h, gt_of_lt a.contract_id b.contract_id h) refl
insert_by_id-lt a b (y ∷ l) h = ground (
  arith,
  insert_by_id-lt a b l h,
  gt_of_lt a.contract_id b.contract_id h,
  h,
  cmp_trans a.contract_id b.contract_id y.contract_id h,
  eq_of_cmp b.contract_id y.contract_id,
  eq_of_cmp a.contract_id y.contract_id,
  lt_of_gt a.contract_id y.contract_id,
)

insert_by_id_comm :
    (a b : CustodyPosition) (l : List CustodyPosition)
    → text_eq a.contract_id b.contract_id ≡ false
    → insert_by_id a (insert_by_id b l) ≡ insert_by_id b (insert_by_id a l)
insert_by_id_comm a b l h = elim (Ordering-cases (cmp a.contract_id b.contract_id)) [
  | inl e ↦ insert_by_id-lt a b l e
  | inr (inl e) ↦ absurd (cc (h, (text_eq_iff a.contract_id b.contract_id).1 (eq_of_cmp _ _ e)))
  | inr (inr e) ↦ sym (insert_by_id-lt b a l (lt_of_gt a.contract_id b.contract_id e))
]

All-reordered :
    (P : CustodyPosition → Type 0) {l m : List CustodyPosition} → Permᴰ l m → All P l → All P m
All-reordered P nil h = tt
All-reordered P (cons e d) (h, hs) = (subst P e h, All-reordered P d hs)
All-reordered P (swap e f) (x, (y, h)) = (subst P f y, (subst P e x, h))
All-reordered P (trans d e) h = All-reordered P e (All-reordered P d h)

-- A position of another contract than any of the list.
abbrev Differs : List CustodyPosition → CustodyPosition → Type 0
Differs l x = All (λ (y : CustodyPosition). text_eq x.contract_id y.contract_id ≡ false) l

IsApart-reordered : {l m : List CustodyPosition} → Permᴰ l m → IsApart l → IsApart m
IsApart-reordered nil h = tt
IsApart-reordered (cons {a} {b} {l₁ = l} {l₂ = m} e d) (h, hs) = (
  subst (Differs m) e (All-reordered (λ y. text_eq a.contract_id y.contract_id ≡ false) d h),
  IsApart-reordered d hs,
)
IsApart-reordered (swap {a} {b} {a'} {b'} {l = l} e f) ((x, xs), (y, h)) = (
  (cc (e, f, x, text_eq_comm a.contract_id b.contract_id), subst (Differs l) f y),
  (subst (Differs l) e xs, h),
)
IsApart-reordered (trans d e) h = IsApart-reordered e (IsApart-reordered d h)

sort_by_id_reordered :
    {l m : List CustodyPosition} → Permᴰ l m → IsApart l → sort_by_id l ≡ sort_by_id m
unfolding sort_by_id
sort_by_id_reordered nil k = refl
sort_by_id_reordered (cons {a} {l₁ = l} e d) (k, ks) = cc (e, sort_by_id_reordered d ks)
sort_by_id_reordered (swap {a} {b} {l = l} e f) ((x, xs), k) =
    cc (e, f, insert_by_id_comm a b (sort_by_id l) x)
sort_by_id_reordered (trans d e) k =
    sort_by_id_reordered d k ∙ sort_by_id_reordered e (IsApart-reordered d k)

is_empty_reordered : {l m : List CustodyPosition} → Permᴰ l m → is_empty l ≡ is_empty m
is_empty_reordered nil = refl
is_empty_reordered (cons e d) = refl
is_empty_reordered (swap e f) = refl
is_empty_reordered (trans d e) = is_empty_reordered d ∙ is_empty_reordered e

-- Two lists of the same positions in different orders, no contract twice, give
-- one report, or one error.
pub build_custody_report_reordered :
    (p : Primitives) (positions others : List CustodyPosition) (meta : ReportMetadata)
    (snapshot_offset : Text) (master_salt : Bytes) (signer : ReportSigner)
    → Permᴰ positions others
    → IsApart positions
    → build_custody_report p positions meta snapshot_offset master_salt signer
      ≡ build_custody_report p others meta snapshot_offset master_salt signer
unfolding build_custody_report
build_custody_report_reordered p positions others meta snapshot_offset master_salt signer d k =
    rw (is_empty_reordered d, sort_by_id_reordered d k) refl
