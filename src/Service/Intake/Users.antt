-- ===== src/Service/Intake/Users.antt =====
-- What the loop over the leaves makes of them all: the users' balances and the bad debt account for
-- every entry of the request.
use canton_assurance_layer.Prelude.{
  ℕ, ◌+◌, ◌≡◌, refl, subst, arith, Bool, true, false, not, List, [], ◌∷◌, Text, is_empty, BTreeMap,
  IsSorted, IsSorted-insert, insert, cmp, amount, amounts, amounts-eq-amount, text_eq, text_eq_iff,
  text_eq_refl, eq_of_cmp, if◌then◌else◌, ok, ensure, ensure-eq-ok, >>=-eq-ok, >>-eq-ok,
  ok-injective, contains_key, inl, inr, All, Ordering-cases,
}
use canton_assurance_layer.Prelude.Space.{trim}
use canton_assurance_layer.Service.Intake.{
  empty_user, duplicate_user, Sheet, LeafIn, Book, sign_of, enter_balance, enter_balances,
  enter_leaf, enter_leaves,
}
use canton_assurance_layer.Service.Intake.Debt.{
  credit, owed, Fits, amount-insert, enter_balance-Enters, enter_balances-owed,
}

abbrev pub credits : Text → Text × Text → ℕ
credits k (name, raw) = if text_eq (trim name) k then credit (sign_of raw) (trim raw) else 0

unfoldable pub credited : Text → List (Text × Text) → ℕ
credited k [] = 0
credited k (e ∷ m) = credits k e + credited k m

-- No two entries name one asset, once trimmed.
abbrev pub IsApart : List (Text × Text) → Type 0
IsApart [] = Unit
IsApart (e ∷ m) = All (λ (f : Text × Text). text_eq (trim e.0) (trim f.0) ≡ false) m × IsApart m

-- No entry names an asset that the map already has.
abbrev IsFresh : BTreeMap ℕ → List (Text × Text) → Type 0
IsFresh held = All (λ (f : Text × Text). amount (trim f.0) held ≡ 0)

IsFresh-empty : (m : List (Text × Text)) → IsFresh [] m
IsFresh-empty [] = tt
IsFresh-empty (e ∷ m) = (refl, IsFresh-empty m)

IsFresh-insert :
    (asset : Text) (v : ℕ) (held : BTreeMap ℕ) (m : List (Text × Text))
    → All (λ (f : Text × Text). text_eq asset (trim f.0) ≡ false) m
    → IsFresh held m
    → IsFresh (insert asset v held) m
IsFresh-insert asset v held [] a f = tt
IsFresh-insert asset v held (e ∷ m) (a, apart) (f, fs) =
    (rw (amount-insert (trim e.0) asset v held, a) f, IsFresh-insert asset v held m apart fs)

amount-credits :
    (k name raw : Text) (s s' : Sheet)
    → amount (trim name) s.balances ≡ 0
    → s'.balances ≡ insert (trim name) (credit (sign_of raw) (trim raw)) s.balances
    → amount k s'.balances ≡ amount k s.balances + credits k (name, raw)
amount-credits k name raw s s' fresh e =
    rw (e, amount-insert k (trim name) (credit (sign_of raw) (trim raw)) s.balances)
      (ground (arith, text_eq_iff (trim name) k))

-- Where the names are apart, the loop over one leaf's balances keeps every amount that is held.
pub enter_balances-credited :
    (m : List (Text × Text)) (s : Sheet) {s' : Sheet}
    → IsApart m
    → IsFresh s.balances m
    → IsSorted s.balances
    → enter_balances m s ≡ ok s'
    → ((k : Text) → amount k s'.balances ≡ amount k s.balances + credited k m)
      × IsSorted s'.balances
unfolding enter_balances credited
enter_balances-credited [] s {s'} apart fresh o h =
    subst
      (λ (t : Sheet).
        ((k : Text) → amount k t.balances ≡ amount k s.balances + 0) × IsSorted t.balances)
      (ok-injective h) ((λ k. omega arith), o)
enter_balances-credited ((name, raw) ∷ m) s {s'} (a, apart) (f, fresh) o h =
    let (next, e, h1) = >>=-eq-ok (enter_balance (name, raw) s) _ h in
    let (debt, held, fits) = enter_balance-Enters (name, raw) s {s' = next} e in
    let units = credit (sign_of raw) (trim raw) in
    let (rest, order) =
      enter_balances-credited m next {s' = s'} apart
        (rw held (IsFresh-insert (trim name) units s.balances m a fresh))
        (rw held (IsSorted-insert (trim name) units s.balances o)) h1 in
    ((λ k. omega (arith, rest k, amount-credits k name raw s next f held)), order)

-- What the users of a book hold of an asset, all together.
unfoldable pub stock : Text → BTreeMap (BTreeMap ℕ) → ℕ
stock k [] = 0
stock k ((u, held) ∷ users) = amounts k held + stock k users

absent_below :
    (u user : Text) (b : BTreeMap ℕ) (users : BTreeMap (BTreeMap ℕ))
    → contains_key user ((u, b) ∷ users) ≡ false
    → contains_key user users ≡ false
absent_below u user b users h = ground arith

stock-insert :
    (k user : Text) (held : BTreeMap ℕ) (users : BTreeMap (BTreeMap ℕ))
    → contains_key user users ≡ false
    → stock k (insert user held users) ≡ stock k users + amounts k held
unfolding stock insert
stock-insert k user held [] new = omega arith
stock-insert k user held ((u, b) ∷ users) new = elim (Ordering-cases (cmp user u)) [
  | inl e ↦ rw (stock, insert, e, stock) (omega arith)
  | inr (inl e) ↦ absurd (ground (arith, eq_of_cmp user u, text_eq_refl u))
  | inr (inr e) ↦
      rw (stock, insert, e, stock)
        (omega (arith, stock-insert k user held users (absent_below u user b users new)))
]

-- What the leaves of a request owe and hold of an asset, all together.
unfoldable pub owed_by : Text → List LeafIn → ℕ
owed_by k [] = 0
owed_by k (l ∷ leaves) = owed k l.balances + owed_by k leaves

unfoldable pub credited_to : Text → List LeafIn → ℕ
credited_to k [] = 0
credited_to k (l ∷ leaves) = credited k l.balances + credited_to k leaves

-- A book after some leaves, against the book before them.
abbrev pub Counts : List LeafIn → Book → Book → Type 0
Counts leaves b b' =
    ((k : Text)
      → (amount k b'.debt ≡ amount k b.debt + owed_by k leaves)
        × (stock k b'.users ≡ stock k b.users + credited_to k leaves))
    × (Fits b.debt → Fits b'.debt)

not-eq-true : (b : Bool) → not b ≡ true → b ≡ false
not-eq-true b h = ground arith

enter_leaf-Counts :
    (i : ℕ) (leaf : LeafIn) (b : Book) {b' : Book}
    → IsApart leaf.balances
    → enter_leaf i leaf b ≡ ok b'
    → Counts (leaf ∷ []) b b'
unfolding enter_leaf owed_by credited_to
enter_leaf-Counts i leaf b {b'} apart h =
    let user_id = trim leaf.user_id in
    let (named, h1) = >>-eq-ok (ensure (not (is_empty user_id)) (empty_user i)) _ h in
    let (new, h2) =
      >>-eq-ok (ensure (not (contains_key user_id b.users)) (duplicate_user i user_id)) _ h1 in
    let start : Sheet = record { bad_debt = b.debt; clamped = b.clamps; balances = [] } in
    let (sheet, e, h3) = >>=-eq-ok (enter_balances leaf.balances start) _ h2 in
    let (debt, fits) = enter_balances-owed leaf.balances start {s' = sheet} e in
    let (held, order) =
      enter_balances-credited leaf.balances start {s' = sheet} apart (IsFresh-empty leaf.balances)
        tt e in
    let absent : contains_key user_id b.users ≡ false =
      not-eq-true _ (ensure-eq-ok _ (duplicate_user i user_id) new) in
    subst (Counts (leaf ∷ []) b) (ok-injective h3) (
      (λ k. (
        omega (arith, debt k),
        omega (
          arith,
          held k,
          amounts-eq-amount k sheet.balances order,
          stock-insert k user_id sheet.balances b.users absent,
        ),
      )),
      fits,
    )

none_counted : (b : Book) → Counts [] b b
unfolding owed_by credited_to
none_counted b = ((λ k. (omega arith, omega arith)), (λ all. all))

counted :
    (leaf : LeafIn) (leaves : List LeafIn) (b mid b' : Book)
    → Counts (leaf ∷ []) b mid
    → Counts leaves mid b'
    → Counts (leaf ∷ leaves) b b'
unfolding owed_by credited_to
counted leaf leaves b mid b' (first, fits) (rest, still) = (
  (λ k. (omega (arith, first k, rest k), omega (arith, first k, rest k))),
  (λ all. still (fits all)),
)

-- The loop over the leaves of a request, each with names that stay apart once trimmed: for every
-- asset the bad debt grows by what the negative entries owe, the users' balances by what the others
-- hold, and the bad debt still fits in a `u128`.
pub enter_leaves-Counts :
    (i : ℕ) (leaves : List LeafIn) (b : Book) {b' : Book}
    → All (λ (l : LeafIn). IsApart l.balances) leaves
    → enter_leaves i leaves b ≡ ok b'
    → Counts leaves b b'
unfolding enter_leaves
enter_leaves-Counts i [] b {b'} apart h = subst (Counts [] b) (ok-injective h) (none_counted b)
enter_leaves-Counts i (leaf ∷ leaves) b {b'} (a, apart) h =
    let (mid, e, h1) = >>=-eq-ok (enter_leaf i leaf b) _ h in
    counted leaf leaves b mid b' (enter_leaf-Counts i leaf b {b' = mid} a e)
      (enter_leaves-Counts (i + 1) leaves mid {b' = b'} apart h1)
