-- ===== src/Service/Intake.antt =====
-- rust/solvency-service/src/api.rs: what a publish request's customers owe and hold. The loop of
-- `do_publish` over the leaves: a negative balance is clamped to zero and disclosed as bad debt.
pub mod Debt
pub mod Users
use canton_assurance_layer.Prelude.{
  ℕ, ◌+◌, Bool, true, false, not, List, [], ◌∷◌, Option, none, some, Text, codes, is_empty,
  strip_prefix, BTreeMap, get, contains_key, insert, amount, Result, ok, err, ok_or, ensure,
  map_err, checked_add, ◌>>=◌, ◌>>◌,
}
use canton_assurance_layer.Prelude.Space.{trim}
use canton_assurance_layer.Merkle.Amount.{AmountError, parse_amount_18dp}

pub data IntakeError : Type 0 where
  empty_user : ℕ → IntakeError
  duplicate_user : ℕ → Text → IntakeError
  empty_asset bad_debt_overflow : IntakeError
  bad_amount : AmountError → IntakeError

pub record LeafIn : Type 0 where
  pub user_id : Text
  pub balances : BTreeMap Text

-- Amounts as they came, parsed.
unfoldable pub parsed_amounts : BTreeMap Text → Result IntakeError (BTreeMap ℕ)
parsed_amounts [] = ok []
parsed_amounts ((k, v) ∷ m) = do
  a ← map_err bad_amount (parse_amount_18dp v)
  rest ← parsed_amounts m
  ok ((k, a) ∷ rest)

-- What the loop over one leaf's balances changes.
pub record Sheet : Type 0 where
  pub bad_debt : BTreeMap ℕ
  pub clamped : ℕ
  pub balances : BTreeMap ℕ

unfoldable pub owe : Text → Text → Sheet → Result IntakeError Sheet
owe asset magnitude sheet = do
  owed ← map_err bad_amount (parse_amount_18dp magnitude)
  slot ← ok_or (checked_add (amount asset sheet.bad_debt) owed) bad_debt_overflow
  ok (record {
    bad_debt = insert asset slot sheet.bad_debt;
    clamped = sheet.clamped + 1;
    balances = insert asset 0 sheet.balances;
  })

unfoldable pub hold : Text → Text → Sheet → Result IntakeError Sheet
hold asset raw sheet = do
  units ← map_err bad_amount (parse_amount_18dp raw)
  ok (record sheet { balances = insert asset units sheet.balances })

-- `raw.strip_prefix('-')`
abbrev pub sign_of : Text → Option Text
sign_of raw = strip_prefix (b'-' ∷ []) (trim raw)

unfoldable pub enter_signed : Text → Option Text → Text → Sheet → Result IntakeError Sheet
enter_signed asset none raw sheet = hold asset raw sheet
enter_signed asset (some magnitude) raw sheet = owe asset magnitude sheet

unfoldable pub enter_balance : Text × Text → Sheet → Result IntakeError Sheet
enter_balance (name, raw) sheet =
    ensure (not (is_empty (trim name))) empty_asset
    >> enter_signed (trim name) (sign_of raw) (trim raw) sheet

unfoldable pub enter_balances : List (Text × Text) → Sheet → Result IntakeError Sheet
enter_balances [] sheet = ok sheet
enter_balances (e ∷ m) sheet = do next ← enter_balance e sheet; enter_balances m next

-- What the loop over the leaves changes.
pub record Book : Type 0 where
  pub debt : BTreeMap ℕ
  pub clamps : ℕ
  pub users : BTreeMap (BTreeMap ℕ)

unfoldable pub enter_leaf : ℕ → LeafIn → Book → Result IntakeError Book
enter_leaf i leaf book = do
  let user_id = trim leaf.user_id
  ensure (not (is_empty user_id)) (empty_user i)
  ensure (not (contains_key user_id book.users)) (duplicate_user i user_id)
  sheet ←
      enter_balances leaf.balances
        (record { bad_debt = book.debt; clamped = book.clamps; balances = [] })
  ok (record {
    debt = sheet.bad_debt;
    clamps = sheet.clamped;
    users = insert user_id sheet.balances book.users;
  })

unfoldable pub enter_leaves : ℕ → List LeafIn → Book → Result IntakeError Book
enter_leaves i [] book = ok book
enter_leaves i (leaf ∷ leaves) book = do
  next ← enter_leaf i leaf book
  enter_leaves (i + 1) leaves next
