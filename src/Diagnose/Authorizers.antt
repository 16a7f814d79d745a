-- ===== src/Diagnose/Authorizers.antt =====
-- The parties and authorizers that a cause names.
use canton_assurance_layer.Prelude.{
  ◌≡◌, refl, ap, arith, inl, inr, not, ◌&&◌, ◌||◌, List, [], ◌∷◌, Option, none, some, Text, text_eq,
  text_eq_iff, BTreeMap, keys, contains_key, insert, get-insert, collect_into, Bool-cases,
}
use canton_assurance_layer.Diagnose.{LedgerError, one_of}
use canton_assurance_layer.Diagnose.Extract.{
  CausePatterns, without, authorizers_of, extended, parties_of, extract,
}

text_eq_sym : (s t : Text) → text_eq s t ≡ text_eq t s
text_eq_sym s t = ground (arith, text_eq_iff s t, text_eq_iff t s)

one_of-without :
    (given required : List Text) (p : Text)
    → one_of (without given required) p ≡ (one_of required p && not (one_of given p))
one_of-without given [] p = refl
one_of-without given (r ∷ required) p = elim (Bool-cases (text_eq p r)) [
  | inl e ↦
      ground (arith, e, one_of-without given required p, ap (one_of given) ((text_eq_iff p r).0 e))
  | inr e ↦ ground (arith, e, one_of-without given required p)
]

one_of-keys : (m : BTreeMap (Unit {0})) (p : Text) → one_of (keys m) p ≡ contains_key p m
one_of-keys [] p = refl
one_of-keys ((k, u) ∷ m) p = ground (arith, text_eq_sym k p, one_of-keys m p)

contains_key-insert :
    (m : BTreeMap (Unit {0})) (n p : Text)
    → contains_key p (insert n tt m) ≡ (text_eq p n || contains_key p m)
contains_key-insert m n p = rw (contains_key, get-insert n p tt m) (ground (arith, text_eq_sym n p))

contains_key-extended :
    (m : BTreeMap (Unit {0})) (names : List Text) (p : Text)
    → contains_key p (extended m names) ≡ (contains_key p m || one_of names p)
unfolding collect_into
contains_key-extended m [] p = ground arith
contains_key-extended m (n ∷ names) p =
    ground (arith, contains_key-extended (insert n tt m) names p, contains_key-insert m n p)

missing_of :
    (named : Option (Text × Text)) (absent : Option Text) (p : Text)
    → one_of (authorizers_of named absent).2 p
      ≡ (one_of (authorizers_of named absent).0 p && not (one_of (authorizers_of named absent).1 p))
unfolding authorizers_of
missing_of (some (required, given)) absent p = one_of-without _ _ p
missing_of none (some absent) p = ground arith
missing_of none none p = refl

-- Of every cause, the missing authorizers are the required ones that are not among those given, and the parties are the ones found in it, the required and the given authorizers.
pub extract-authorizers :
    (re : CausePatterns) (error : LedgerError) (p : Text)
    → (let x = extract re error in
        (one_of x.missing_authorizers p
          ≡ (one_of x.required_authorizers p && not (one_of x.given_authorizers p)))
        × (one_of x.parties p ≡ (
            one_of (re.party error.cause) p
            || (one_of x.required_authorizers p || one_of x.given_authorizers p))))
unfolding extract parties_of
extract-authorizers re error p =
    let named = authorizers_of (re.authorizers error.cause) (re.missing_auth error.cause) in
    let found = extended [] (re.party error.cause) in
    (
      missing_of (re.authorizers error.cause) (re.missing_auth error.cause) p,
      ground (
        arith,
        one_of-keys (extended (extended found named.0) named.1) p,
        contains_key-extended (extended found named.0) named.1 p,
        contains_key-extended found named.0 p,
        contains_key-extended [] (re.party error.cause) p,
      ),
    )
