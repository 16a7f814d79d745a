-- ===== src/Service/Keystore/Store.antt =====
-- What the directory holds: a name's file by itself, the temporary names apart from the key files,
-- and a sealed seed that is read back.
use canton_assurance_layer.Prelude.{
  ℕ, ◌≤◌, ◌≡◌, refl, sym, ap, arith, true, false, List, [], ◌∷◌, ◌++◌, Option, none, some, some_inj,
  Text, Bytes, codes, text_eq, text_eq_iff, text_eq_refl, ◌==◌, ltb, length, take, drop, get_last?,
  append_inj, length-append, get, if◌then◌else◌, ok, Bool-cases, inl, inr,
}
use canton_assurance_layer.Service.Keystore.{
  Cipher, IsAead, Files, remove, with_extension, file_stem, unseal_bytes, sealed_bytes,
}

pub get-remove :
    (k j : Text) (m : Files) → get j (remove k m) ≡ (if text_eq k j then none else get j m)
unfolding remove
get-remove k j [] = ground arith
get-remove k j ((i, v) ∷ m) =
    ground (arith, get-remove k j m, text_eq_iff k j, text_eq_iff i j, text_eq_iff i k)

take-append {ℓ} : {A : Type ℓ} (xs ys : List A) → take (length xs) (xs ++ ys) ≡ xs
take-append [] ys = refl
take-append (x ∷ xs) ys = ap (λ l. x ∷ l) (take-append xs ys)

drop-append {ℓ} : {A : Type ℓ} (xs ys : List A) → drop (length xs) (xs ++ ys) ≡ ys
drop-append [] ys = refl
drop-append (x ∷ xs) ys = drop-append xs ys

get_last?-append {ℓ} :
    {A : Type ℓ} (xs : List A) (y : A) (ys : List A) → get_last? (xs ++ y ∷ ys) ≡ get_last? (y ∷ ys)
get_last?-append [] y ys = refl
get_last?-append (x ∷ []) y ys = refl
get_last?-append (x ∷ z ∷ xs) y ys = get_last?-append (z ∷ xs) y ys

abbrev pub key_file : Text → Text
key_file org_id = org_id ++ codes ".key"

append_cancel : (xs ys t : Text) → xs ++ t ≡ ys ++ t → xs ≡ ys
append_cancel xs ys t h =
    let l : length (xs ++ t) ≡ length (ys ++ t) = ap length h in
    (append_inj xs ys t t (omega (arith, l, length-append xs t, length-append ys t)) h).0

pub key_file-text_eq : (a b : Text) → text_eq (key_file a) (key_file b) ≡ text_eq a b
key_file-text_eq a b = elim (Bool-cases (text_eq a b)) [
  | inl e ↦ rw ((text_eq_iff a b).0 e, text_eq_refl (key_file b), text_eq_refl b) refl
  | inr e ↦ elim (Bool-cases (text_eq (key_file a) (key_file b))) [
    | inl d ↦ cc (
      e,
      text_eq_refl b,
      append_cancel a b (codes ".key") ((text_eq_iff (key_file a) (key_file b)).0 d),
    )
    | inr d ↦ cc
  ]
]

-- No temporary name is the name of a key file.
pub with_extension-text_eq :
    (path b : Text) → text_eq (with_extension path (codes "key.tmp")) (key_file b) ≡ false
unfolding with_extension
with_extension-text_eq path b =
    elim (Bool-cases (text_eq (with_extension path (codes "key.tmp")) (key_file b))) [
      | inl d ↦
          let same : with_extension path (codes "key.tmp") ≡ key_file b = (text_eq_iff _ _).0 d in
          let ends : get_last? (with_extension path (codes "key.tmp")) ≡ some 112 =
            get_last?-append (file_stem path) b'.' (codes "key.tmp") in
          let other : get_last? (key_file b) ≡ some 121 = get_last?-append b b'.' (codes "key") in
          let clash : Path (Option ℕ) (some 112) (some 121) = cc (same, ends, other) in
          absurd (omega (arith, some_inj clash))
      | inr d ↦ d
    ]

pub taken_first : (xs ys : Bytes) (n : ℕ) → length xs ≡ n → take n (xs ++ ys) ≡ xs
taken_first xs ys n h = rw (sym h) (take-append xs ys)

pub dropped_first : (xs ys : Bytes) (n : ℕ) → length xs ≡ n → drop n (xs ++ ys) ≡ ys
dropped_first xs ys n h = rw (sym h) (drop-append xs ys)

module _ (c : Cipher) (kek : Bytes) where
  unseal_bytes_lem :
      (out : Bytes) (org_id : Text) (seed : Bytes)
      → 28 ≤ length out
      → c.decrypt kek (take 12 out) (drop 12 out) org_id ≡ some seed
      → length seed ≡ 32
      → unseal_bytes c kek out org_id ≡ ok seed
  unfolding unseal_bytes
  unseal_bytes_lem out org_id seed l e h =
      let long : ltb (length out) 28 ≡ false = ground arith in
      let right : (length seed == 32) ≡ true = ground arith in rw (long, e, right) refl

module _ (c : Cipher) (kek : Bytes) (lawful : IsAead c) where
  -- `seal` has bytes to write, and `unseal` reads the seed in them.
  pub unseal_bytes-sealed_bytes :
      (org_id nonce seed : Bytes)
      → length nonce ≡ 12
      → length seed ≡ 32
      → (out : Bytes) × (sealed_bytes c kek org_id nonce seed ≡ ok out)
        × (unseal_bytes c kek out org_id ≡ ok seed)
  unfolding sealed_bytes unseal_bytes
  unseal_bytes-sealed_bytes org_id nonce seed hn hs =
      let (sealed, e, l) = lawful.encrypts kek nonce seed org_id hs in
      (
        nonce ++ sealed,
        rw e refl,
        unseal_bytes_lem c kek (nonce ++ sealed) org_id seed
            (omega (arith, l, hn, length-append nonce sealed))
            (rw (taken_first nonce sealed 12 hn, dropped_first nonce sealed 12 hn)
              (lawful.decrypts kek nonce seed org_id sealed e))
            hs,
      )
