-- ===== src/Report/Pack/Members.antt =====
-- rust/solvency-report/src/pack.rs: an accepted delivery is exactly what its index names.
use canton_assurance_layer.Prelude.{
  ◌≢◌, refl, sym, ◌∙◌, ap, arith, Bool, false, not, ◌||◌, ◌==◌, ◌++◌, append_assoc, map, length,
  u64le, codes, is_empty, text_eq_iff, ◌≡◌, true, List, [], ◌∷◌, some, Text, Bytes, text_eq, any,
  All, BTreeMap, get, keys, Result, ok, ok_or, ensure, for_each, map_err, >>=-eq-ok, >>-eq-ok,
  ensure-eq-ok, ok_or-eq-ok,
}
use canton_assurance_layer.Prelude.Space.{trim}
use canton_assurance_layer.Primitives.{Primitives}
use canton_assurance_layer.Report.Sign.{verify_signature}
use canton_assurance_layer.Report.Verify.Accepted.{map_err-eq-ok}
use canton_assurance_layer.Merkle.Encoding.{lp}
use canton_assurance_layer.Report.Pack.{
  Pack, has_char, unsafe_name, lower, pack_bytes, entries_bytes, PackEntry, SignedPack,
  unsupported_version, unknown_signer, bad_signature, missing, unlisted, pack_format_version,
  check_name, eq_ignore_ascii_case, member_digest, pack_digest, check_entry, check_listed,
  verify_pack,
}

for_each-All {ℓ κ} :
    {E : Type ℓ} {A : Type κ} (f : A → Result E (Unit {0})) (l : List A)
    → for_each f l ≡ ok tt
    → All (λ a. f a ≡ ok tt) l
for_each-All f [] h = tt
for_each-All f (a ∷ l) h = let (x, xs) = >>-eq-ok (f a) _ h in (x, for_each-All f l xs)

All-map {ℓ κ μ} :
    {A : Type ℓ} (P : A → Type κ) (Q : A → Type μ) (l : List A)
    → ((a : A) → P a → Q a)
    → All P l
    → All Q l
All-map P Q [] f h = tt
All-map P Q (a ∷ l) f (h, hs) = (f a h, All-map P Q l f hs)

-- A name that is not empty, has neither a slash nor a backslash, and is neither of the directories.
abbrev pub IsPlainName : Text → Type 0
IsPlainName name =
    (name ≢ []) × All (λ c. (c ≢ 47) × (c ≢ 92)) name × (name ≢ codes ".") × (name ≢ codes "..")

not-eq-true : (b : Bool) → not b ≡ true → b ≡ false
not-eq-true b h = ground arith

neither : (a b : Bool) → (a || b) ≡ false → (a ≡ false) × (b ≡ false)
neither a b h = ground arith

not_that : (s t : Text) → text_eq s t ≡ false → s ≢ t
not_that s t h e = cc (h, (text_eq_iff s t).1 e)

not_empty : (s : Text) → is_empty s ≡ false → s ≢ []
not_empty [] h e = cc (h)
not_empty (c ∷ s) h e = cc (e)

no_slash :
    (name : Text)
    → has_char 47 name ≡ false
    → has_char 92 name ≡ false
    → All (λ c. (c ≢ 47) × (c ≢ 92)) name
no_slash [] h k = tt
no_slash (c ∷ name) h k =
    let (slash, slashes) = neither (c == 47) (has_char 47 name) h in
    let (back, backs) = neither (c == 92) (has_char 92 name) k in
    ((ground (arith, slash), ground (arith, back)), no_slash name slashes backs)

check_name-IsPlainName : (name : Text) → check_name name ≡ ok tt → IsPlainName name
unfolding check_name
check_name-IsPlainName name h =
    let plain = not-eq-true _ (ensure-eq-ok _ (unsafe_name name) h) in
    let (filled, h1) = neither (is_empty name) _ plain in
    let (slash, h2) = neither (has_char 47 name) _ h1 in
    let (back, h3) = neither (has_char 92 name) _ h2 in
    let (here, above) = neither (text_eq name (codes ".")) (text_eq name (codes "..")) h3 in
    (
      not_empty name filled,
      no_slash name slash back,
      not_that name (codes ".") here,
      not_that name (codes "..") above,
    )

-- Texts one after another, each behind its length.
abbrev pub joined : List Text → Bytes
joined [] = []
joined (t ∷ texts) = lp t ++ joined texts

-- The name and the digest of each entry in turn.
abbrev pub entry_texts : List PackEntry → List Text
entry_texts [] = []
entry_texts (e ∷ entries) = e.name ∷ e.sha256 ∷ entry_texts entries

-- What the signature is over: the four texts, the number of entries, and the entries.
abbrev pub signed_bytes : Pack → Bytes
signed_bytes pack =
    joined (pack.format_version ∷ pack.publisher ∷ pack.snapshot_time ∷ pack.report_digest ∷ [])
    ++ (u64le (length pack.entries) ++ joined (entry_texts pack.entries))

entries_bytes-joined :
    (entries : List PackEntry) → entries_bytes entries ≡ joined (entry_texts entries)
unfolding entries_bytes
entries_bytes-joined [] = refl
entries_bytes-joined (e ∷ entries) = rw (entries_bytes-joined entries) refl

pack_bytes-signed_bytes : (pack : Pack) → pack_bytes pack ≡ signed_bytes pack
unfolding pack_bytes
pack_bytes-signed_bytes pack =
    let behind = u64le (length pack.entries) ++ joined (entry_texts pack.entries) in
    let d = lp pack.report_digest in
    let t = lp pack.snapshot_time in
    let u = lp pack.publisher in
    let last : (d ++ []) ++ behind ≡ d ++ behind = append_assoc d [] behind in
    rw (entries_bytes-joined pack.entries) (
      sym (
        append_assoc (lp pack.format_version) (u ++ (t ++ (d ++ []))) behind
        ∙ ap (λ x. lp pack.format_version ++ x)
            (append_assoc u (t ++ (d ++ [])) behind
              ∙ ap (λ x. u ++ x) (append_assoc t (d ++ []) behind ∙ ap (λ x. t ++ x) last))))

module _ (p : Primitives) where
  -- A member that is present with the bytes whose SHA-256 digest its entry states in hexadecimal, of
  -- letters of either case.
  abbrev pub IsPresent : BTreeMap Bytes → PackEntry → Type 0
  IsPresent members entry =
      (bytes : Bytes) × IsPlainName entry.name
      × (get entry.name members ≡ some bytes)
      × (map lower (p.hex_encode (p.sha256 bytes)) ≡ map lower entry.sha256)

  check_entry-IsPresent :
      (members : BTreeMap Bytes) (entry : PackEntry)
      → check_entry p members entry ≡ ok tt
      → IsPresent members entry
  unfolding check_entry eq_ignore_ascii_case member_digest
  check_entry-IsPresent members entry h =
      let (named, h1) = >>-eq-ok (check_name entry.name) _ h in
      let (bytes, e, h2) = >>=-eq-ok (ok_or (get entry.name members) (missing entry.name)) _ h1 in
      (
        bytes,
        check_name-IsPlainName entry.name named,
        ok_or-eq-ok (get entry.name members) (missing entry.name) e,
        (text_eq_iff _ _).0 (ensure-eq-ok _ _ h2),
      )

  -- A delivery that `verify_pack` accepts is exactly what the index names: the signature over the
  -- SHA-256 digest of the domain, the index's texts and its entries, each text behind its length,
  -- verifies under the trusted key with the white space around it taken off; every entry has a name
  -- that is not empty, has no slash or backslash and is neither `.` nor `..`, and is present with
  -- bytes whose SHA-256 digest it states, up to the case of letters; and every file present is named.
  pub verify_pack-All :
      (signed : SignedPack) (trusted_key : Text) (members : BTreeMap Bytes)
      → verify_pack p signed trusted_key members ≡ ok tt
      → (verify_signature p
            (trim trusted_key)
            (p.sha256 (codes "rocky-solvency-pack-v1" ++ signed_bytes signed.pack))
            signed.signature.value
          ≡ ok tt)
        × All (IsPresent members) signed.pack.entries
        × All
            (λ name. any (λ (e : PackEntry). text_eq e.name name) signed.pack.entries ≡ true)
            (keys members)
  unfolding verify_pack pack_digest
  verify_pack-All signed trusted_key members h =
      let (_, h1) =
        >>-eq-ok
          (ensure (text_eq signed.pack.format_version pack_format_version)
            (unsupported_version signed.pack.format_version))
          _ h in
      let (_, h2) =
        >>-eq-ok
          (ensure (eq_ignore_ascii_case signed.signature.public_key (trim trusted_key))
            unknown_signer)
          _ h1 in
      let (s, h3) =
        >>-eq-ok
          (map_err (λ e. bad_signature)
            (verify_signature p (trim trusted_key) (pack_digest p signed.pack)
              signed.signature.value))
          _ h2 in
      let (present, h4) = >>-eq-ok (for_each (check_entry p members) signed.pack.entries) _ h3 in
      (
        rw (sym (pack_bytes-signed_bytes signed.pack)) (map_err-eq-ok (λ e. bad_signature) _ s),
        All-map _ (IsPresent members) signed.pack.entries (check_entry-IsPresent members)
            (for_each-All (check_entry p members) signed.pack.entries present),
        All-map _ _ (keys members) (λ name e. ensure-eq-ok _ (unlisted name) e)
            (for_each-All (check_listed signed.pack.entries) (keys members) h4),
      )
