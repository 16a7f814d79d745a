-- ===== src/Report/Pack/Built.antt =====
-- What `build_pack` signs, `verify_pack` accepts: the index of the members against the same members.
use canton_assurance_layer.Prelude.{
  ◌≡◌, refl, sym, subst, arith, true, not, List, [], ◌∷◌, some, Text, Bytes, text_eq, text_eq_iff,
  text_eq_refl, map, any, BTreeMap, get, keys, insert, contains_key, cmp, cmp_refl, IsAbove,
  IsSorted, IsSorted-insert, Ordering-cases, inl, inr, All, ok, ensure, for_each, >>=-eq-ok,
  >>-eq-ok, ok-injective,
}
use canton_assurance_layer.Prelude.Space.{trim}
use canton_assurance_layer.Primitives.{Primitives, IsLawful}
use canton_assurance_layer.Report.Sign.{ReportSigner, public_key_hex, verify-sign_digest}
use canton_assurance_layer.Report.Pack.{
  PackEntry, SignedPack, duplicate_entry, check_name, lower, eq_ignore_ascii_case, entry_of,
  check_listed, member_digest, pack_format_version, index_members, build_pack, check_entry,
  verify_pack,
}

-- The members as a map, as the receiver has them.
unfoldable pub delivered : List (Text × Bytes) → BTreeMap Bytes → BTreeMap Bytes
delivered [] files = files
delivered ((name, bytes) ∷ members) files = delivered members (insert name bytes files)

module _ (p : Primitives) where
  -- The index of a map of files.
  unfoldable pub index_of : BTreeMap Bytes → BTreeMap Text
  index_of [] = []
  index_of ((name, bytes) ∷ files) = (name, member_digest p bytes) ∷ index_of files

  insert-index_of :
      (name : Text) (bytes : Bytes) (files : BTreeMap Bytes)
      → insert name (member_digest p bytes) (index_of files) ≡ index_of (insert name bytes files)
  unfolding insert index_of
  insert-index_of name bytes [] = refl
  insert-index_of name bytes ((k, v) ∷ files) = elim (Ordering-cases (cmp name k)) [
    | inl e ↦ rw (insert, e, index_of) refl
    | inr (inl e) ↦ rw (insert, e, index_of) refl
    | inr (inr e) ↦ rw (insert, e, index_of, sym (insert-index_of name bytes files)) refl
  ]

  contains_key-index_of :
      (name : Text) (files : BTreeMap Bytes)
      → contains_key name (index_of files) ≡ contains_key name files
  unfolding index_of
  contains_key-index_of name [] = refl
  contains_key-index_of name ((k, v) ∷ files) = ground (arith, contains_key-index_of name files)

  abbrev IsNamed : BTreeMap Bytes → Type 0
  IsNamed = All (λ (f : Text × Bytes). check_name f.0 ≡ ok tt)

  IsNamed-insert :
      (name : Text) (bytes : Bytes) (files : BTreeMap Bytes)
      → check_name name ≡ ok tt
      → IsNamed files
      → IsNamed (insert name bytes files)
  unfolding insert
  IsNamed-insert name bytes [] h n = (h, tt)
  IsNamed-insert name bytes ((k, v) ∷ files) h (n, ns) = elim (Ordering-cases (cmp name k)) [
    | inl e ↦ rw (insert, e) (h, (n, ns))
    | inr (inl e) ↦ rw (insert, e) (h, ns)
    | inr (inr e) ↦ rw (insert, e) (n, IsNamed-insert name bytes files h ns)
  ]

  -- The loop of `build_pack` indexes the map of the members.
  index_members-index_of :
      (members : List (Text × Bytes)) (files : BTreeMap Bytes) {entries : BTreeMap Text}
      → IsSorted files
      → IsNamed files
      → index_members p members (index_of files) ≡ ok entries
      → (entries ≡ index_of (delivered members files))
        × IsSorted (delivered members files)
        × IsNamed (delivered members files)
  unfolding index_members delivered
  index_members-index_of [] files {entries} o n h = (sym (ok-injective h), o, n)
  index_members-index_of ((name, bytes) ∷ members) files {entries} o n h =
      let (named, h1) = >>-eq-ok (check_name name) _ h in
      let (new, h2) =
        >>-eq-ok (ensure (not (contains_key name (index_of files))) (duplicate_entry name)) _ h1 in
      index_members-index_of members (insert name bytes files) {entries = entries}
        (IsSorted-insert name bytes files o) (IsNamed-insert name bytes files named n)
        (subst (λ m. index_members p members m ≡ ok entries) (insert-index_of name bytes files) h2)

  -- Every entry of a map is found in it.
  found_behind :
      (k : Text) (v : Bytes) (files rest : BTreeMap Bytes)
      → IsAbove k rest
      → All (λ (f : Text × Bytes). get f.0 files ≡ some f.1) rest
      → All (λ (f : Text × Bytes). get f.0 ((k, v) ∷ files) ≡ some f.1) rest
  found_behind k v files [] a h = tt
  found_behind k v files ((j, w) ∷ rest) (a, above) (h, hs) =
      (ground (arith, text_eq_iff k j, cmp_refl k), found_behind k v files rest above hs)

  found :
      (files : BTreeMap Bytes)
      → IsSorted files
      → All (λ (f : Text × Bytes). get f.0 files ≡ some f.1) files
  found [] o = tt
  found ((k, v) ∷ files) (a, o) =
      (rw (text_eq_refl k) refl, found_behind k v files files a (found files o))

  check_entry-index_of :
      (files rest : BTreeMap Bytes)
      → IsNamed rest
      → All (λ (f : Text × Bytes). get f.0 files ≡ some f.1) rest
      → for_each (check_entry p files) (map entry_of (index_of rest)) ≡ ok tt
  unfolding index_of check_entry eq_ignore_ascii_case
  check_entry-index_of files [] n h = refl
  check_entry-index_of files ((k, v) ∷ rest) (n, ns) (h, hs) =
      rw (n, h, text_eq_refl (map lower (member_digest p v)))
        (check_entry-index_of files rest ns hs)

  abbrev IsListed : BTreeMap Bytes → Text → Type 0
  IsListed files name =
      any (λ (e : PackEntry). text_eq e.name name) (map entry_of (index_of files)) ≡ true

  IsListed-behind :
      (k : Text) (v : Bytes) (files : BTreeMap Bytes) (names : List Text)
      → All (IsListed files) names
      → All (IsListed ((k, v) ∷ files)) names
  unfolding index_of
  IsListed-behind k v files [] h = tt
  IsListed-behind k v files (n ∷ names) (h, hs) =
      (ground (arith, h), IsListed-behind k v files names hs)

  listed : (files : BTreeMap Bytes) → All (IsListed files) (keys files)
  unfolding index_of
  listed [] = tt
  listed ((k, v) ∷ files) =
      (rw (text_eq_refl k) refl, IsListed-behind k v files (keys files) (listed files))

  check_listed-index_of :
      (files : BTreeMap Bytes) (names : List Text)
      → All (IsListed files) names
      → for_each (check_listed (map entry_of (index_of files))) names ≡ ok tt
  check_listed-index_of files [] h = refl
  check_listed-index_of files (n ∷ names) (h, hs) = rw h (check_listed-index_of files names hs)

  -- The pack that `build_pack` signs for some members is accepted by `verify_pack` under the
  -- signer's key, with those members as a map. The signature scheme and the hex codec are lawful,
  -- and the printed key has no white space around it.
  pub verify_pack-build_pack :
      IsLawful p
      → (publisher snapshot_time report_digest : Text) (members : List (Text × Bytes))
        (signer : ReportSigner) {signed : SignedPack}
      → trim (public_key_hex p signer) ≡ public_key_hex p signer
      → build_pack p publisher snapshot_time report_digest members signer ≡ ok signed
      → verify_pack p signed (public_key_hex p signer) (delivered members []) ≡ ok tt
  unfolding build_pack verify_pack eq_ignore_ascii_case index_of
  verify_pack-build_pack lawful publisher snapshot_time report_digest members signer {signed} t h =
      let (entries, e, h1) = >>=-eq-ok (index_members p members []) _ h in
      let (same, o, n) = index_members-index_of members [] {entries = entries} tt tt e in
      let files = delivered members [] in
      subst (λ s. verify_pack p s (public_key_hex p signer) files ≡ ok tt) (ok-injective h1)
        (rw
          (
            same,
            t,
            text_eq_refl pack_format_version,
            text_eq_refl (map lower (public_key_hex p signer)),
            verify-sign_digest p lawful signer _,
            check_entry-index_of files files n (found files o),
            check_listed-index_of files (keys files) (listed files),
          )
          refl)
