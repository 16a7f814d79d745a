-- ===== src/Service/Keystore/Replay.antt =====
-- The keystore against what it promises: a function from organisations to seeds that only grows, an
-- organisation's seed being chosen once. A failed or cut write changes nothing of it.
use canton_assurance_layer.Prelude.{
  ◌≡◌, refl, sym, subst, Bool, true, false, not, ◌&&◌, List, [], ◌∷◌, Option, none, some, Text,
  Bytes, codes, text_eq, text_eq_iff, all, is_empty, length, get, insert, get-insert, if◌then◌else◌,
  Result, ok, err, All, Bool-cases, ◌⊎◌, inl, inr, ◌>>◌,
}
use canton_assurance_layer.Report.Sign.{ReportSigner}
use canton_assurance_layer.Service.Keystore.{
  Cipher, IsAead, Files, KeyError, unsafe_id, Request, Write, complete, refused, cut, is_id_char,
  remove, path_for, sealed_bytes, with_extension, store, seal, unseal_bytes, create, reopen,
  signer_for,
}
use canton_assurance_layer.Service.Keystore.Store.{
  key_file, key_file-text_eq, with_extension-text_eq, get-remove, unseal_bytes-sealed_bytes,
}

abbrev pub Keys : Type 0
Keys = Text → Option Bytes

abbrev pub assign : Keys → Text → Bytes → Keys
assign keys org_id seed other = if text_eq org_id other then some seed else keys other

abbrev pub is_stored : Write → Bool → Bool
is_stored complete renames = renames
is_stored refused renames = false
is_stored (cut part) renames = false

-- One request, on the function.
unfoldable pub issue : Request → Keys → Option Bytes × Keys
issue q keys =
    if not (is_empty q.org_id) && all is_id_char q.org_id
    then elim (keys q.org_id) [
      | some seed ↦ (some seed, keys)
      | none ↦
          if is_stored q.write q.renames
          then (some q.seed, assign keys q.org_id q.seed)
          else (none, keys)
    ]
    else (none, keys)

unfoldable pub replay : List Request → Keys → List (Option Bytes) × Keys
replay [] keys = ([], keys)
replay (q ∷ qs) keys =
    let (answer, next) = issue q keys in
    let (answers, last) = replay qs next in (answer ∷ answers, last)

abbrev pub granted : Result KeyError ReportSigner → Option Bytes
granted (ok signer) = some signer.seed
granted (err e) = none

abbrev pub expected : Option Bytes → Option (Result KeyError Bytes)
expected none = none
expected (some seed) = some (ok seed)

-- The random bytes have the sizes of the arrays that they fill.
abbrev pub IsDrawn : Request → Type 0
IsDrawn q = (length q.seed ≡ 32) × (length q.nonce ≡ 12)

module _ (c : Cipher) (kek : Bytes) where
  unfoldable pub run : List Request → Files → List (Option Bytes) × Files
  run [] files = ([], files)
  run (q ∷ qs) files =
      let (answer, next) = signer_for c kek q files in
      let (answers, last) = run qs next in (granted answer ∷ answers, last)

  abbrev pub opened : Text → Option Bytes → Option (Result KeyError Bytes)
  opened org_id none = none
  opened org_id (some bytes) = some (unseal_bytes c kek bytes org_id)

  -- Every organisation's file is there as its seed is, and holds that seed.
  abbrev pub Holds : Files → Keys → Type 0
  Holds files keys =
      (org_id : Text) → opened org_id (get (key_file org_id) files) ≡ expected (keys org_id)

  Holds-temporary :
      (path : Text) (part : Bytes) (files : Files) (keys : Keys)
      → Holds files keys
      → Holds (insert (with_extension path (codes "key.tmp")) part files) keys
  Holds-temporary path part files keys h org_id =
      rw
        (
          get-insert (with_extension path (codes "key.tmp")) (key_file org_id) part files,
          with_extension-text_eq path org_id,
        )
        (h org_id)

  Holds-renamed :
      (org : Text) (out seed : Bytes) (files : Files) (keys : Keys)
      → unseal_bytes c kek out org ≡ ok seed
      → Holds files keys
      → Holds
          (insert
            (key_file org)
            out
            (remove (with_extension (key_file org) (codes "key.tmp")) files))
          (assign keys org seed)
  Holds-renamed org out seed files keys e h org_id = elim (Bool-cases (text_eq org org_id)) [
    | inl same ↦
        rw
          (
            get-insert (key_file org) (key_file org_id) out
                (remove (with_extension (key_file org) (codes "key.tmp")) files),
            key_file-text_eq org org_id,
            same,
            sym ((text_eq_iff org org_id).0 same),
            e,
          )
          refl
    | inr other ↦
        rw
          (
            get-insert (key_file org) (key_file org_id) out
                (remove (with_extension (key_file org) (codes "key.tmp")) files),
            key_file-text_eq org org_id,
            other,
            get-remove (with_extension (key_file org) (codes "key.tmp")) (key_file org_id) files,
            with_extension-text_eq (key_file org) org_id,
          )
          (h org_id)
  ]

  -- What a request answers, and where it leaves the directory, as the function has it.
  abbrev pub Follows : Result KeyError ReportSigner × Files → Option Bytes × Keys → Type 0
  Follows (answer, files) (seed, keys) = (granted answer ≡ seed) × Holds files keys

  module _ (lawful : IsAead c) where
    store-Follows :
        (org out seed : Bytes) (w : Write) (renames : Bool) (files : Files) (keys : Keys)
        → unseal_bytes c kek out org ≡ ok seed
        → Holds files keys
        → Follows
            (
              (store c kek (key_file org) out w renames files).0 >> ok (record { seed = seed }),
              (store c kek (key_file org) out w renames files).1,
            )
            (if is_stored w renames then (some seed, assign keys org seed) else (none, keys))
    unfolding store
    store-Follows org out seed complete true files keys e h =
        (refl, Holds-renamed org out seed files keys e h)
    store-Follows org out seed complete false files keys e h =
        (refl, Holds-temporary (key_file org) out files keys h)
    store-Follows org out seed refused renames files keys e h = (refl, h)
    store-Follows org out seed (cut part) renames files keys e h =
        (refl, Holds-temporary (key_file org) part files keys h)

    create_lem :
        (path : Text) (q : Request) (files : Files) (out : Bytes)
        → sealed_bytes c kek q.org_id q.nonce q.seed ≡ ok out
        → create c kek path q files ≡ (
          (store c kek path out q.write q.renames files).0 >> ok (record { seed = q.seed }),
          (store c kek path out q.write q.renames files).1,
        )
    unfolding create seal
    create_lem path q files out e = rw (create, seal, e) refl

    create-Follows :
        (q : Request) (files : Files) (keys : Keys)
        → IsDrawn q
        → Holds files keys
        → Follows (create c kek (key_file q.org_id) q files) (
            if is_stored q.write q.renames
            then (some q.seed, assign keys q.org_id q.seed)
            else (none, keys))
    create-Follows q files keys (hs, hn) h =
        let (out, sealed, read) =
          unseal_bytes-sealed_bytes c kek lawful q.org_id q.nonce q.seed hn hs in
        subst
          (λ r. Follows r (
            if is_stored q.write q.renames
            then (some q.seed, assign keys q.org_id q.seed)
            else (none, keys)))
          (sym (create_lem (key_file q.org_id) q files out sealed))
          (store-Follows q.org_id out q.seed q.write q.renames files keys read h)

    -- The two maps agree at one organisation: neither has it, or both have the same seed.
    Holds-cases :
        (org : Text) (file : Option Bytes) (key : Option Bytes)
        → opened org file ≡ expected key
        → ((file ≡ none) × (key ≡ none))
          ⊎ ((bytes : Bytes) × (seed : Bytes) × (file ≡ some bytes)
              × (key ≡ some seed)
              × (unseal_bytes c kek bytes org ≡ ok seed))
    Holds-cases org none none h = inl (refl, refl)
    Holds-cases org none (some seed) h = cc
    Holds-cases org (some bytes) none h = cc
    Holds-cases org (some bytes) (some seed) h = inr (bytes, seed, refl, refl, cc)

    signer_for-create :
        (q : Request) (files : Files)
        → (not (is_empty q.org_id) && all is_id_char q.org_id) ≡ true
        → get (key_file q.org_id) files ≡ none
        → signer_for c kek q files ≡ create c kek (key_file q.org_id) q files
    unfolding signer_for path_for
    signer_for-create q files good e = rw (signer_for, good, e) refl

    signer_for-reopen :
        (q : Request) (files : Files) (bytes seed : Bytes)
        → (not (is_empty q.org_id) && all is_id_char q.org_id) ≡ true
        → get (key_file q.org_id) files ≡ some bytes
        → unseal_bytes c kek bytes q.org_id ≡ ok seed
        → signer_for c kek q files ≡ (ok (record { seed = seed }), files)
    unfolding signer_for path_for reopen
    signer_for-reopen q files bytes seed good e read = rw (signer_for, good, e, reopen, read) refl

    signer_for-refuse :
        (q : Request) (files : Files)
        → (not (is_empty q.org_id) && all is_id_char q.org_id) ≡ false
        → signer_for c kek q files ≡ (err unsafe_id, files)
    unfolding signer_for path_for
    signer_for-refuse q files bad = rw (signer_for, bad) refl

    pub signer_for-Follows :
        (q : Request) (files : Files) (keys : Keys)
        → IsDrawn q
        → Holds files keys
        → Follows (signer_for c kek q files) (issue q keys)
    unfolding issue
    signer_for-Follows q files keys drawn h =
        elim (Bool-cases (not (is_empty q.org_id) && all is_id_char q.org_id)) [
          | inr bad ↦
              subst (λ r. Follows r (issue q keys)) (sym (signer_for-refuse q files bad))
                (rw (issue, bad) (refl, h))
          | inl good ↦ elim (Holds-cases q.org_id _ _ (h q.org_id)) [
            | inl (e, k) ↦
                subst (λ r. Follows r (issue q keys)) (sym (signer_for-create q files good e))
                  (rw (issue, good, k) (create-Follows q files keys drawn h))
            | inr (bytes, seed, e, k, read) ↦
                subst (λ r. Follows r (issue q keys))
                  (sym (signer_for-reopen q files bytes seed good e read))
                  (rw (issue, good, k) (refl, h))
          ]
        ]

    pub run-Holds :
        (qs : List Request) (files : Files) (keys : Keys)
        → All IsDrawn qs
        → Holds files keys
        → ((run qs files).0 ≡ (replay qs keys).0) × Holds (run qs files).1 (replay qs keys).1
    unfolding run replay
    run-Holds [] files keys drawn h = (refl, h)
    run-Holds (q ∷ qs) files keys (d, drawn) h =
        let (same, next) = signer_for-Follows q files keys d h in
        let (answers, last) =
          run-Holds qs (signer_for c kek q files).1 (issue q keys).1 drawn next in
        (cc (same, answers), last)

    -- For any requests, handled one after another from an empty directory, whatever the disk does to their writes and renames,
    -- the keystore answers as the function from organisations to seeds does, and in the end each
    -- organisation's file is there as its seed is, and is unsealed to it. The random bytes of the
    -- requests are 32 and 12, and the cipher is lawful.
    pub run-replay :
        (qs : List Request)
        → All IsDrawn qs
        → ((run qs []).0 ≡ (replay qs (λ org_id. none)).0)
          × Holds (run qs []).1 (replay qs (λ org_id. none)).1
    run-replay qs drawn = run-Holds qs [] (λ org_id. none) drawn (λ org_id. refl)
