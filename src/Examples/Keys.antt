-- ===== src/Examples/Keys.antt =====
-- The keystore with a cipher that appends a keyed checksum, on requests of two organisations.
use canton_assurance_layer.Prelude.{
  ℕ, ◌≡◌, refl, subst, some_inj, arith, true, [], ◌∷◌, ◌++◌, Option, none, some, Bytes, Text, codes,
  text_eq, text_eq_refl, length, take, drop, replicate, length-append, List, if◌then◌else◌,
  le_bytes, length-le_bytes, insert, ok, get,
}
use canton_assurance_layer.Service.Keystore.{
  Cipher, IsAead, Request, Write, complete, refused, cut, signer_for, create, unseal_bytes,
}
use canton_assurance_layer.Service.Keystore as Keystore
use canton_assurance_layer.Service.Keystore.Replay as Replay
use canton_assurance_layer.Service.Keystore.Store.{key_file, taken_first, dropped_first}
use canton_assurance_layer.Service.Keystore.Replay.{Holds, granted, opened, replay, run, run-replay}
use canton_assurance_layer.Service.Keystore.Stable.{signer_for-run}
use canton_assurance_layer.Service.Keystore.Race.{create-create}
use canton_assurance_layer.Examples.Crypto.{checksum}

unfoldable pub tag : Bytes → Bytes → Bytes → Bytes → Bytes
tag key nonce message aad = le_bytes 16 (checksum 5 (key ++ nonce ++ aad ++ message))

unfoldable pub encrypt : Bytes → Bytes → Bytes → Bytes → Option Bytes
encrypt key nonce message aad = some (tag key nonce message aad ++ message)

unfoldable pub decrypt : Bytes → Bytes → Bytes → Bytes → Option Bytes
decrypt key nonce sealed aad =
    if text_eq (take 16 sealed) (tag key nonce (drop 16 sealed) aad)
    then some (drop 16 sealed)
    else none

abbrev pub cipher : Cipher
cipher = record { encrypt = encrypt; decrypt = decrypt }

decrypt-append :
    (key nonce seed aad : Bytes)
    → decrypt key nonce (tag key nonce seed aad ++ seed) aad ≡ some seed
unfolding decrypt tag
decrypt-append key nonce seed aad =
    let t = tag key nonce seed aad in
    let n : length t ≡ 16 = length-le_bytes 16 (checksum 5 (key ++ nonce ++ aad ++ seed)) in
    rw (taken_first t seed 16 n, dropped_first t seed 16 n, text_eq_refl t) refl

pub cipher-IsAead : IsAead cipher
unfolding encrypt tag
cipher-IsAead = record {
  encrypts = λ key nonce seed aad h. (
    tag key nonce seed aad ++ seed,
    refl,
    omega (
      arith,
      h,
      length-append (tag key nonce seed aad) seed,
      length-le_bytes 16 (checksum 5 (key ++ nonce ++ aad ++ seed)),
    ),
  );
  decrypts = λ key nonce seed aad sealed h.
      subst (λ s. decrypt key nonce s aad ≡ some seed) (some_inj h)
        (decrypt-append key nonce seed aad);
}

abbrev pub kek : Bytes
kek = replicate 32 1

abbrev drawn : Text → ℕ → Write → Request
drawn org n w = record {
  org_id = org;
  seed = replicate 32 n;
  nonce = replicate 12 n;
  write = w;
  renames = true;
}

-- A write that stops half-way, two that go through, and one that is refused.
abbrev requests : List Request
requests =
    drawn (codes "org-1") 3 (cut (5 ∷ []))
    ∷ drawn (codes "org-1") 4 complete
    ∷ drawn (codes "org_2") 5 complete
    ∷ drawn (codes "../etc") 6 complete
    ∷ []

run-replay_example :
    ((run cipher kek requests []).0 ≡ (replay requests (λ org_id. none)).0)
    × Holds cipher kek (run cipher kek requests []).1 (replay requests (λ org_id. none)).1
run-replay_example =
    run-replay cipher kek cipher-IsAead requests
      ((refl, refl), ((refl, refl), ((refl, refl), ((refl, refl), tt))))

answers :
    (replay requests (λ org_id. none)).0
    ≡ none ∷ some (replicate 32 4) ∷ some (replicate 32 5) ∷ none ∷ []
unfolding Replay.replay Replay.issue text_eq
answers = refl

created :
    granted
      (signer_for cipher kek
        (drawn (codes "org-1") 4 complete)
        (run cipher kek (drawn (codes "org-1") 3 (cut (5 ∷ [])) ∷ []) []).1).0
    ≡ some (replicate 32 4)
unfolding signer_for Keystore.path_for run create Keystore.seal Keystore.sealed_bytes encrypt
    Keystore.store insert text_eq Keystore.with_extension Keystore.file_stem
created = refl

seed_kept :
    granted
      (signer_for cipher kek
        (drawn (codes "org-1") 9 refused)
        (run cipher kek
          (drawn (codes "org_2") 5 complete ∷ [])
          (signer_for cipher kek
            (drawn (codes "org-1") 4 complete)
            (run cipher kek (drawn (codes "org-1") 3 (cut (5 ∷ [])) ∷ []) []).1).1).1).0
    ≡ some (replicate 32 4)
seed_kept =
    signer_for-run cipher kek cipher-IsAead (drawn (codes "org-1") 3 (cut (5 ∷ [])) ∷ [])
      (drawn (codes "org_2") 5 complete ∷ []) (drawn (codes "org-1") 4 complete)
      (drawn (codes "org-1") 9 refused) (replicate 32 4) ((refl, refl), tt) ((refl, refl), tt)
      (refl, refl) (refl, refl) refl created

create-create_example :
    let q = drawn (codes "org-1") 3 complete in
    let r = drawn (codes "org-1") 4 complete in
    let path = key_file (codes "org-1") in
    let first = create cipher kek path q [] in
    let second = create cipher kek path r first.1 in
    (granted first.0 ≡ some (replicate 32 3))
    × (granted second.0 ≡ some (replicate 32 4))
    × (opened cipher kek (codes "org-1") (get path second.1) ≡ some (ok (replicate 32 4)))
create-create_example =
    create-create cipher kek cipher-IsAead (drawn (codes "org-1") 3 complete)
      (drawn (codes "org-1") 4 complete) [] (refl, refl) (refl, refl) refl (refl, refl) (refl, refl)
