-- ===== src/Service/Keystore/Race.antt =====
-- Two first requests of one organisation that overlap: the process serves requests side by side and
-- takes no lock around the look for the file and the write.
use canton_assurance_layer.Prelude.{
  ◌≡◌, refl, subst, true, some, Bytes, codes, get, ok, text_eq_refl, get-insert,
}
use canton_assurance_layer.Service.Keystore.{
  Cipher, IsAead, Files, Request, complete, remove, with_extension, store, create, seal,
}
use canton_assurance_layer.Service.Keystore.Store.{key_file, unseal_bytes-sealed_bytes}
use canton_assurance_layer.Service.Keystore.Replay.{IsDrawn, opened, granted}

module _ (c : Cipher) (kek : Bytes) (lawful : IsAead c) where
  create_stored :
      (q : Request) (files : Files)
      → IsDrawn q
      → q.write ≡ complete
      → q.renames ≡ true
      → (granted (create c kek (key_file q.org_id) q files).0 ≡ some q.seed)
        × (opened c kek q.org_id
              (get (key_file q.org_id) (create c kek (key_file q.org_id) q files).1)
            ≡ some (ok q.seed))
  unfolding create seal store
  create_stored q files (hs, hn) w r =
      let (out, sealed, read) =
        unseal_bytes-sealed_bytes c kek lawful q.org_id q.nonce q.seed hn hs in
      rw (create, seal, sealed, w, r, store)
        (
          refl,
          rw
              (
                get-insert (key_file q.org_id) (key_file q.org_id) out
                    (remove (with_extension (key_file q.org_id) (codes "key.tmp")) files),
                text_eq_refl (key_file q.org_id),
                read,
              )
              refl,
        )

  -- Two requests for one organisation that both found no file, and whose writes go through: each is
  -- answered with its own seed, and afterwards the file holds the seed of the one that came last.
  -- The random bytes are 32 and 12, and the cipher is lawful.
  pub create-create :
      (q r : Request) (files : Files)
      → IsDrawn q
      → IsDrawn r
      → q.org_id ≡ r.org_id
      → (q.write ≡ complete) × (q.renames ≡ true)
      → (r.write ≡ complete) × (r.renames ≡ true)
      → let path = key_file r.org_id in
        let first = create c kek path q files in
        let second = create c kek path r first.1 in
        (granted first.0 ≡ some q.seed)
        × (granted second.0 ≡ some r.seed)
        × (opened c kek r.org_id (get path second.1) ≡ some (ok r.seed))
  create-create q r files dq dr same (qw, qr) (rw', rr) =
      let first = create_stored q files dq qw qr in
      let (told, held) = create_stored r (create c kek (key_file r.org_id) q files).1 dr rw' rr in
      (
        subst (λ org. granted (create c kek (key_file org) q files).0 ≡ some q.seed) same first.0,
        told,
        held,
      )
