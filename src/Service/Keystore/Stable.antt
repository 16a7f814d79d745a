-- ===== src/Service/Keystore/Stable.antt =====
-- A seed that the keystore gives out stays the organisation's.
use canton_assurance_layer.Prelude.{
  ◌≡◌, refl, arith, true, not, ◌&&◌, List, [], ◌∷◌, none, some, Bytes, text_eq_iff, text_eq_refl,
  all, is_empty, All,
}
use canton_assurance_layer.Service.Keystore.{Cipher, IsAead, Request, is_id_char, signer_for}
use canton_assurance_layer.Service.Keystore.Replay.{
  Keys, IsDrawn, granted, issue, replay, run, run-Holds, run-replay, signer_for-Follows,
}

-- A seed that is given out stays.
issue-kept :
    (q : Request) (keys : Keys) (org seed : Bytes)
    → keys org ≡ some seed
    → (issue q keys).1 org ≡ some seed
unfolding issue
issue-kept q keys org seed h = ground (arith, text_eq_iff q.org_id org)

replay-kept :
    (qs : List Request) (keys : Keys) (org seed : Bytes)
    → keys org ≡ some seed
    → (replay qs keys).1 org ≡ some seed
unfolding replay
replay-kept [] keys org seed h = h
replay-kept (q ∷ qs) keys org seed h =
    replay-kept qs (issue q keys).1 org seed (issue-kept q keys org seed h)

issue-again :
    (q : Request) (keys : Keys) (seed : Bytes)
    → (issue q keys).0 ≡ some seed
    → (issue q keys).1 q.org_id ≡ some seed
unfolding issue
issue-again q keys seed h = ground (arith, text_eq_refl q.org_id)

issue-known :
    (q : Request) (keys : Keys) (seed : Bytes)
    → (not (is_empty q.org_id) && all is_id_char q.org_id) ≡ true
    → keys q.org_id ≡ some seed
    → (issue q keys).0 ≡ some seed
unfolding issue
issue-known q keys seed good h = rw (good, h) refl

issue-valid :
    (q : Request) (keys : Keys) (seed : Bytes)
    → (issue q keys).0 ≡ some seed
    → (not (is_empty q.org_id) && all is_id_char q.org_id) ≡ true
unfolding issue
issue-valid q keys seed h = ground arith

module _ (c : Cipher) (kek : Bytes) (lawful : IsAead c) where
  -- A seed that signer_for gives out, on a directory that any requests have led to, is what it
  -- gives out for the same organisation after any further requests, whatever the disk does to the
  -- writes and renames of all of them. The random bytes are 32 and 12, and the cipher is lawful.
  pub signer_for-run :
      (earlier later : List Request) (q again : Request) (seed : Bytes)
      → All IsDrawn earlier
      → All IsDrawn later
      → IsDrawn q
      → IsDrawn again
      → again.org_id ≡ q.org_id
      → granted (signer_for c kek q (run c kek earlier []).1).0 ≡ some seed
      → granted
          (signer_for c kek again
            (run c kek later (signer_for c kek q (run c kek earlier []).1).1).1).0
        ≡ some seed
  signer_for-run earlier later q again seed de dl dq da same given =
      let before = run-replay c kek lawful earlier de in
      let first = signer_for-Follows c kek lawful q _ _ dq before.1 in
      let after = run-Holds c kek lawful later _ _ dl first.1 in
      let last = signer_for-Follows c kek lawful again _ _ da after.1 in
      let keys = (replay earlier (λ org_id. none)).1 in
      let told : (issue q keys).0 ≡ some seed = cc (first.0, given) in
      let kept : (replay later (issue q keys).1).1 q.org_id ≡ some seed =
        replay-kept later (issue q keys).1 q.org_id seed (issue-again q keys seed told) in
      let known : (issue again (replay later (issue q keys).1).1).0 ≡ some seed =
        issue-known again (replay later (issue q keys).1).1 seed
          (rw same (issue-valid q keys seed told)) (rw same kept) in
      cc (last.0, known)
