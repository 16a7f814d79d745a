-- ===== src/Merkle/Leaf/Binding.antt =====
-- A v2 leaf hash determines what was committed.
use canton_assurance_layer.Prelude.{
  ℕ, ◌<◌, ◌≡◌, refl, sym, ap, ◌∙◌, ◌⊎◌, inl, inr, arith, [], ◌∷◌, ◌++◌, append_assoc, append-nil,
  Text, Bytes, BTreeMap, All, length, append_inj, u64_mod, u64le, length-u64le, u64le_inj, ok,
  >>-eq-ok, ok-injective, for_each,
}
use canton_assurance_layer.Primitives.{Primitives, CollisionIn, IsLawful}
use canton_assurance_layer.Merkle.Encoding.{lp, lpmap}
use canton_assurance_layer.Merkle.Encoding.Prefix.{HasLength, Fits, lp_inj, lpmap_inj}
use canton_assurance_layer.Merkle.Leaf.{
  AmountMaps, leaf_domain_v2, check_map, map_entries, leaf_preimage_v2, leaf_hash_v2,
}
use canton_assurance_layer.Merkle.Proof.Binding.{equal_or_Collision}

-- The maps of a leaf as the program can hold them.
pub record MapsFit (maps : AmountMaps) : Type 0 where
  pub count : length maps < u64_mod
  pub each : All (λ (e : Text × BTreeMap ℕ). HasLength e.0 × Fits e.1) maps

map_entries_inj :
    (m n : AmountMaps) (x y : Bytes)
    → length m ≡ length n
    → All (λ (e : Text × BTreeMap ℕ). HasLength e.0 × Fits e.1) m
    → All (λ (e : Text × BTreeMap ℕ). HasLength e.0 × Fits e.1) n
    → map_entries m ++ x ≡ map_entries n ++ y
    → (m ≡ n) × (x ≡ y)
unfolding map_entries
map_entries_inj [] [] x y l hm hn h = (refl, h)
map_entries_inj [] (b ∷ n) x y l hm hn h = absurd (omega arith)
map_entries_inj (a ∷ m) [] x y l hm hn h = absurd (omega arith)
map_entries_inj ((j, a) ∷ m) ((k, b) ∷ n) x y l (hj, hm) (hk, hn) h =
    let regroup = λ (j : Text) (a : BTreeMap ℕ) (e x : Bytes).
      append_assoc (lp j) (lpmap a ++ e) x
      ∙ ap (λ (t : Bytes). lp j ++ t) (append_assoc (lpmap a) e x) in
    let e : lp j ++ (lpmap a ++ (map_entries m ++ x)) ≡ lp k ++ (lpmap b ++ (map_entries n ++ y)) =
      sym (regroup j a (map_entries m) x) ∙ h ∙ regroup k b (map_entries n) y in
    let (ej, e1) = lp_inj j k _ _ hj.0 hk.0 e in
    let (ea, e2) = lpmap_inj a b _ _ hj.1 hk.1 e1 in
    let (em, ex) = map_entries_inj m n x y (omega arith) hm hn e2 in (cc (ej, ea, em), ex)

module _ (p : Primitives) (lawful : IsLawful p) where
  leaf_preimage_v2_inj :
      (salt salt' : Bytes) (subject subject' : Text) (maps maps' : AmountMaps)
      → length salt ≡ 32
      → length salt' ≡ 32
      → MapsFit maps
      → MapsFit maps'
      → leaf_preimage_v2 p salt subject maps ≡ leaf_preimage_v2 p salt' subject' maps'
      → (salt ≡ salt') × (p.sha256 subject ≡ p.sha256 subject') × (maps ≡ maps')
  unfolding leaf_preimage_v2
  leaf_preimage_v2_inj salt salt' subject subject' maps maps' hs hs' f f' h =
      let (d, e1) = append_inj leaf_domain_v2 leaf_domain_v2 _ _ refl h in
      let (es, e2) = append_inj salt salt' _ _ (hs ∙ sym hs') e1 in
      let (ed, e3) =
        append_inj (p.sha256 subject) (p.sha256 subject') _ _
          (lawful.sha256_length subject ∙ sym (lawful.sha256_length subject')) e2 in
      let (en, e4) =
        append_inj (u64le (length maps)) (u64le (length maps')) _ _
          (length-u64le (length maps) ∙ sym (length-u64le (length maps'))) e3 in
      let e5 : map_entries maps ++ [] ≡ map_entries maps' ++ [] =
        append-nil (map_entries maps) ∙ e4 ∙ sym (append-nil (map_entries maps')) in
      let (em, _) =
        map_entries_inj maps maps' [] []
          (u64le_inj (length maps) (length maps') f.count f'.count en) f.each f'.each e5 in
      (es, ed, em)

  -- A v2 leaf hash binds everything that it commits to: two leaves with one hash have the same salt,
  -- the same subject and the same amount maps, or their two preimages, or their two subjects, which
  -- the code hashes, are different and have one SHA-256 digest. Salts are 32 bytes, lengths are below
  -- 2 ^ 64 and amounts below 2 ^ 128.
  pub leaf_hash_v2-binding :
      (salt salt' : Bytes) (subject subject' : Text) (maps maps' : AmountMaps) {hash : Bytes}
      → length salt ≡ 32
      → length salt' ≡ 32
      → MapsFit maps
      → MapsFit maps'
      → leaf_hash_v2 p salt subject maps ≡ ok hash
      → leaf_hash_v2 p salt' subject' maps' ≡ ok hash
      → ((salt ≡ salt') × (subject ≡ subject') × (maps ≡ maps'))
        ⊎ CollisionIn p
            (leaf_preimage_v2 p salt subject maps ∷ subject ∷ [])
            (leaf_preimage_v2 p salt' subject' maps' ∷ subject' ∷ [])
  unfolding leaf_hash_v2
  leaf_hash_v2-binding salt salt' subject subject' maps maps' hs hs' f f' h h' =
      let (c, e) = >>-eq-ok (for_each check_map maps) _ h in
      let (c', e') = >>-eq-ok (for_each check_map maps') _ h' in
      elim (equal_or_Collision p _ _ (ok-injective e ∙ sym (ok-injective e'))) [
        | inr c ↦ inr (inl c)
        | inl q ↦
            let (es, ed, em) =
              leaf_preimage_v2_inj salt salt' subject subject' maps maps' hs hs' f f' q in
            elim (equal_or_Collision p subject subject' ed) [
              | inl s ↦ inl (es, s, em)
              | inr c ↦ inr (inr (inl c))
            ]
      ]
