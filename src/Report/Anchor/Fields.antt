-- ===== src/Report/Anchor/Fields.antt =====
-- rust/solvency-report/src/anchor.rs: the digest of an anchor determines the anchor.
use canton_assurance_layer.Prelude.{
  ◌≡◌, refl, sym, ap, ◌∙◌, ◌⊎◌, inl, inr, [], ◌++◌, append-nil, Option, none, some, Bytes, Text,
  append_inj, some_inj,
}
use canton_assurance_layer.Primitives.{Primitives, Collision, IsLawful}
use canton_assurance_layer.Merkle.Encoding.{lp}
use canton_assurance_layer.Merkle.Encoding.Prefix.{HasLength, lp_inj}
use canton_assurance_layer.Merkle.Proof.Binding.{equal_or_Collision}
use canton_assurance_layer.Report.Anchor.{
  Anchor, anchor_digest_domain, prev_bytes, anchor_fields, anchor_digest, anchor_digest_hex,
}

abbrev pub PrevHasLength : Option Text → Type 0
PrevHasLength none = Unit
PrevHasLength (some t) = HasLength t

-- An anchor as the program can hold it: every text has a `u64` length.
pub record AnchorFits (a : Anchor) : Type 0 where
  pub format_version : HasLength a.format_version
  pub report_digest : HasLength a.report_digest
  pub root_hash : HasLength a.root_hash
  pub snapshot_time : HasLength a.snapshot_time
  pub ledger_offset : HasLength a.ledger_offset
  pub publisher : HasLength a.publisher
  pub publisher_key : HasLength a.publisher_key
  pub prev_anchor : PrevHasLength a.prev_anchor

prev_bytes_inj :
    (s t : Option Text) → PrevHasLength s → PrevHasLength t → prev_bytes s ≡ prev_bytes t → s ≡ t
unfolding prev_bytes
prev_bytes_inj none none hs ht h = refl
prev_bytes_inj none (some t) hs ht h = cc
prev_bytes_inj (some s) none hs ht h = cc
prev_bytes_inj (some s) (some t) hs ht h =
    let e : lp s ++ [] ≡ lp t ++ [] = append-nil (lp s) ∙ (cc) ∙ sym (append-nil (lp t)) in
    ap some (lp_inj s t [] [] hs ht e).0

anchor_fields_inj :
    (a b : Anchor) → AnchorFits a → AnchorFits b → anchor_fields a ≡ anchor_fields b → a ≡ b
unfolding anchor_fields
anchor_fields_inj a b fa fb h =
    let (e1, h1) =
      lp_inj a.format_version b.format_version _ _ fa.format_version fb.format_version h in
    let (e2, h2) =
      lp_inj a.report_digest b.report_digest _ _ fa.report_digest fb.report_digest h1 in
    let (e3, h3) = lp_inj a.root_hash b.root_hash _ _ fa.root_hash fb.root_hash h2 in
    let (e4, h4) =
      lp_inj a.snapshot_time b.snapshot_time _ _ fa.snapshot_time fb.snapshot_time h3 in
    let (e5, h5) =
      lp_inj a.ledger_offset b.ledger_offset _ _ fa.ledger_offset fb.ledger_offset h4 in
    let (e6, h6) = lp_inj a.publisher b.publisher _ _ fa.publisher fb.publisher h5 in
    let (e7, h7) =
      lp_inj a.publisher_key b.publisher_key _ _ fa.publisher_key fb.publisher_key h6 in
    let e8 = prev_bytes_inj a.prev_anchor b.prev_anchor fa.prev_anchor fb.prev_anchor h7 in
    λ i. record {
      format_version = e1 i;
      report_digest = e2 i;
      root_hash = e3 i;
      snapshot_time = e4 i;
      ledger_offset = e5 i;
      publisher = e6 i;
      publisher_key = e7 i;
      prev_anchor = e8 i;
    }

-- What is hashed for an anchor.
unfoldable pub anchor_preimage : Anchor → Bytes
anchor_preimage a = anchor_digest_domain ++ anchor_fields a

module _ (p : Primitives) (lawful : IsLawful p) where
  pub hex_inj :
      (a b : Bytes)
      → p.hex_encode (p.sha256 a) ≡ p.hex_encode (p.sha256 b)
      → p.sha256 a ≡ p.sha256 b
  hex_inj a b h = some_inj (
      sym (lawful.hex_round_trip (p.sha256 a) (lawful.sha256_bytes a))
      ∙ ap p.hex_decode h
      ∙ lawful.hex_round_trip (p.sha256 b) (lawful.sha256_bytes b))

  pub anchor_digest_inj :
      (a b : Anchor)
      → AnchorFits a
      → AnchorFits b
      → anchor_digest_hex p a ≡ anchor_digest_hex p b
      → (a ≡ b) ⊎ Collision p (anchor_preimage a) (anchor_preimage b)
  unfolding anchor_digest_hex anchor_digest anchor_preimage
  anchor_digest_inj a b fa fb h = elim (equal_or_Collision p _ _ (hex_inj _ _ h)) [
    | inr c ↦ inr c
    | inl e ↦ inl (
        anchor_fields_inj a b fa fb
          (append_inj anchor_digest_domain anchor_digest_domain _ _ refl e).1)
  ]
