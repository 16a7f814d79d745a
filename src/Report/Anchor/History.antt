-- ===== src/Report/Anchor/History.antt =====
-- rust/solvency-report/src/anchor.rs: an accepted chain is pinned by its last anchor.
use canton_assurance_layer.Prelude.{
  ℕ, ◌+◌, ◌≡◌, refl, sym, ap, ◌∙◌, ◌⊎◌, inl, inr, arith, true, false, List, [], ◌∷◌, ◌++◌, map,
  append-nil, Option, none, some, Text, All, text_lt, text_eq, text_eq→eq, ok, ensure, ensure-eq-ok,
  >>-eq-ok, some_inj, subst,
}
use canton_assurance_layer.Primitives.{Primitives, CollisionIn, IsLawful}
use canton_assurance_layer.Report.Anchor.{
  Anchor, ChainFailure, broken, publisher_changed, went_backwards, BackwardsField,
  anchor_format_version, anchor_digest_hex, check_previous, check_link, walk, verify_chain,
}
use canton_assurance_layer.Report.Anchor.Fields.{AnchorFits, anchor_preimage, anchor_digest_inj}

-- What an accepted step promises.
pub record Follows (p : Primitives) (previous anchor : Anchor) : Type 0 where
  pub linked : anchor.prev_anchor ≡ some (anchor_digest_hex p previous)
  pub same_publisher : anchor.publisher ≡ previous.publisher
  -- bytewise, as the code compares the texts
  pub time_text_above : text_lt previous.snapshot_time anchor.snapshot_time ≡ true
  pub offset_text_not_below : text_lt anchor.ledger_offset previous.ledger_offset ≡ false

-- A complete history, newest first: it ends at a genesis anchor.
abbrev pub IsHistory : Primitives → List Anchor → Type 0
IsHistory p [] = Unit
IsHistory p (a ∷ []) = a.prev_anchor ≡ none
IsHistory p (a ∷ b ∷ l) = Follows p b a × IsHistory p (b ∷ l)

abbrev pub reverse_onto : List Anchor → List Anchor → List Anchor
reverse_onto [] done = done
reverse_onto (a ∷ l) done = reverse_onto l (a ∷ done)

abbrev pub newest : List Anchor → Option Anchor
newest [] = none
newest (a ∷ l) = some a

abbrev pub newest_first : List Anchor → List Anchor
newest_first l = reverse_onto l []

reverse_onto_twice :
    (l d e : List Anchor) → reverse_onto (reverse_onto l d) e ≡ reverse_onto d (l ++ e)
reverse_onto_twice [] d e = refl
reverse_onto_twice (a ∷ l) d e = reverse_onto_twice l (a ∷ d) e

All-reverse_onto :
    (l d : List Anchor) → All AnchorFits l → All AnchorFits d → All AnchorFits (reverse_onto l d)
All-reverse_onto [] d hl hd = hd
All-reverse_onto (a ∷ l) d (ha, hl) hd = All-reverse_onto l (a ∷ d) hl (ha, hd)

module _ (p : Primitives) where
  check_previous-Follows :
      (i : ℕ) (previous : Anchor) (prev : Text) (anchor : Anchor)
      → anchor.prev_anchor ≡ some prev
      → check_previous p i previous prev anchor ≡ ok tt
      → Follows p previous anchor
  unfolding check_previous
  check_previous-Follows i previous prev anchor e h =
      let (a, h1) =
        >>-eq-ok (ensure (text_eq prev (anchor_digest_hex p previous)) (broken i)) _ h in
      let (b, h2) =
        >>-eq-ok (ensure (text_eq anchor.publisher previous.publisher) (publisher_changed i)) _
          h1 in
      let (c, d) =
        >>-eq-ok
          (ensure (text_lt previous.snapshot_time anchor.snapshot_time)
            (went_backwards i BackwardsField.snapshot_time))
          _ h2 in
      record {
        linked = e ∙ ap some (text_eq→eq _ _ (ensure-eq-ok _ _ a));
        same_publisher = text_eq→eq _ _ (ensure-eq-ok _ _ b);
        time_text_above = ensure-eq-ok _ _ c;
        offset_text_not_below = ground (arith, ensure-eq-ok _ _ d);
      }

  check_link-IsHistory :
      (i : ℕ) (done : List Anchor) (prev : Option Text) (anchor : Anchor)
      → anchor.prev_anchor ≡ prev
      → IsHistory p done
      → check_link p i (newest done) prev anchor ≡ ok tt
      → IsHistory p (anchor ∷ done)
  unfolding check_link
  check_link-IsHistory i [] none anchor e s h = e
  check_link-IsHistory i [] (some prev) anchor e s h = absurd (cc)
  check_link-IsHistory i (b ∷ done) none anchor e s h = absurd (cc)
  check_link-IsHistory i (b ∷ done) (some prev) anchor e s h =
      (check_previous-Follows i b prev anchor e h, s)

  walk-IsHistory :
      (i : ℕ) (done anchors : List Anchor)
      → IsHistory p done
      → walk p i (newest done) anchors ≡ ok tt
      → IsHistory p (reverse_onto anchors done)
  unfolding walk
  walk-IsHistory i done [] s h = s
  walk-IsHistory i done (a ∷ anchors) s h =
      let (v, h1) =
        >>-eq-ok
          (ensure (text_eq a.format_version anchor_format_version)
            (ChainFailure.unsupported_version i a.format_version))
          _ h in
      let (c, h2) = >>-eq-ok (check_link p i (newest done) a.prev_anchor a) _ h1 in
      walk-IsHistory (i + 1) (a ∷ done) anchors
        (check_link-IsHistory i done a.prev_anchor a refl s c) h2

  -- An accepted chain is a complete history: its first anchor names no predecessor, and every other
  -- anchor names the digest of the one before it, keeps its publisher, has a snapshot time whose text
  -- is above the previous one's in byte order, and a ledger offset whose text is not below the
  -- previous one's in byte order. For timestamps outside one spelling, and for offsets of different
  -- lengths, byte order is not the order of what the texts denote.
  pub verify_chain-IsHistory :
      (anchors : List Anchor) → verify_chain p anchors ≡ ok tt → IsHistory p (newest_first anchors)
  unfolding verify_chain
  verify_chain-IsHistory anchors h = walk-IsHistory 0 [] anchors tt h

-- A genesis anchor and one with a predecessor are not the same.
no_prev : (a b : Anchor) (t : Text) → a ≡ b → a.prev_anchor ≡ none → b.prev_anchor ≡ some t → ⊥
no_prev a b t e ha hb =
    let q : none ≡ some t = sym ha ∙ ap (λ (x : Anchor). x.prev_anchor) e ∙ hb in cc

module _ (p : Primitives) (lawful : IsLawful p) where
  history_inj :
      (a b : Anchor) (l m : List Anchor)
      → All AnchorFits (a ∷ l)
      → All AnchorFits (b ∷ m)
      → IsHistory p (a ∷ l)
      → IsHistory p (b ∷ m)
      → anchor_digest_hex p a ≡ anchor_digest_hex p b
      → (a ∷ l ≡ b ∷ m) ⊎ CollisionIn p (map anchor_preimage (a ∷ l)) (map anchor_preimage (b ∷ m))
  history_inj a b [] [] fa fb ha hb h = elim (anchor_digest_inj p lawful a b fa.0 fb.0 h) [
    | inl e ↦ inl (ap (λ x. x ∷ []) e)
    | inr c ↦ inr (inl c)
  ]
  history_inj a b [] (d ∷ m) fa fb ha hb h = elim (anchor_digest_inj p lawful a b fa.0 fb.0 h) [
    | inl e ↦ absurd (no_prev a b _ e ha hb.0.linked)
    | inr c ↦ inr (inl c)
  ]
  history_inj a b (c ∷ l) [] fa fb ha hb h = elim (anchor_digest_inj p lawful a b fa.0 fb.0 h) [
    | inl e ↦ absurd (no_prev b a _ (sym e) hb ha.0.linked)
    | inr c ↦ inr (inl c)
  ]
  history_inj a b (c ∷ l) (d ∷ m) fa fb ha hb h =
      elim (anchor_digest_inj p lawful a b fa.0 fb.0 h) [
        | inr x ↦ inr (inl x)
        | inl e ↦
            elim (history_inj c d l m fa.1 fb.1 ha.1 hb.1
              (some_inj (sym ha.0.linked ∙ ap (λ (x : Anchor). x.prev_anchor) e ∙ hb.0.linked))) [
                | inl q ↦ inl (cc (e, q))
                | inr x ↦ inr (inr x)
              ]
      ]

  -- The last anchor pins the whole history: two accepted chains whose newest anchors have one
  -- digest are the same chain, anchor for anchor, or at one distance from the newest anchor the two
  -- chains' anchors have different preimages with one SHA-256 digest. So no past anchor can be edited,
  -- dropped or inserted under an unchanged newest digest, but by such a pair.
  pub verify_chain-binding :
      (xs ys l m : List Anchor) (a b : Anchor)
      → All AnchorFits xs
      → All AnchorFits ys
      → verify_chain p xs ≡ ok tt
      → verify_chain p ys ≡ ok tt
      → newest_first xs ≡ a ∷ l
      → newest_first ys ≡ b ∷ m
      → anchor_digest_hex p a ≡ anchor_digest_hex p b
      → (xs ≡ ys)
        ⊎ CollisionIn p
            (map anchor_preimage (newest_first xs))
            (map anchor_preimage (newest_first ys))
  verify_chain-binding xs ys l m a b fx fy vx vy ex ey h =
      elim (history_inj a b l m (subst (All AnchorFits) ex (All-reverse_onto xs [] fx tt))
        (subst (All AnchorFits) ey (All-reverse_onto ys [] fy tt))
        (subst (IsHistory p) ex (verify_chain-IsHistory p xs vx))
        (subst (IsHistory p) ey (verify_chain-IsHistory p ys vy)) h) [
          | inr c ↦ inr (rw (ex, ey) c)
          | inl e ↦ inl (
              sym (append-nil xs)
              ∙ sym (reverse_onto_twice xs [] [])
              ∙ ap (λ (l : List Anchor). reverse_onto l []) (ex ∙ e ∙ sym ey)
              ∙ reverse_onto_twice ys [] []
              ∙ append-nil ys)
        ]
