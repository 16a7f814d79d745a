-- ===== src/Report/Assurance/Supports.antt =====
-- What each level asks of the evidence for a field, in terms of the documents that are the evidence.
use canton_assurance_layer.Prelude.{
  ◌≡◌, ◌≢◌, ◌↔◌, ◌⊎◌, refl, sym, ap, subst, ◌∙◌, inl, inr, Bool, true, false, ◌&&◌, List, [], ◌∷◌,
  ◌++◌, Option, none, some, Text, codes, text_eq, text_eq_iff, any, get, ok, some_inj, Bool-cases,
}
use canton_assurance_layer.Prelude.Iffs.{Some, both, negated, any-Some, ok_iff, false_iff}
use canton_assurance_layer.Primitives.{Primitives}
use canton_assurance_layer.Merkle.Encoding.{lp}
use canton_assurance_layer.Report.Document.{
  Disclosure, Manifest, Report, SignedReport, ProofDocument, signature_algorithm,
}
use canton_assurance_layer.Report.Manifest.{carries_data}
use canton_assurance_layer.Report.Digest.{report_digest_hex}
use canton_assurance_layer.Report.Sign.{verify_signature}
use canton_assurance_layer.Report.Verify.Fold.{verify}
use canton_assurance_layer.Report.Anchor.{Anchor, anchor_format_version}
use canton_assurance_layer.Report.Provenance.{
  SourceKind, participant, synchronizer, party, template, off_ledger, Source, Derivation,
  Provenance, on_ledger, find_derivation,
}
use canton_assurance_layer.Report.Verify.Failure.{
  AssuranceLevel, not_disclosed, claimed_only, issuer_attested, third_party_attested,
  ledger_derived, cryptographically_verified,
}
use canton_assurance_layer.Report.Assurance.{
  contains_level, level_eq, AttestorRole, issuer, third_party, role_str, role_eq, level_of,
  SignedAttestation, Evidence, TrustedKeys, is_withheld, declared_withheld, withheld, anchors,
  is_grounded, derives_from_ledger, is_some_and, attestation_digest, attests, recomputed, pinned,
  field_levels,
}
use canton_assurance_layer.Report.Assurance.Levels.{
  attested_as, is_supported, contains_level-field_levels,
}

-- The manifest has the field withheld, and the report carries no data in it.
abbrev pub IsWithheld : Report → Text → Type 0
IsWithheld report field =
    ((m : Manifest) × (report.manifest ≡ some m) × (get field m.fields ≡ some Disclosure.withheld))
    × (carries_data report field ≡ false)

-- The anchor is of this report: it names its digest, root, time, offset and publisher.
abbrev pub IsAnchorOf : Report → Text → Anchor → Type 0
IsAnchorOf report digest a =
    (a.format_version ≡ codes "canton-solvency-anchor-v1")
    × ((a.report_digest ≡ digest)
        × ((a.root_hash ≡ report.root_hash)
            × ((a.snapshot_time ≡ report.snapshot_time)
                × ((a.ledger_offset ≡ report.ledger_offset) × (a.publisher ≡ report.publisher)))))

-- The first derivation of the field in the list.
abbrev pub IsFirstFor : Text → Derivation → List Derivation → Type 0
IsFirstFor field d [] = ⊥
IsFirstFor field d (x ∷ l) =
    ((x.field ≡ field) × (x ≡ d)) ⊎ ((x.field ≢ field) × IsFirstFor field d l)

-- The first derivation of the field names a source of the graph that is on the ledger.
abbrev pub DerivesFromLedger : Provenance → Text → Type 0
DerivesFromLedger g field =
    (d : Derivation) × IsFirstFor field d g.derivations
    × Some (λ id. Some (λ (s : Source). (s.id ≡ id) × (s.kind ≢ off_ledger)) g.sources) d.sources

some-and {ℓ} :
    {A : Type ℓ} {P : A → Type 0} (o : Option A) (f : A → Bool)
    → ((a : A) → (f a ≡ true) ↔ P a)
    → (is_some_and o f ≡ true) ↔ ((a : A) × (o ≡ some a) × P a)
some-and none f h = ((λ q. cc (q)), (λ q. cc (q.1)))
some-and {P} (some a) f h =
    ((λ q. (a, refl, (h a).0 q)), (λ q. (h a).1 (subst P (sym (some_inj q.1)) q.2)))

kind_iff : (k : SourceKind) → (on_ledger k ≡ true) ↔ (k ≢ off_ledger)
unfolding on_ledger
kind_iff participant = ((λ q e. cc (e)), (λ n. refl))
kind_iff synchronizer = ((λ q e. cc (e)), (λ n. refl))
kind_iff party = ((λ q e. cc (e)), (λ n. refl))
kind_iff template = ((λ q e. cc (e)), (λ n. refl))
kind_iff off_ledger = ((λ q. cc (q)), (λ n. absurd (n refl)))

role_iff : (r s : AttestorRole) → (role_eq r s ≡ true) ↔ (r ≡ s)
role_iff issuer issuer = ((λ q. refl), (λ q. refl))
role_iff issuer third_party = ((λ q. cc (q)), (λ q. cc (q)))
role_iff third_party issuer = ((λ q. cc (q)), (λ q. cc (q)))
role_iff third_party third_party = ((λ q. refl), (λ q. refl))

withheld_state : (o : Option Disclosure) → (is_withheld o ≡ true) ↔ (o ≡ some Disclosure.withheld)
withheld_state none = ((λ q. cc (q)), (λ q. cc (q)))
withheld_state (some Disclosure.published) = ((λ q. cc (q)), (λ q. cc (q)))
withheld_state (some Disclosure.committed) = ((λ q. cc (q)), (λ q. cc (q)))
withheld_state (some Disclosure.withheld) = ((λ q. refl), (λ q. refl))

declared_iff :
    (o : Option Manifest) (field : Text)
    → (declared_withheld o field ≡ true)
      ↔ ((m : Manifest) × (o ≡ some m) × (get field m.fields ≡ some Disclosure.withheld))
declared_iff none field = ((λ q. cc (q)), (λ q. cc (q.1)))
declared_iff (some m) field =
    let (there, back) = withheld_state (get field m.fields) in
    (
      (λ q. (m, refl, there q)),
      (λ q. back (
          subst (λ (n : Manifest). get field n.fields ≡ some Disclosure.withheld)
            (sym (some_inj q.1)) q.2)),
    )

withheld_iff :
    (report : Report) (field : Text) → (withheld report field ≡ true) ↔ IsWithheld report field
unfolding withheld
withheld_iff report field =
    both _ _ (declared_iff report.manifest field) (false_iff (carries_data report field))

anchors_iff :
    (report : Report) (a : Anchor) (digest : Text)
    → (anchors report a digest ≡ true) ↔ IsAnchorOf report digest a
unfolding anchors
anchors_iff report a digest = both _ _ (text_eq_iff a.format_version anchor_format_version) (
    both _ _ (text_eq_iff a.report_digest digest) (
      both _ _ (text_eq_iff a.root_hash report.root_hash) (
        both _ _ (text_eq_iff a.snapshot_time report.snapshot_time) (
          both _ _ (text_eq_iff a.ledger_offset report.ledger_offset)
            (text_eq_iff a.publisher report.publisher)))))

first_iff :
    (field : Text) (l : List Derivation) (d : Derivation)
    → (find_derivation field l ≡ some d) ↔ IsFirstFor field d l
unfolding find_derivation
first_iff field [] d = ((λ q. cc (q)), (λ q. absurd q))
first_iff field (x ∷ l) d = elim (Bool-cases (text_eq x.field field)) [
  | inl e ↦
      let same = (text_eq_iff x.field field).0 e in
      rw (find_derivation, e)
        (
          (λ q. inl (same, some_inj q)),
          (λ q. elim q [ inl h ↦ ap (λ y. some y) h.1 | inr h ↦ absurd (h.0 same) ]),
        )
  | inr e ↦
      let (there, back) = first_iff field l d in
      rw (find_derivation, e)
        (
          (λ q. inr ((λ s. cc (e, (text_eq_iff x.field field).1 s)), there q)),
          (λ q. elim q [
            | inl h ↦ absurd (cc (e, (text_eq_iff x.field field).1 h.0))
            | inr h ↦ back h.1
          ]),
        )
]

abbrev NamesLedger : List Source → Derivation → Type 0
NamesLedger sources d =
    Some (λ id. Some (λ (s : Source). (s.id ≡ id) × (s.kind ≢ off_ledger)) sources) d.sources

grounded_iff :
    (sources : List Source) (o : Option Derivation)
    → (is_grounded sources o ≡ true) ↔ ((d : Derivation) × (o ≡ some d) × NamesLedger sources d)
grounded_iff sources none = ((λ q. cc (q)), (λ q. cc (q.1)))
grounded_iff sources (some d) =
    let (there, back) =
      any-Some (λ id. any (λ (s : Source). text_eq s.id id && on_ledger s.kind) sources) d.sources
        (λ id.
          any-Some (λ (s : Source). text_eq s.id id && on_ledger s.kind) sources
            (λ s. both _ _ (text_eq_iff s.id id) (kind_iff s.kind))) in
    ((λ q. (d, refl, there q)), (λ q. back (subst (NamesLedger sources) (sym (some_inj q.1)) q.2)))

derives_iff :
    (g : Provenance) (field : Text)
    → (derives_from_ledger g field ≡ true) ↔ DerivesFromLedger g field
unfolding derives_from_ledger
derives_iff g field =
    let (there, back) = grounded_iff g.sources (find_derivation field g.derivations) in
    (
      (λ q. let (d, e, s) = there q in (d, (first_iff field g.derivations d).0 e, s)),
      (λ q. back (q.0, (first_iff field g.derivations q.0).1 q.1, q.2)),
    )

level_iff : (r s : AttestorRole) → (level_eq (level_of r) (level_of s) ≡ true) ↔ (s ≡ r)
level_iff issuer issuer = ((λ q. refl), (λ q. refl))
level_iff issuer third_party = ((λ q. cc (q)), (λ q. cc (q)))
level_iff third_party issuer = ((λ q. cc (q)), (λ q. cc (q)))
level_iff third_party third_party = ((λ q. refl), (λ q. refl))

module _ (p : Primitives) where
  -- An attestation that counts: of the field and the report, in the format, by a key that is trusted
  -- for its role, and signed by that key.
  abbrev pub IsAttestation : TrustedKeys → Text → Text → SignedAttestation → Type 0
  IsAttestation trusted digest field s =
      (s.attestation.format_version ≡ codes "canton-solvency-attestation-v1")
      × ((s.attestation.field ≡ field)
          × ((s.attestation.report_digest ≡ digest)
              × (((role : AttestorRole) × (get s.signature.public_key trusted.attestors ≡ some role)
                    × (role ≡ s.attestation.role))
                  × ((s.signature.algorithm ≡ codes "ed25519")
                      × ((done : Unit {0}) × (verify_signature p s.signature.public_key
                              (p.sha256 (
                                codes "rocky-solvency-attestation-v1"
                                ++ (lp s.attestation.format_version
                                    ++ (lp s.attestation.report_digest
                                        ++ (lp s.attestation.field
                                            ++ (lp (role_str s.attestation.role)
                                                ++ (lp s.attestation.attestor
                                                    ++ lp s.attestation.basis)))))))
                              s.signature.value
                            ≡ ok done))))))

  attests_iff :
      (trusted : TrustedKeys) (digest field : Text) (s : SignedAttestation)
      → (attests p trusted digest field s ≡ true) ↔ IsAttestation trusted digest field s
  unfolding attests attestation_digest
  attests_iff trusted digest field s = both _ _ (text_eq_iff s.attestation.format_version _) (
      both _ _ (text_eq_iff s.attestation.field field) (
        both _ _ (text_eq_iff s.attestation.report_digest digest) (
          both _ _
            (some-and (get s.signature.public_key trusted.attestors)
              (λ role. role_eq role s.attestation.role) (λ role. role_iff role s.attestation.role))
            (both _ _ (text_eq_iff s.signature.algorithm signature_algorithm) (ok_iff _)))))

  -- The evidence that a level needs. A provenance graph counts whether or not it is signed.
  abbrev pub Supports : SignedReport → Evidence → TrustedKeys → Text → AssuranceLevel → Type 0
  Supports signed evidence trusted field not_disclosed = IsWithheld signed.report field
  Supports signed evidence trusted field claimed_only = IsWithheld signed.report field → ⊥
  Supports signed evidence trusted field issuer_attested =
      (IsWithheld signed.report field → ⊥)
      × Some
          (λ (s : SignedAttestation).
            IsAttestation trusted (report_digest_hex p signed.report) field s
            × (s.attestation.role ≡ issuer))
          evidence.attestations
  Supports signed evidence trusted field third_party_attested =
      (IsWithheld signed.report field → ⊥)
      × Some
          (λ (s : SignedAttestation).
            IsAttestation trusted (report_digest_hex p signed.report) field s
            × (s.attestation.role ≡ third_party))
          evidence.attestations
  Supports signed evidence trusted field ledger_derived =
      (IsWithheld signed.report field → ⊥)
      × (((a : Anchor) × (evidence.anchor ≡ some a)
            × IsAnchorOf signed.report (report_digest_hex p signed.report) a)
          × ((g : Provenance) × (evidence.provenance ≡ some g) × DerivesFromLedger g field))
  Supports signed evidence trusted field cryptographically_verified =
      (IsWithheld signed.report field → ⊥)
      × ((field ≡ codes "root_sums")
          × ((proof : ProofDocument) × (evidence.proof ≡ some proof)
              × ((v : Unit {0}) × (verify p signed proof trusted.publisher ≡ ok v))))

  attested_iff :
      (trusted : TrustedKeys) (digest field : Text) (r : AttestorRole) (l : List SignedAttestation)
      → (attested_as p trusted digest field (level_of r) l ≡ true)
        ↔ Some
            (λ (s : SignedAttestation).
              IsAttestation trusted digest field s × (s.attestation.role ≡ r))
            l
  attested_iff trusted digest field r l =
      any-Some _ l
        (λ s. both _ _ (attests_iff trusted digest field s) (level_iff r s.attestation.role))

  pinned_iff :
      (signed : SignedReport) (evidence : Evidence) (field : Text)
      → (pinned p signed evidence field ≡ true) ↔ (
          ((a : Anchor) × (evidence.anchor ≡ some a)
            × IsAnchorOf signed.report (report_digest_hex p signed.report) a)
          × ((g : Provenance) × (evidence.provenance ≡ some g) × DerivesFromLedger g field))
  unfolding pinned
  pinned_iff signed evidence field =
      both _ _
        (some-and evidence.anchor _
          (λ a. anchors_iff signed.report a (report_digest_hex p signed.report)))
        (some-and evidence.provenance _ (λ g. derives_iff g field))

  recomputed_iff :
      (signed : SignedReport) (evidence : Evidence) (trusted : TrustedKeys) (field : Text)
      → (recomputed p signed evidence trusted field ≡ true) ↔ (
          (field ≡ codes "root_sums")
          × ((proof : ProofDocument) × (evidence.proof ≡ some proof)
              × ((v : Unit {0}) × (verify p signed proof trusted.publisher ≡ ok v))))
  unfolding recomputed
  recomputed_iff signed evidence trusted field =
      both _ _ (text_eq_iff field (codes "root_sums"))
        (some-and evidence.proof _ (λ proof. ok_iff (verify p signed proof trusted.publisher)))

  supported_iff :
      (signed : SignedReport) (evidence : Evidence) (trusted : TrustedKeys) (field : Text)
      (a : AssuranceLevel)
      → (is_supported p signed evidence trusted field a ≡ true)
        ↔ Supports signed evidence trusted field a
  unfolding is_supported
  supported_iff signed evidence trusted field not_disclosed = withheld_iff signed.report field
  supported_iff signed evidence trusted field claimed_only =
      negated _ (withheld_iff signed.report field)
  supported_iff signed evidence trusted field issuer_attested =
      both _ _ (negated _ (withheld_iff signed.report field)) (
        attested_iff trusted (report_digest_hex p signed.report) field issuer evidence.attestations)
  supported_iff signed evidence trusted field third_party_attested =
      both _ _ (negated _ (withheld_iff signed.report field)) (
        attested_iff trusted (report_digest_hex p signed.report) field third_party
          evidence.attestations)
  supported_iff signed evidence trusted field ledger_derived =
      both _ _ (negated _ (withheld_iff signed.report field)) (pinned_iff signed evidence field)
  supported_iff signed evidence trusted field cryptographically_verified =
      both _ _ (negated _ (withheld_iff signed.report field))
        (recomputed_iff signed evidence trusted field)

  -- The levels that `establish` collects for a field are exactly those whose evidence is there:
  -- for a field that the manifest withholds and that carries no data, `not_disclosed` alone; for
  -- every other one `claimed_only`; by role, an attestation of the field and the report that is
  -- signed by a key trusted for that role; `ledger_derived`, an anchor of the report and a graph,
  -- signed or not, whose first derivation of the field names a source on the ledger; and
  -- `cryptographically_verified`, for `root_sums` only, a proof that verifies under the publisher's key.
  pub field_levels-Supports :
      (signed : SignedReport) (evidence : Evidence) (trusted : TrustedKeys) (field : Text)
      (a : AssuranceLevel)
      → (contains_level a (field_levels p signed evidence trusted field) ≡ true)
        ↔ Supports signed evidence trusted field a
  field_levels-Supports signed evidence trusted field a =
      let e = contains_level-field_levels p signed evidence trusted field a in
      let (there, back) = supported_iff signed evidence trusted field a in
      ((λ q. there (sym e ∙ q)), (λ q. e ∙ back q))
