-- ===== src/Cli/Run/Clean.antt =====
-- The exit code of `verify` over a directory, in terms of the files that stand there.
use canton_assurance_layer.Prelude.{
  ℕ, ◌≡◌, ◌≢◌, refl, sym, subst, ap, ◌∙◌, arith, ◌↔◌, ◌⊎◌, inl, inr, true, false, not, List, [],
  ◌∷◌, ◌++◌, Option, none, some, Text, codes, text_eq, text_eq_iff, text_le, All, is_empty, any,
  Result, ok, err, ok_or, ensure, ensure-eq-ok, >>=-eq-ok, >>-eq-ok, ok-injective, ok_or-eq-ok,
  some_inj, Option-cases, Bool-cases,
}
use canton_assurance_layer.Prelude.Iffs.{Some, both, negated, either, any-Some}
use canton_assurance_layer.Primitives.{Primitives}
use canton_assurance_layer.Report.Document.{
  SignedReport, ProofDocument, ProofDocumentV2, proof_format_version_v2,
}
use canton_assurance_layer.Report.Group.{GroupMembershipDocument}
use canton_assurance_layer.Report.Anchor.{Anchor}
use canton_assurance_layer.Report.Pack.{SignedPack}
use canton_assurance_layer.Report.Verify.Failure.{VerificationFailure}
use canton_assurance_layer.Report.Verify.Fold.{verify, verify_v2}
use canton_assurance_layer.Cli.Args.{directory}
use canton_assurance_layer.Cli.Run.{
  Host, reading, reading_directory, no_documents, parsing, Judged, v1, v2, subject, failure_of,
  exit_code, ends_with, is_json, insert_sorted, json_paths, load, proof_paths, parse_proof, is_some,
  is_sibling_document, verify_against, judge_proof, run_verify,
}
use canton_assurance_layer.Cli.Run.Sweep.{IsClean, exit_code-run_verify}

-- A path that ends in `.json`, of which that is neither the whole nor a whole file name.
abbrev pub IsJson : Text → Type 0
IsJson path =
    ((stem : Text) × (path ≡ stem ++ codes ".json"))
    × (((path ≡ codes ".json") ⊎ ((dir : Text) × (path ≡ dir ++ codes "/.json"))) → ⊥)

ends_at :
    (suffix : Text) (c : ℕ) (s stem : Text)
    → ((other : Text) → s ≡ other ++ suffix → ends_with suffix s ≡ true)
    → c ∷ s ≡ stem ++ suffix
    → ends_with suffix (c ∷ s) ≡ true
unfolding ends_with
ends_at suffix c s [] back e = rw ((text_eq_iff (c ∷ s) suffix).1 e) refl
ends_at suffix c s (x ∷ stem) back e = let b = back stem (cc (e)) in ground (arith, b)

ends_iff : (suffix s : Text) → (ends_with suffix s ≡ true) ↔ ((stem : Text) × (s ≡ stem ++ suffix))
unfolding ends_with
ends_iff [] [] = ((λ h. ([], refl)), (λ q. refl))
ends_iff (d ∷ suffix) [] = ((λ h. cc (h)), (λ q. absurd (never q.0 q.1)))
  where
    never : (stem : Text) → [] ≡ stem ++ d ∷ suffix → ⊥
    never [] e = cc (e)
    never (x ∷ stem) e = cc (e)
ends_iff suffix (c ∷ s) =
    let (there, back) = ends_iff suffix s in
    (
      (λ h. elim (Bool-cases (text_eq (c ∷ s) suffix)) [
        | inl e ↦ ([], (text_eq_iff (c ∷ s) suffix).0 e)
        | inr e ↦ let (stem, q) = there (rw e at h) in (c ∷ stem, ap (λ t. c ∷ t) q)
      ]),
      (λ q. ends_at suffix c s q.0 (λ other e. back (other, e)) q.1),
    )

is_json-IsJson : (path : Text) → (is_json path ≡ true) ↔ IsJson path
unfolding is_json
is_json-IsJson path =
    both _ _ (ends_iff (codes ".json") path)
      (negated _ (either _ _ (text_eq_iff path (codes ".json")) (ends_iff (codes "/.json") path)))

All-insert_sorted :
    (P : Text → Type 0) (x : Text) (l : List Text) → All P (insert_sorted x l) ↔ (P x × All P l)
unfolding insert_sorted
All-insert_sorted P x [] = ((λ h. h), (λ h. h))
All-insert_sorted P x (y ∷ l) =
    let (there, back) = All-insert_sorted P x l in
    elim (Bool-cases (text_le x y)) [
      | inl e ↦ rw (insert_sorted, e) ((λ h. h), (λ h. h))
      | inr e ↦
          rw (insert_sorted, e)
            ((λ h. let (px, pl) = there h.1 in (px, (h.0, pl))), (λ h. (h.1.0, back (h.0, h.1.1))))
    ]

-- What holds of the paths that are swept holds of the JSON files of the directory.
All-json_paths :
    (P : Text → Type 0) (names : List Text)
    → All P (json_paths names) ↔ All (λ path. IsJson path → P path) names
unfolding json_paths
All-json_paths P [] = ((λ h. tt), (λ h. tt))
All-json_paths P (path ∷ names) =
    let (there, back) = All-json_paths P names in
    let (split, join) = All-insert_sorted P path (json_paths names) in
    elim (Bool-cases (is_json path)) [
      | inl e ↦
          rw (json_paths, e)
            (
              (λ h. let (px, rest) = split h in ((λ j. px), there rest)),
              (λ h. join (h.0 ((is_json-IsJson path).0 e), back h.1)),
            )
      | inr e ↦
          rw (json_paths, e)
            ((λ h. ((λ j. absurd (cc (e, (is_json-IsJson path).1 j))), there h)), (λ h. back h.1))
    ]

All-each : (P Q : Text → Type 0) (l : List Text) → ((x : Text) → P x → Q x) → All P l → All Q l
All-each P Q [] f h = tt
All-each P Q (x ∷ l) f (h, hs) = (f x h, All-each P Q l f hs)

not_empty-insert : (x : Text) (l : List Text) → is_empty (insert_sorted x l) ≡ false
unfolding insert_sorted
not_empty-insert x [] = refl
not_empty-insert x (y ∷ l) = ground arith

json_any : (names : List Text) → not (is_empty (json_paths names)) ≡ any is_json names
unfolding json_paths
json_any [] = refl
json_any (path ∷ names) = elim (Bool-cases (is_json path)) [
  | inl e ↦ rw (json_paths, e, not_empty-insert path (json_paths names)) refl
  | inr e ↦ rw (json_paths, e) (json_any names)
]

text_neq : (s t : Text) → s ≢ t → text_eq s t ≡ false
text_neq s t n = elim (Bool-cases (text_eq s t)) [
  | inl e ↦ absurd (n ((text_eq_iff s t).0 e))
  | inr e ↦ e
]

failure_none : (r : Result VerificationFailure (Unit {0})) → failure_of r ≡ none → r ≡ ok tt
failure_none (ok u) h = refl
failure_none (err failure) h = cc

passed :
    (name other : Text) (r : Result VerificationFailure (Unit {0})) {j : Judged}
    → some (name, failure_of r) ≡ j
    → j ≡ some (other, none)
    → r ≡ ok tt
passed name other r h k =
    failure_none r (ap (λ (x : Text × Option VerificationFailure). x.1) (some_inj (h ∙ k)))

module _ (host : Host) where
  some_iff {ℓ} : {A : Type ℓ} (o : Option A) → (is_some host o ≡ true) ↔ ((a : A) × (o ≡ some a))
  some_iff none = ((λ h. cc (h)), (λ q. cc (q.1)))
  some_iff (some a) = ((λ h. (a, refl)), (λ q. refl))

  -- A pack, a report, an anchor or a membership.
  abbrev pub IsSibling : Text → Type 0
  IsSibling text =
      ((pack : SignedPack) × (host.as_pack text ≡ some pack))
      ⊎ (((report : SignedReport) × (host.as_report text ≡ some report))
          ⊎ (((anchor : Anchor) × (host.as_anchor text ≡ some anchor))
              ⊎ ((m : GroupMembershipDocument) × (host.as_membership text ≡ some m))))

  -- Neither of the second format and read so, nor of another format and read as the first.
  abbrev pub IsNoProof : Text → Type 0
  IsNoProof text =
      (host.format_version text ≡ none)
      ⊎ ((version : Text) × (host.format_version text ≡ some version)
          × (((version ≡ codes "canton-solvency-proof-v2") × (host.as_proof_v2 text ≡ none))
              ⊎ ((version ≢ codes "canton-solvency-proof-v2") × (host.as_proof text ≡ none))))

  is_sibling_document-IsSibling :
      (text : Text) → (is_sibling_document host text ≡ true) ↔ IsSibling text
  unfolding is_sibling_document
  is_sibling_document-IsSibling text = either _ _ (some_iff (host.as_pack text)) (
      either _ _ (some_iff (host.as_report text))
        (either _ _ (some_iff (host.as_anchor text)) (some_iff (host.as_membership text))))

  module _ (p : Primitives) (signed : SignedReport) (key : Text) where
    -- A proof, read by the format that it states, that verifies against the report under the key.
    abbrev pub IsVerified : Text → Type 0
    IsVerified text =
        (version : Text) × (host.format_version text ≡ some version)
        × (((version ≡ codes "canton-solvency-proof-v2")
              × ((proof : ProofDocumentV2) × (host.as_proof_v2 text ≡ some proof)
                  × (verify_v2 p signed proof key ≡ ok tt)))
            ⊎ ((version ≢ codes "canton-solvency-proof-v2")
                × ((proof : ProofDocument) × (host.as_proof text ≡ some proof)
                    × (verify p signed proof key ≡ ok tt))))

    -- Of a file that is read: a proof that verifies, or not a proof but another document.
    abbrev pub IsFineFile : Text → Type 0
    IsFineFile path =
        (text : Text) × (host.read path ≡ some text)
        × (IsVerified text ⊎ (IsNoProof text × IsSibling text))

    verified-IsFine :
        (text : Text)
        → IsVerified text
        → (name : Text) × (judge_proof host p signed key text ≡ some (name, none))
    unfolding judge_proof parse_proof verify_against
    verified-IsFine text (version, e, inl (v, (proof, f, g))) = (
      subject (v2 proof),
      rw (judge_proof, e, (text_eq_iff version proof_format_version_v2).1 v, f, g) refl,
    )
    verified-IsFine text (version, e, inr (v, (proof, f, g))) = (
      subject (v1 proof),
      rw (judge_proof, e, text_neq version proof_format_version_v2 v, f, g) refl,
    )

    no_proof-none : (text : Text) → IsNoProof text → judge_proof host p signed key text ≡ none
    unfolding judge_proof parse_proof
    no_proof-none text (inl e) = rw (judge_proof, e) refl
    no_proof-none text (inr (version, e, inl (v, f))) =
        rw (judge_proof, e, (text_eq_iff version proof_format_version_v2).1 v, f) refl
    no_proof-none text (inr (version, e, inr (v, f))) =
        rw (judge_proof, e, text_neq version proof_format_version_v2 v, f) refl

    judged-cases :
        (text : Text) (j : Judged)
        → judge_proof host p signed key text ≡ j
        → IsNoProof text
          ⊎ (((name : Text) × (outcome : Option VerificationFailure) × (j ≡ some (name, outcome)))
              × (((name : Text) × (j ≡ some (name, none))) → IsVerified text))
    unfolding judge_proof parse_proof verify_against
    judged-cases text j h = elim (Option-cases (host.format_version text)) [
      | inl e ↦ inl (inl e)
      | inr (version, e) ↦ elim (Bool-cases (text_eq version proof_format_version_v2)) [
        | inl v ↦
            let same = (text_eq_iff version proof_format_version_v2).0 v in
            elim (Option-cases (host.as_proof_v2 text)) [
              | inl f ↦ inl (inr (version, e, inl (same, f)))
              | inr (proof, f) ↦ inr (
                (
                  subject (v2 proof),
                  failure_of (verify_v2 p signed proof key),
                  sym (rw (judge_proof, e, v, f) at h),
                ),
                λ q. (
                  version,
                  e,
                  inl (
                    same,
                    (
                      proof,
                      f,
                      passed (subject (v2 proof)) q.0 (verify_v2 p signed proof key) {j = j}
                          (rw (judge_proof, e, v, f) at h) q.1,
                    ),
                  ),
                ),
              )
            ]
        | inr v ↦
            let other : version ≢ proof_format_version_v2 =
              λ s. cc (v, (text_eq_iff version proof_format_version_v2).1 s) in
            elim (Option-cases (host.as_proof text)) [
              | inl f ↦ inl (inr (version, e, inr (other, f)))
              | inr (proof, f) ↦ inr (
                (
                  subject (v1 proof),
                  failure_of (verify p signed proof key),
                  sym (rw (judge_proof, e, v, f) at h),
                ),
                λ q. (
                  version,
                  e,
                  inr (
                    other,
                    (
                      proof,
                      f,
                      passed (subject (v1 proof)) q.0 (verify p signed proof key) {j = j}
                          (rw (judge_proof, e, v, f) at h) q.1,
                    ),
                  ),
                ),
              )
            ]
      ]
    ]

    fine_iff :
        (path : Text)
        → IsClean host (judge_proof host p signed key) (is_sibling_document host) path
          ↔ IsFineFile path
    fine_iff path = (
      (λ c.
          let (text, r, fine) = c in
          let what = judged-cases text (judge_proof host p signed key text) refl in
          (
            text,
            r,
            elim fine [
              | inl passes ↦ elim what [
                | inl neither ↦ absurd (cc (no_proof-none text neither, passes.1))
                | inr found ↦ inl (found.1 passes)
              ]
              | inr skipped ↦ elim what [
                | inl neither ↦ inr (neither, (is_sibling_document-IsSibling text).0 skipped.1)
                | inr found ↦ absurd (cc (skipped.0, found.0.2))
              ]
            ],
          )),
      (λ c.
          let (text, r, document) = c in
          (
            text,
            r,
            elim document [
              | inl good ↦ inl (verified-IsFine text good)
              | inr other ↦
                  inr (no_proof-none text other.0, (is_sibling_document-IsSibling text).1 other.1)
            ],
          )),
    )

-- `verify` over a directory exits with 0 exactly where the report is read; the directory is read and
-- has at least one JSON file; and each JSON file of it is read and is either a proof, of the format
-- that it states, that verifies against the report under the key, or not a proof but a pack, a
-- report, an anchor or a membership. A directory without any proof may be such.
pub exit_code-IsFineFile :
    (p : Primitives) (host : Host) (report dir key : Text)
    → (exit_code (run_verify host p report (directory dir) key) ≡ 0) ↔ (
        (signed : SignedReport) × (text : Text) × (names : List Text) × (host.read report
          ≡ some text)
        × (host.as_report text ≡ some signed)
        × (host.entries dir ≡ some names)
        × Some IsJson names
        × All (λ path. IsJson path → IsFineFile host p signed key path) names)
unfolding load proof_paths
exit_code-IsFineFile p host report dir key =
    let (there, back) = exit_code-run_verify p host report dir key in
    (
      (λ z.
          let (signed, paths, e, f, clean) = there z in
          let (text, r, d) = >>=-eq-ok (ok_or (host.read report) (reading report)) _ e in
          let (names, n, f1) = >>=-eq-ok (ok_or (host.entries dir) (reading_directory dir)) _ f in
          let (some_json, f2) =
            >>-eq-ok (ensure (not (is_empty (json_paths names))) (no_documents dir)) _ f1 in
          let here =
            subst (All (IsClean host (judge_proof host p signed key) (is_sibling_document host)))
              (sym (ok-injective f2)) clean in
          (
            signed,
            text,
            names,
            ok_or-eq-ok (host.read report) (reading report) r,
            ok_or-eq-ok (host.as_report text) (parsing report) d,
            ok_or-eq-ok (host.entries dir) (reading_directory dir) n,
            (any-Some is_json names is_json-IsJson).0
                (sym (json_any names) ∙ ensure-eq-ok _ (no_documents dir) some_json),
            (All-json_paths (IsFineFile host p signed key) names).0 (
                All-each _ _ (json_paths names) (λ path. (fine_iff host p signed key path).0) here),
          )),
      (λ q.
          let (signed, text, names, r, d, n, some_json, files) = q in
          let filled = json_any names ∙ (any-Some is_json names is_json-IsJson).1 some_json in
          back (
            signed,
            json_paths names,
            rw (r, d) refl,
            rw (n, filled) refl,
            All-each _ _ (json_paths names) (λ path. (fine_iff host p signed key path).1)
                ((All-json_paths (IsFineFile host p signed key) names).1 files),
          )),
    )
