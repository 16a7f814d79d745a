-- ===== src/Cli/Run/Sweep.antt =====
-- The exit code of `verify` over a directory: what each file of it then is.
use canton_assurance_layer.Prelude.{
  ◌≡◌, refl, sym, subst, arith, ◌↔◌, ◌⊎◌, inl, inr, Bool, true, false, List, [], ◌∷◌, none, some,
  Text, all, All, Result, ok, err, ok_or, >>=-eq-ok, ok-injective, ok_or-eq-ok,
}
use canton_assurance_layer.Primitives.{Primitives}
use canton_assurance_layer.Report.Document.{SignedReport}
use canton_assurance_layer.Cli.Args.{directory}
use canton_assurance_layer.Cli.Run.{
  Host, RunError, reading, ProofOutcome, Summary, Judged, passes, all_passed, exit_code, judged,
  load, proof_paths, is_sibling_document, sweep, judge_proof, summary_of, run_verify,
}

-- Why one round of a sweep leaves nothing that failed: the file passes, or is skipped.
abbrev pub IsFine : Bool → Judged → Type 0
IsFine skips j = ((name : Text) × (j ≡ some (name, none))) ⊎ ((j ≡ none) × (skips ≡ true))

judged-IsFine :
    (skips : Bool) (path : Text) (j : Judged) (rest : Result RunError (List ProofOutcome))
    {outcomes : List ProofOutcome}
    → judged skips path j rest ≡ ok outcomes
    → all passes outcomes ≡ true
    → IsFine skips j
      × ((behind : List ProofOutcome) × (rest ≡ ok behind) × (all passes behind ≡ true))
unfolding judged
judged-IsFine true path none rest {outcomes} h a = (inr (refl, refl), (outcomes, h, a))
judged-IsFine false path none rest {outcomes} h a = cc
judged-IsFine skips path (some (name, none)) rest {outcomes} h a =
    let (behind, e, h1) = >>=-eq-ok rest _ h in
    let b = subst (λ o. all passes o ≡ true) (sym (ok-injective h1)) a in
    (inl (name, refl), (behind, e, b))
judged-IsFine skips path (some (name, some failure)) rest {outcomes} h a =
    let (behind, e, h1) = >>=-eq-ok rest _ h in
    let b = subst (λ o. all passes o ≡ true) (sym (ok-injective h1)) a in absurd (cc (b))

IsFine-judged :
    (skips : Bool) (path : Text) (j : Judged) (behind : List ProofOutcome)
    → IsFine skips j
    → all passes behind ≡ true
    → (outcomes : List ProofOutcome) × (judged skips path j (ok behind) ≡ ok outcomes)
      × (all passes outcomes ≡ true)
unfolding judged
IsFine-judged skips path j behind (inl (name, e)) a =
    (record { path = path; subject = name; failure = none } ∷ behind, rw (judged, e) refl, a)
IsFine-judged skips path j behind (inr (e, s)) a = (behind, rw (judged, e, s) refl, a)

module _ (host : Host) (judge : Text → Judged) (is_sibling : Text → Bool) where
  -- A file that is read, and is a document that passes or, not being one, a sibling.
  abbrev pub IsClean : Text → Type 0
  IsClean path =
      (text : Text) × (host.read path ≡ some text) × IsFine (is_sibling text) (judge text)

  sweep-IsClean :
      (paths : List Text) {outcomes : List ProofOutcome}
      → sweep host judge is_sibling true paths ≡ ok outcomes
      → all passes outcomes ≡ true
      → All IsClean paths
  unfolding sweep
  sweep-IsClean [] {outcomes} h a = tt
  sweep-IsClean (path ∷ paths) {outcomes} h a =
      let (text, e, h1) = >>=-eq-ok (ok_or (host.read path) (reading path)) _ h in
      let (fine, (behind, f, b)) =
        judged-IsFine (is_sibling text) path (judge text) (sweep host judge is_sibling true paths)
          {outcomes = outcomes} h1 a in
      (
        (text, ok_or-eq-ok (host.read path) (reading path) e, fine),
        sweep-IsClean paths {outcomes = behind} f b,
      )

  IsClean-sweep :
      (paths : List Text)
      → All IsClean paths
      → (outcomes : List ProofOutcome) × (sweep host judge is_sibling true paths ≡ ok outcomes)
        × (all passes outcomes ≡ true)
  unfolding sweep
  IsClean-sweep [] c = ([], refl, refl)
  IsClean-sweep (path ∷ paths) ((text, read, fine), c) =
      let (behind, e, b) = IsClean-sweep paths c in
      let (outcomes, f, a) = IsFine-judged (is_sibling text) path (judge text) behind fine b in
      (outcomes, rw (read, e) f, a)

pub exit_code_zero :
    (r : Result RunError Summary)
    → (exit_code r ≡ 0) ↔ ((s : Summary) × (r ≡ ok s) × (all_passed s ≡ true))
unfolding exit_code
exit_code_zero (ok s) = ((λ h. (s, refl, ground arith)), (λ q. ground (arith, q.1, q.2)))
exit_code_zero (err e) = ((λ h. absurd (omega arith)), (λ q. absurd (cc (q.1))))

-- `verify` over a directory exits with 0 exactly where the report is loaded, the directory has paths
-- to sweep, and each of them is clean.
pub exit_code-run_verify :
    (p : Primitives) (host : Host) (report dir key : Text)
    → (exit_code (run_verify host p report (directory dir) key) ≡ 0) ↔ (
        (signed : SignedReport) × (paths : List Text) × (load host host.as_report report
          ≡ ok signed)
        × (proof_paths host dir ≡ ok paths)
        × All (IsClean host (judge_proof host p signed key) (is_sibling_document host)) paths)
unfolding run_verify all_passed
exit_code-run_verify p host report dir key = (
  (λ z.
      let (s, h, a) = (exit_code_zero (run_verify host p report (directory dir) key)).0 z in
      let (signed, e, h1) = >>=-eq-ok (load host host.as_report report) _ h in
      let (paths, f, h2) = >>=-eq-ok (proof_paths host dir) _ h1 in
      let (outcomes, g, h3) =
        >>=-eq-ok (sweep host (judge_proof host p signed key) (is_sibling_document host) true paths)
          _ h2 in
      let b = subst (λ (x : Summary). all passes x.outcomes ≡ true) (sym (ok-injective h3)) a in
      (
        signed,
        paths,
        e,
        f,
        sweep-IsClean host (judge_proof host p signed key) (is_sibling_document host) paths
            {outcomes = outcomes} g b,
      )),
  (λ q.
      let (signed, paths, e, f, clean) = q in
      let (outcomes, g, a) =
        IsClean-sweep host (judge_proof host p signed key) (is_sibling_document host) paths clean in
      (exit_code_zero (run_verify host p report (directory dir) key)).1
        (summary_of host p signed outcomes, rw (e, f, g) refl, a)),
)
