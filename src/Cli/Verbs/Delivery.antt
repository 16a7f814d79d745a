-- ===== src/Cli/Verbs/Delivery.antt =====
-- The exit code of `verify-pack`: the index of a delivery, and then its contents.
use canton_assurance_layer.Prelude.{
  ◌≡◌, refl, sym, subst, ap, arith, ◌↔◌, Bool, true, ◌&&◌, List, [], some, Option, Text, Bytes,
  codes, Result, ok, err, ok_or, >>=-eq-ok, ok-injective, ok_or-eq-ok,
}
use canton_assurance_layer.Primitives.{Primitives}
use canton_assurance_layer.Report.Pack.{SignedPack, PackFailure}
use canton_assurance_layer.Report.Pack as Pack
use canton_assurance_layer.Cli.Args.{directory, verify, verify_pack}
use canton_assurance_layer.Cli.Run.{
  RunError, Summary, all_passed, exit_code, run_verify, load, reading_directory,
}
use canton_assurance_layer.Cli.Run.Sweep.{exit_code_zero}
use canton_assurance_layer.Cli.Verbs.{
  Library, pack_passed, pack_file, is_none, is_some_and, index_failure_of, code_of, delivered,
  contents_of, run_pack, exit_of,
}

code_of_zero {ℓ} :
    {A : Type ℓ} (passed : A → Bool) (r : Result RunError A)
    → (code_of passed r ≡ 0) ↔ ((a : A) × (r ≡ ok a) × (passed a ≡ true))
code_of_zero passed (ok a) = (
  (λ h. (a, refl, ground arith)),
  (λ q. let e = ap passed (ok-injective q.1) in ground (arith, e, q.2)),
)
code_of_zero passed (err e) = ((λ h. absurd (omega arith)), (λ q. absurd (cc (q.1))))

module _ (p : Primitives) (library : Library) where
  open library use {host}

  -- The contents are there and passed, in a delivery whose index did not fail.
  contents_passed :
      (dir key : Text) (index : Result PackFailure (Unit {0})) (contents : Option Summary)
      → contents_of library p dir key index ≡ ok contents
      → is_none (index_failure_of index) && is_some_and all_passed contents ≡ true
      → (index ≡ ok tt)
        × (exit_code
              (run_verify host p (library.join dir (codes "report.json")) (directory dir) key)
            ≡ 0)
  contents_passed dir key (err failure) contents h a = absurd (cc (a))
  contents_passed dir key (ok done) contents h a =
      let verified =
        run_verify host p (library.join dir (codes "report.json")) (directory dir) key in
      let (summary, e, h1) = >>=-eq-ok verified _ h in
      let passed = subst (λ c. is_some_and all_passed c ≡ true) (sym (ok-injective h1)) a in
      (refl, (exit_code_zero verified).1 (summary, e, passed))

  -- `verify-pack` exits with 0 exactly where the index and the directory's files are read, the index
  -- is accepted for those files under the key, and `verify` over the directory, with the report
  -- that stands in it and the same key, exits with 0.
  pub exit_of-verify_pack :
      (dir key : Text) (json : Bool)
      → (exit_of library p (verify_pack dir key json) ≡ 0) ↔ (
          (signed : SignedPack) × (files : List (Text × Bytes)) × (load host host.as_pack
              (library.join dir pack_file)
            ≡ ok signed)
          × (library.members dir ≡ some files)
          × (Pack.verify_pack p signed key (delivered files []) ≡ ok tt)
          × (exit_of library p
                (verify (library.join dir (codes "report.json")) (directory dir) key json)
              ≡ 0))
  unfolding exit_of run_pack pack_passed
  exit_of-verify_pack dir key json = (
    (λ z.
        let (summary, h, a) = (code_of_zero pack_passed (run_pack library p dir key)).0 z in
        let (signed, e, h1) = >>=-eq-ok (load host host.as_pack (library.join dir pack_file)) _ h in
        let (files, f, h2) = >>=-eq-ok (ok_or (library.members dir) (reading_directory dir)) _ h1 in
        let index = Pack.verify_pack p signed key (delivered files []) in
        let (contents, g, h3) = >>=-eq-ok (contents_of library p dir key index) _ h2 in
        let passed = subst (λ s. pack_passed s ≡ true) (sym (ok-injective h3)) a in
        let (accepted, clean) = contents_passed dir key index contents g passed in
        (
          signed,
          files,
          e,
          ok_or-eq-ok (library.members dir) (reading_directory dir) f,
          accepted,
          clean,
        )),
    (λ q.
        let (signed, files, e, f, accepted, clean) = q in
        let (summary, r, a) =
          (exit_code_zero
              (run_verify host p (library.join dir (codes "report.json")) (directory dir) key)).0
            clean in
        rw (e, f, accepted, r, a) refl),
  )
