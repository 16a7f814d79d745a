-- ===== src/Service/Publish/Delivery.antt =====
-- The files of a publish response, verified as the receiver does.
use canton_assurance_layer.Prelude.{
  ◌≡◌, sym, ap, ◌∙◌, subst, List, [], ◌∷◌, ◌++◌, some, Text, Bytes, codes, map, ok, >>=-eq-ok,
  ok-injective, ok_or, ok_or-eq-ok,
}
use canton_assurance_layer.Prelude.Space.{trim}
use canton_assurance_layer.Primitives.{Primitives, IsLawful}
use canton_assurance_layer.Report.Sign.{ReportSigner, public_key_hex}
use canton_assurance_layer.Report.Verify.Accepted.{map_err-eq-ok}
use canton_assurance_layer.Report.Pack.{SignedPack, verify_pack}
use canton_assurance_layer.Report.Pack.Built.{delivered, verify_pack-build_pack}
use canton_assurance_layer.Service.Publish.{
  PublishRequest, PublishResponse, FileOut, Printer, file, member, not_packed, printing_failed,
  pretty, publication_of, packed_files, pack_of, do_publish,
}

pretty-eq-ok :
    (printed : _) {text : Text}
    → pretty printed ≡ ok text
    → (raw : Text) × (printed ≡ some raw) × (text ≡ raw ++ 10 ∷ [])
unfolding pretty
pretty-eq-ok printed {text} h =
    let (raw, e, h1) = >>=-eq-ok (ok_or printed printing_failed) _ h in
    (raw, ok_or-eq-ok printed printing_failed e, sym (ok-injective h1))

module _ (p : Primitives) (printer : Printer) where
  -- The files that a response delivers are those of a pack and, last, the printed pack itself; and
  -- `verify_pack` accepts that pack under the response's key with the other files as its members.
  -- The signature scheme and the hex codec are lawful, and the printed key has no white space
  -- around it.
  pub do_publish-verify_pack :
      IsLawful p
      → (master_salt : Bytes) (req : PublishRequest) (signer : ReportSigner)
        (response : PublishResponse)
      → trim (public_key_hex p signer) ≡ public_key_hex p signer
      → do_publish p printer master_salt req signer ≡ ok response
      → (files : List FileOut) × (pack : SignedPack) × (text : Text) × (printer.pack pack
          ≡ some text)
        × (response.files ≡ files ++ file (codes "pack.json") (text ++ 10 ∷ []) ∷ [])
        × (verify_pack p pack response.public_key (delivered (map member files) []) ≡ ok tt)
  unfolding do_publish pack_of
  do_publish-verify_pack lawful master_salt req signer response t h =
      let ((book, published), eb, h1) = >>=-eq-ok (publication_of p master_salt req signer) _ h in
      let (files, ef, h2) = >>=-eq-ok (packed_files p printer req published) _ h1 in
      let (pack, ep, h3) = >>=-eq-ok (pack_of p published files signer) _ h2 in
      let (printed, et, h4) = >>=-eq-ok (pretty (printer.pack pack)) _ h3 in
      let (text, raw, line) = pretty-eq-ok (printer.pack pack) et in
      let built =
        verify_pack-build_pack p lawful _ _ _ (map member files) signer {signed = pack} t
          (map_err-eq-ok not_packed _ ep) in
      let key : public_key_hex p signer ≡ response.public_key =
        ap (λ (r : PublishResponse). r.public_key) (ok-injective h4) in
      let out = ap (λ (r : PublishResponse). r.files) (ok-injective h4) in
      (
        files,
        pack,
        text,
        raw,
        sym out ∙ ap (λ c. files ++ file (codes "pack.json") c ∷ []) line,
        subst (λ k. verify_pack p pack k (delivered (map member files) []) ≡ ok tt) key built,
      )
