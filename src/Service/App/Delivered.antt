-- ===== src/Service/App/Delivered.antt =====
-- What the service delivers for an organisation, verified under the key that it told before.
use canton_assurance_layer.Prelude.{
  ◌≡◌, refl, sym, subst, ap, ◌∙◌, List, [], ◌∷◌, ◌++◌, some, Text, codes, map, Result, ok, err,
  ok-injective, All,
}
use canton_assurance_layer.Prelude.Space.{trim}
use canton_assurance_layer.Primitives.{Primitives, IsLawful}
use canton_assurance_layer.Report.Pack.{SignedPack, verify_pack}
use canton_assurance_layer.Report.Pack.Built.{delivered}
use canton_assurance_layer.Report.Sign.{ReportSigner, public_key_hex}
use canton_assurance_layer.Reserve.{Json}
use canton_assurance_layer.Service.Keystore.{Cipher, IsAead}
use canton_assurance_layer.Service.Publish.{
  PublishRequest, PublishResponse, ServiceError, FileOut, Printer, file, member, do_publish,
}
use canton_assurance_layer.Service.Publish.Delivery.{do_publish-verify_pack}
use canton_assurance_layer.Service.Custody.{CustodyResponse, CustodyRouteError, do_custody}
use canton_assurance_layer.Service.App.{
  HttpRequest, Call, health, keys, publish, custody, RouteError, published, AppState, app_error,
  answer, answer_publish, answer_custody, org_of, handle, serve,
}
use canton_assurance_layer.Service.App.Asked.{IsRandom}
use canton_assurance_layer.Service.App.Carried.{carried, handle-carried}
use canton_assurance_layer.Service.App.Keys.{serve-signer}

module _ (p : Primitives) (json : Json) (printer : Printer) (cipher : Cipher)
    (message : RouteError → Text) (state : AppState) where
  answer-published :
      (q : HttpRequest) (call : Call) (org_id : Text) (s : ReportSigner)
      (response : PublishResponse)
      → org_of call ≡ some org_id
      → answer p json printer cipher message state q call (ok s) ≡ published response
      → (req : PublishRequest) × (do_publish p printer q.master_salt req s ≡ ok response)
  unfolding app_error
  answer-published q health org_id s response e h = absurd (cc (e))
  answer-published q (keys org) org_id s response e h = absurd (cc (h))
  answer-published q (publish req) org_id s response e h =
      (req, of_publish (do_publish p printer q.master_salt req s) refl h)
    where
      of_publish :
          (r : Result ServiceError PublishResponse)
          → do_publish p printer q.master_salt req s ≡ r
          → answer_publish p json printer cipher message state r ≡ published response
          → do_publish p printer q.master_salt req s ≡ ok response
      of_publish (err x) f k = absurd (cc (k))
      of_publish (ok made) f k = cc (f, k)
  answer-published q (custody req) org_id s response e h =
      of_custody (do_custody p json printer q.master_salt req s) h
    where
      of_custody :
          (r : Result CustodyRouteError CustodyResponse)
          → answer_custody p json printer cipher message state r ≡ published response
          → (x : PublishRequest) × (do_publish p printer q.master_salt x s ≡ ok response)
      of_custody (err x) k = absurd (cc (k))
      of_custody (ok made) k = absurd (cc (k))

  -- Where requests are handled one after another: a publish request that is answered with a response,
  -- after a request for the same organisation whose answer carried a key: the files delivered are those
  -- of a pack and, last, the printed pack itself, and verify_pack accepts that pack under the key carried
  -- then, with the other files as its members. Whatever requests come before and between and whatever
  -- the disk does to them; the random bytes are 32 and 12, cipher, signature scheme and hex codec are
  -- lawful, and the key has no white space around it.
  pub serve-verify_pack :
      IsAead cipher
      → IsLawful p
      → (earlier later : List HttpRequest) (q again : HttpRequest) (org_id key : Text)
        (response : PublishResponse)
      → All IsRandom earlier
      → All IsRandom later
      → IsRandom q
      → IsRandom again
      → org_of q.call ≡ some org_id
      → org_of again.call ≡ some org_id
      → trim key ≡ key
      → let before = serve p json printer cipher message state earlier [] in
        let first = handle p json printer cipher message state q before in
        let last =
          handle p json printer cipher message state again
            (serve p json printer cipher message state later first.1) in
        carried first.0 ≡ some key
        → last.0 ≡ published response
        → (files : List FileOut) × (pack : SignedPack) × (text : Text) × (printer.pack pack
            ≡ some text)
          × (response.files ≡ files ++ file (codes "pack.json") (text ++ 10 ∷ []) ∷ [])
          × (verify_pack p pack key (delivered (map member files) []) ≡ ok tt)
  unfolding handle
  serve-verify_pack sealed lawful earlier later q again org_id key response re rl rq ra named
        asked_for t h d =
      let before = serve p json printer cipher message state earlier [] in
      let after =
        serve p json printer cipher message state later
          (handle p json printer cipher message state q before).1 in
      let (signer, same, kept) =
        serve-signer p json printer cipher message state sealed earlier later q again org_id key re
          rl rq ra named h in
      let told = ap carried d in
      let (other, a, given, key_is) =
        handle-carried p json printer cipher message state again after org_id response.public_key
          asked_for told in
      let (req, made) =
        answer-published again again.call org_id signer response asked_for
          (rw (handle, asked_for, a, kept) at d) in
      let (files, pack, text, printed, all_files, accepted) =
        do_publish-verify_pack p printer lawful again.master_salt req signer response
          (subst (λ k. trim k ≡ k) same t) made in
      let one : response.public_key ≡ key =
        key_is ∙ ap (public_key_hex p) (ok-injective (sym given ∙ kept)) ∙ sym same in
      let opens : Text → Type 0 =
        λ k. verify_pack p pack k (delivered (map member files) []) ≡ ok tt in
      (files, pack, text, printed, all_files, subst opens one accepted)
