-- ===== src/Service/App/Keys.antt =====
-- The keys that the service's answers carry, over requests that are handled one after another.
use canton_assurance_layer.Prelude.{
  ◌≡◌, refl, sym, subst, ap, ◌∙◌, true, List, [], some, Text, ok, All, ok-injective,
}
use canton_assurance_layer.Primitives.{Primitives}
use canton_assurance_layer.Report.Sign.{ReportSigner, public_key_hex}
use canton_assurance_layer.Reserve.{Json}
use canton_assurance_layer.Service.Keystore.{Cipher, IsAead, signer_for}
use canton_assurance_layer.Service.Keystore.Replay.{granted, run}
use canton_assurance_layer.Service.Keystore.Stable.{signer_for-run}
use canton_assurance_layer.Service.Publish.{Printer}
use canton_assurance_layer.Service.Custody.{is_authorized}
use canton_assurance_layer.Service.App.{
  HttpRequest, keys, RouteError, public_key, AppState, keyed, org_of, handle, serve,
}
use canton_assurance_layer.Service.App.Asked.{IsRandom, asked, serve-asked, asked-IsDrawn}
use canton_assurance_layer.Service.App.Carried.{
  carried, handle-carried, handle-files, granted-ok, answered,
}

module _ (p : Primitives) (json : Json) (printer : Printer) (cipher : Cipher)
    (message : RouteError → Text) (state : AppState) where
  module _ (lawful : IsAead cipher) where
    -- The signer that an answer's key is of is the one that the keystore gives ever after.
    pub serve-signer :
        (earlier later : List HttpRequest) (q again : HttpRequest) (org_id key : Text)
        → All IsRandom earlier
        → All IsRandom later
        → IsRandom q
        → IsRandom again
        → org_of q.call ≡ some org_id
        → let before = serve p json printer cipher message state earlier [] in
          let first = handle p json printer cipher message state q before in
          carried first.0 ≡ some key
          → (signer : ReportSigner) × (key ≡ public_key_hex p signer)
            × ((signer_for cipher state.kek
                  (keyed org_id again)
                  (serve p json printer cipher message state later first.1)).0
                ≡ ok signer)
    serve-signer earlier later q again org_id key re rl rq ra named h =
        let before = serve p json printer cipher message state earlier [] in
        let (signer, a, given, same) =
          handle-carried p json printer cipher message state q before org_id key named h in
        let kek = state.kek in
        let first = handle p json printer cipher message state q before in
        let origin = serve-asked p json printer cipher message state earlier [] in
        let now : granted (signer_for cipher kek (keyed org_id q) before).0 ≡ some signer.seed =
          ap granted given in
        let ever =
          signer_for-run cipher kek lawful (asked p json printer cipher message state earlier)
            (asked p json printer cipher message state later) (keyed org_id q) (keyed org_id again)
            signer.seed (asked-IsDrawn p json printer cipher message state earlier re)
            (asked-IsDrawn p json printer cipher message state later rl) rq ra refl
            (subst (λ f. granted (signer_for cipher kek (keyed org_id q) f).0 ≡ some signer.seed)
              origin now) in
        let left =
          serve-asked p json printer cipher message state later first.1
          ∙ ap (λ f. (run cipher kek (asked p json printer cipher message state later) f).1)
              (handle-files p json printer cipher message state q before org_id named a
                ∙ ap (λ f. (signer_for cipher kek (keyed org_id q) f).1) origin) in
        (
          signer,
          same,
          granted-ok p json printer cipher message state _ signer.seed (
              subst
                (λ f. granted (signer_for cipher kek (keyed org_id again) f).0 ≡ some signer.seed)
                (sym left) ever),
        )

    -- Where requests are handled one after another, as `serve` does: once an answer to a request for
    -- an organisation has carried a key, whatever requests came before and come after and whatever
    -- the disk does to them, every authorised request for the organisation's key is answered with that
    -- key, and no answer to a request for the organisation carries another one. The random bytes are
    -- 32 and 12, and the cipher is lawful. Requests that overlap are not covered.
    pub serve-carried :
        (earlier later : List HttpRequest) (q again : HttpRequest) (org_id key : Text)
        → All IsRandom earlier
        → All IsRandom later
        → IsRandom q
        → IsRandom again
        → org_of q.call ≡ some org_id
        → org_of again.call ≡ some org_id
        → let before = serve p json printer cipher message state earlier [] in
          let first = handle p json printer cipher message state q before in
          let last =
            handle p json printer cipher message state again
              (serve p json printer cipher message state later first.1) in
          carried first.0 ≡ some key
          → (is_authorized state.token again.authorization ≡ true
              → again.call ≡ keys org_id
              → last.0 ≡ public_key key)
            × ((other : Text) → carried last.0 ≡ some other → other ≡ key)
    unfolding handle
    serve-carried earlier later q again org_id key re rl rq ra named asked_for h =
        let before = serve p json printer cipher message state earlier [] in
        let after =
          serve p json printer cipher message state later
            (handle p json printer cipher message state q before).1 in
        let (signer, same, kept) =
          serve-signer earlier later q again org_id key re rl rq ra named h in
        (
          (λ a c.
              answered p json printer cipher message state again after org_id signer a c kept
              ∙ ap public_key (sym same)),
          (λ other k.
              let (other_signer, a, given, told) =
                handle-carried p json printer cipher message state again after org_id other
                  asked_for k in
              told ∙ ap (public_key_hex p) (ok-injective (sym given ∙ kept)) ∙ sym same),
        )
