-- ===== src/Service/App/Asked.antt =====
-- What the requests that the service gets ask of the keystore.
use canton_assurance_layer.Prelude.{
  ◌≡◌, refl, sym, ◌∙◌, List, [], ◌∷◌, Option, none, some, Text, length, if◌then◌else◌, All,
  Bool-cases, inl, inr,
}
use canton_assurance_layer.Primitives.{Primitives}
use canton_assurance_layer.Reserve.{Json}
use canton_assurance_layer.Service.Keystore.{Cipher, Files, Request}
use canton_assurance_layer.Service.Keystore.Replay.{IsDrawn, run}
use canton_assurance_layer.Service.Publish.{Printer}
use canton_assurance_layer.Service.Custody.{is_authorized}
use canton_assurance_layer.Service.App.{
  HttpRequest, RouteError, AppState, keyed, org_of, handle, serve,
}

abbrev pub IsRandom : HttpRequest → Type 0
IsRandom q = (length q.seed ≡ 32) × (length q.nonce ≡ 12)

module _ (p : Primitives) (json : Json) (printer : Printer) (cipher : Cipher)
    (message : RouteError → Text) (state : AppState) where
  -- What a request asks of the keystore, if it comes to it.
  asks : HttpRequest → List Request → List Request
  asks q rest = elim (org_of q.call) [
    | none ↦ rest
    | some org_id ↦
        if is_authorized state.token q.authorization then keyed org_id q ∷ rest else rest
  ]

  pub asked : List HttpRequest → List Request
  asked [] = []
  asked (q ∷ qs) = asks q (asked qs)

  run-asks :
      (q : HttpRequest) (rest : List Request) (files : Files) (o : Option Text)
      → org_of q.call ≡ o
      → (run cipher state.kek (asks q rest) files).1
        ≡ (run cipher state.kek rest (handle p json printer cipher message state q files).1).1
  unfolding asks handle run
  run-asks q rest files none e = rw (asks, handle, e) refl
  run-asks q rest files (some org_id) e =
      elim (Bool-cases (is_authorized state.token q.authorization)) [
        | inl a ↦ rw (asks, handle, e, a) refl
        | inr a ↦ rw (asks, handle, e, a) refl
      ]

  pub serve-asked :
      (qs : List HttpRequest) (files : Files)
      → serve p json printer cipher message state qs files
        ≡ (run cipher state.kek (asked qs) files).1
  unfolding serve asked run
  serve-asked [] files = refl
  serve-asked (q ∷ qs) files =
      serve-asked qs (handle p json printer cipher message state q files).1
      ∙ sym (run-asks q (asked qs) files (org_of q.call) refl)

  asks-IsDrawn :
      (q : HttpRequest) (rest : List Request) (o : Option Text)
      → org_of q.call ≡ o
      → IsRandom q
      → All IsDrawn rest
      → All IsDrawn (asks q rest)
  unfolding asks
  asks-IsDrawn q rest none e r h = rw (asks, e) h
  asks-IsDrawn q rest (some org_id) e r h =
      elim (Bool-cases (is_authorized state.token q.authorization)) [
        | inl a ↦ rw (asks, e, a) (r, h)
        | inr a ↦ rw (asks, e, a) h
      ]

  pub asked-IsDrawn : (qs : List HttpRequest) → All IsRandom qs → All IsDrawn (asked qs)
  unfolding asked
  asked-IsDrawn [] r = tt
  asked-IsDrawn (q ∷ qs) (r, rs) =
      asks-IsDrawn q (asked qs) (org_of q.call) refl r (asked-IsDrawn qs rs)
