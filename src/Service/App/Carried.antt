-- ===== src/Service/App/Carried.antt =====
-- The key that an answer of the service carries.
use canton_assurance_layer.Prelude.{
  ◌≡◌, refl, sym, ap, ◌∙◌, true, Option, none, some, some_inj, Text, Bytes, Result, ok, err,
  Bool-cases, inl, inr, ok-injective, >>=-eq-ok, >>-eq-ok, map_err, ensure, not, is_empty,
}
use canton_assurance_layer.Primitives.{Primitives}
use canton_assurance_layer.Report.Sign.{ReportSigner, public_key_hex}
use canton_assurance_layer.Reserve.{Json, HoldingFields, parse_holdings, totals}
use canton_assurance_layer.Reserve.Custody.{build_custody_report}
use canton_assurance_layer.Service.Keystore.{Cipher, Files, KeyError, signer_for}
use canton_assurance_layer.Service.Keystore.Replay.{granted}
use canton_assurance_layer.Service.Publish.{
  PublishRequest, PublishResponse, ServiceError, Printer, publication_of, packed_files, pack_of,
  pretty, do_publish,
}
use canton_assurance_layer.Service.Custody.{
  CustodyRequest, CustodyResponse, CustodyRouteError, bad_holdings, empty_snapshot, not_built,
  not_printed, custody_metadata, do_custody, is_authorized,
}
use canton_assurance_layer.Service.App.{
  HttpRequest, Call, health, keys, publish, custody, RouteError, Answer, public_key, published,
  attested, AppState, app_error, keyed, answer, answer_publish, answer_custody, org_of, handle,
}

-- The key that an answer carries.
abbrev pub carried : Answer → Option Text
carried (public_key key) = some key
carried (published response) = some response.public_key
carried (attested response) = some response.public_key
carried _ = none

module _ (p : Primitives) (json : Json) (printer : Printer) (cipher : Cipher)
    (message : RouteError → Text) (state : AppState) where
  do_publish-public_key :
      (master_salt : Bytes) (req : PublishRequest) (signer : ReportSigner)
      (response : PublishResponse)
      → do_publish p printer master_salt req signer ≡ ok response
      → response.public_key ≡ public_key_hex p signer
  unfolding do_publish
  do_publish-public_key master_salt req signer response h =
      let (made, e, h1) = >>=-eq-ok (publication_of p master_salt req signer) _ h in
      let (files, f, h2) = >>=-eq-ok (packed_files p printer req made.1) _ h1 in
      let (pack, g, h3) = >>=-eq-ok (pack_of p made.1 files signer) _ h2 in
      let (text, k, h4) = >>=-eq-ok (pretty (printer.pack pack)) _ h3 in
      ap (λ (r : PublishResponse). r.public_key) (sym (ok-injective h4))

  do_custody-public_key :
      (master_salt : Bytes) (req : CustodyRequest) (signer : ReportSigner)
      (response : CustodyResponse)
      → do_custody p json printer master_salt req signer ≡ ok response
      → response.public_key ≡ public_key_hex p signer
  unfolding do_custody
  do_custody-public_key master_salt req signer response h =
      let fields : HoldingFields = record {
        asset_field = req.asset_field;
        amount_field = req.amount_field;
      } in
      let (positions, e, h1) =
        >>=-eq-ok (map_err bad_holdings (parse_holdings json req.response_json fields)) _ h in
      let (_, h2) = >>-eq-ok (ensure (not (is_empty positions)) empty_snapshot) _ h1 in
      let (sums, f, h3) = >>=-eq-ok (map_err bad_holdings (totals positions)) _ h2 in
      let (signed, g, h4) =
        >>=-eq-ok
          (map_err not_built (
            build_custody_report p positions (custody_metadata req) req.ledger_offset master_salt
              signer))
          _ h3 in
      let (content, k, h5) =
        >>=-eq-ok (map_err not_printed (pretty (printer.report signed))) _ h4 in
      ap (λ (r : CustodyResponse). r.public_key) (sym (ok-injective h5))

  -- A handler's answer that carries a key carries its signer's.
  answer-carried :
      (q : HttpRequest) (call : Call) (org_id key : Text) (signer : Result KeyError ReportSigner)
      → org_of call ≡ some org_id
      → carried (answer p json printer cipher message state q call signer) ≡ some key
      → (s : ReportSigner) × (signer ≡ ok s) × (key ≡ public_key_hex p s)
  unfolding app_error
  answer-carried q health org_id key signer e h = cc
  answer-carried q (keys org) org_id key (err x) e h = cc
  answer-carried q (keys org) org_id key (ok s) e h = (s, refl, sym (some_inj h))
  answer-carried q (publish req) org_id key (err x) e h = cc
  answer-carried q (publish req) org_id key (ok s) e h =
      (s, refl, of_publish (do_publish p printer q.master_salt req s) refl h)
    where
      of_publish :
          (r : Result ServiceError PublishResponse)
          → do_publish p printer q.master_salt req s ≡ r
          → carried (answer_publish p json printer cipher message state r) ≡ some key
          → key ≡ public_key_hex p s
      of_publish (err x) f k = cc
      of_publish (ok response) f k =
          sym (some_inj k) ∙ do_publish-public_key q.master_salt req s response f
  answer-carried q (custody req) org_id key (err x) e h = cc
  answer-carried q (custody req) org_id key (ok s) e h =
      (s, refl, of_custody (do_custody p json printer q.master_salt req s) refl h)
    where
      of_custody :
          (r : Result CustodyRouteError CustodyResponse)
          → do_custody p json printer q.master_salt req s ≡ r
          → carried (answer_custody p json printer cipher message state r) ≡ some key
          → key ≡ public_key_hex p s
      of_custody (err x) f k = cc
      of_custody (ok response) f k =
          sym (some_inj k) ∙ do_custody-public_key q.master_salt req s response f

  -- An answer to a request for an organisation that carries a key does so to an authorised request,
  -- and the key is that of the signer that the keystore gives the organisation.
  pub handle-carried :
      (q : HttpRequest) (files : Files) (org_id key : Text)
      → org_of q.call ≡ some org_id
      → carried (handle p json printer cipher message state q files).0 ≡ some key
      → (signer : ReportSigner) × (is_authorized state.token q.authorization ≡ true)
        × ((signer_for cipher state.kek (keyed org_id q) files).0 ≡ ok signer)
        × (key ≡ public_key_hex p signer)
  unfolding handle
  handle-carried q files org_id key e h =
      elim (Bool-cases (is_authorized state.token q.authorization)) [
        | inl a ↦
            let (signer, given, same) =
              answer-carried q q.call org_id key
                (signer_for cipher state.kek (keyed org_id q) files).0 e (rw (handle, e, a) at h) in
            (signer, a, given, same)
        | inr a ↦ absurd (cc (rw (handle, e, a) at h))
      ]

  pub handle-files :
      (q : HttpRequest) (files : Files) (org_id : Text)
      → org_of q.call ≡ some org_id
      → is_authorized state.token q.authorization ≡ true
      → (handle p json printer cipher message state q files).1
        ≡ (signer_for cipher state.kek (keyed org_id q) files).1
  unfolding handle
  handle-files q files org_id e a = rw (handle, e, a) refl

  pub granted-ok :
      (r : Result KeyError ReportSigner) (seed : Bytes)
      → granted r ≡ some seed
      → r ≡ ok (record { seed = seed })
  granted-ok (ok signer) seed h = ap (λ s. ok (record { seed = s })) (some_inj h)
  granted-ok (err e) seed h = cc

  pub answered :
      (q : HttpRequest) (files : Files) (org_id : Text) (signer : ReportSigner)
      → is_authorized state.token q.authorization ≡ true
      → q.call ≡ keys org_id
      → (signer_for cipher state.kek (keyed org_id q) files).0 ≡ ok signer
      → (handle p json printer cipher message state q files).0
        ≡ public_key (public_key_hex p signer)
  unfolding handle
  answered q files org_id signer a c given =
      rw (handle, c, a, given)
        (ap (λ call. answer p json printer cipher message state q call (ok signer)) c)
