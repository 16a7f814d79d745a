-- ===== src/Service/App.antt =====
-- rust/solvency-service/src/main.rs: the routes over the keystore and the handlers of api.rs. A
-- request comes as its header, its decoded body, the random bytes drawn for it and what the disk does
-- to it. The text of an error is a parameter, as the libraries compose it.
pub mod Asked
pub mod Carried
pub mod Keys
pub mod Delivered
use canton_assurance_layer.Prelude.{
  ℕ, Bool, true, false, ◌||◌, List, [], ◌∷◌, Option, none, some, Text, Bytes, codes, length, ltb,
  not, strip_prefix, if◌then◌else◌, Result, ok, err, ok_or, map_err, ensure, ◌>>=◌, ◌>>◌,
}
use canton_assurance_layer.Primitives.{Primitives}
use canton_assurance_layer.Report.Sign.{ReportSigner, public_key_hex}
use canton_assurance_layer.Reserve.{Json}
use canton_assurance_layer.Service.Keystore.{
  Cipher, Files, KeyError, Request, Write, open_with, signer_for,
}
use canton_assurance_layer.Service.Publish.{
  PublishRequest, PublishResponse, ServiceError, Printer, do_publish,
}
use canton_assurance_layer.Service.Custody.{
  CustodyRequest, CustodyResponse, CustodyRouteError, do_custody, is_authorized,
}

-- The routes, with the decoded bodies.
pub data Call : Type 0 where
  health : Call
  keys : Text → Call
  publish : PublishRequest → Call
  custody : CustodyRequest → Call

pub record HttpRequest : Type 0 where
  pub authorization : Option Text
  pub call : Call
  -- what `rand::fill` returns for a new seed, its nonce and a master salt
  pub seed : Bytes
  pub nonce : Bytes
  pub master_salt : Bytes
  -- what the disk does, should the keystore come to write
  pub write : Write
  pub renames : Bool

pub data RouteError : Type 0 where
  bad_key : KeyError → RouteError
  bad_publish : ServiceError → RouteError
  bad_custody : CustodyRouteError → RouteError

pub data Answer : Type 0 where
  healthy : Answer
  public_key : Text → Answer
  published : PublishResponse → Answer
  attested : CustodyResponse → Answer
  failed : ℕ → Text → Answer

abbrev pub starts : Text → Text → Bool
starts needle s = elim (strip_prefix needle s) [ none ↦ false | some rest ↦ true ]

-- `str::contains`
unfoldable pub contains : Text → Text → Bool
contains needle [] = starts needle []
contains needle (c ∷ s) = starts needle (c ∷ s) || contains needle s

-- `AppError::from`: the status by the words of the message.
unfoldable pub app_error : Text → Answer
app_error text =
    failed
      (if contains (codes "SERVICE_KEK") text || contains (codes "keystore") text then 500 else 400)
      text

abbrev pub unauthorized : Answer
unauthorized = failed 401 (codes "missing or wrong bearer token")

pub data StartError : Type 0 where
  token_missing token_short kek_missing : StartError
  not_opened : KeyError → StartError

pub record AppState : Type 0 where
  pub kek : Bytes
  pub token : Text

-- `main`, as far as its state goes: from the environment, and what the keystore's directory does.
unfoldable pub start :
    Primitives → Option Text → Option Text → Bool → Bool → Result StartError AppState
start p token kek created writable = do
  secret ← ok_or token token_missing
  ensure (not (ltb (length secret) 32)) token_short
  raw ← ok_or kek kek_missing
  key ← map_err not_opened (open_with p created writable raw)
  ok (record { kek = key; token = secret })

abbrev pub keyed : Text → HttpRequest → Request
keyed org_id q = record {
  org_id = org_id;
  seed = q.seed;
  nonce = q.nonce;
  write = q.write;
  renames = q.renames;
}

-- The organisation whose key a call needs.
abbrev pub org_of : Call → Option Text
org_of health = none
org_of (keys org_id) = some org_id
org_of (publish req) = some req.org_id
org_of (custody req) = some req.org_id

module _ (p : Primitives) (json : Json) (printer : Printer) (cipher : Cipher)
    (message : RouteError → Text) (state : AppState) where
  abbrev pub answer_keys : Result KeyError ReportSigner → Answer
  answer_keys (err e) = app_error (message (bad_key e))
  answer_keys (ok signer) = public_key (public_key_hex p signer)

  abbrev pub answer_publish : Result ServiceError PublishResponse → Answer
  answer_publish (err e) = app_error (message (bad_publish e))
  answer_publish (ok response) = published response

  abbrev pub answer_custody : Result CustodyRouteError CustodyResponse → Answer
  answer_custody (err e) = app_error (message (bad_custody e))
  answer_custody (ok response) = attested response

  -- The handlers, with the signer that the keystore gave them.
  abbrev pub answer : HttpRequest → Call → Result KeyError ReportSigner → Answer
  answer q health signer = healthy
  answer q (keys org_id) signer = answer_keys signer
  answer q (publish req) (err e) = app_error (message (bad_key e))
  answer q (publish req) (ok signer) =
      answer_publish (do_publish p printer q.master_salt req signer)
  answer q (custody req) (err e) = app_error (message (bad_key e))
  answer q (custody req) (ok signer) =
      answer_custody (do_custody p json printer q.master_salt req signer)

  -- One request on the keystore's files: `app`, its routes behind `require_token` but for `health`.
  unfoldable pub handle : HttpRequest → Files → Answer × Files
  handle q files = elim (org_of q.call) [
    | none ↦ (healthy, files)
    | some org_id ↦
        if is_authorized state.token q.authorization
        then (let (signer, next) = signer_for cipher state.kek (keyed org_id q) files in
            (answer q q.call signer, next))
        else (unauthorized, files)
  ]

  -- Requests one after the other: the files that they leave.
  unfoldable pub serve : List HttpRequest → Files → Files
  serve [] files = files
  serve (q ∷ qs) files = serve qs (handle q files).1
