-- ===== src/Examples/Services.antt =====
-- The service over some requests of two organisations, one of them without the token.
use canton_assurance_layer.Prelude.{
  ◌≡◌, refl, ap, true, false, List, [], ◌∷◌, ◌++◌, Option, none, some, Text, Bytes, codes, map,
  replicate, ok, text_eq, cmp, insert, strip_prefix, le_bytes,
}
use canton_assurance_layer.Report.Pack.{SignedPack, verify_pack}
use canton_assurance_layer.Report.Pack.Built.{delivered}
use canton_assurance_layer.Report.Sign.{public_key_hex}
use canton_assurance_layer.Reserve.{Json}
use canton_assurance_layer.Service.Custody.{is_authorized}
use canton_assurance_layer.Service.Keystore.{Write, complete, refused, cut}
use canton_assurance_layer.Service.Keystore as Keystore
use canton_assurance_layer.Service.Publish.{FileOut, file, member}
use canton_assurance_layer.Service.App.{
  HttpRequest, Call, keys, publish, RouteError, Answer, public_key, published, AppState,
  answer_publish, handle, serve,
}
use canton_assurance_layer.Service.App as App
use canton_assurance_layer.Service.App.Carried.{carried}
use canton_assurance_layer.Service.App.Keys.{serve-carried}
use canton_assurance_layer.Service.App.Delivered.{serve-verify_pack}
use canton_assurance_layer.Examples.Crypto.{crypto, crypto-IsLawful}
use canton_assurance_layer.Examples.Crypto as Crypto
use canton_assurance_layer.Examples.Keys.{cipher, cipher-IsAead, kek}
use canton_assurance_layer.Examples.Keys as Ciphers
use canton_assurance_layer.Examples.Reports.{signer}
use canton_assurance_layer.Examples.Requests.{request, response, printer, answered, key_trimmed}

-- A reader of no values: nothing here reads JSON.
abbrev json : Json
json = record {
  Value = Text;
  from_str = λ body. none;
  to_string = λ v. v;
  get = λ name v. none;
  pointer = λ path v. none;
  as_str = λ v. none;
  as_array = λ v. none;
  is_null = λ v. false;
  text = λ s. s;
  flag = λ b. [];
  array = λ l. [];
  object = λ l. [];
}

abbrev token : Text
token = codes "0123456789abcdef0123456789abcdef"

abbrev state : AppState
state = record { kek = kek; token = token }

abbrev message : RouteError → Text
message e = codes "unsealing: wrong SERVICE_KEK"

abbrev sent : Option Text → Call → Bytes → Write → HttpRequest
sent header call seed w = record {
  authorization = header;
  call = call;
  seed = seed;
  nonce = replicate 12 1;
  master_salt = replicate 32 9;
  write = w;
  renames = true;
}

abbrev bearer : Option Text
bearer = some (codes "Bearer " ++ token)

abbrev earlier : List HttpRequest
earlier =
    sent none (keys (codes "org-1")) (replicate 32 2) complete
    ∷ sent bearer (keys (codes "org-1")) (replicate 32 3) (cut (5 ∷ []))
    ∷ []

abbrev first : HttpRequest
first = sent bearer (keys (codes "org-1")) signer.seed complete

abbrev later : List HttpRequest
later = sent bearer (keys (codes "org_2")) (replicate 32 5) complete ∷ []

abbrev again : HttpRequest
again = sent bearer (publish request) (replicate 32 6) refused

told :
    carried
      (handle crypto json printer cipher message state first
        (serve crypto json printer cipher message state earlier [])).0
    ≡ some (public_key_hex crypto signer)
unfolding handle serve is_authorized strip_prefix text_eq cmp insert le_bytes Keystore.signer_for
    Keystore.path_for Keystore.create Keystore.reopen Keystore.seal Keystore.sealed_bytes
    Keystore.store Keystore.remove Keystore.with_extension Keystore.file_stem Keystore.unseal_bytes
    Ciphers.tag Ciphers.encrypt Ciphers.decrypt App.app_error App.contains
told = refl

served :
    (handle crypto json printer cipher message state again (
      serve crypto json printer cipher message state later
        (handle crypto json printer cipher message state first
          (serve crypto json printer cipher message state earlier [])).1)).0
    ≡ published response
unfolding handle serve is_authorized strip_prefix text_eq cmp insert le_bytes Keystore.signer_for
    Keystore.path_for Keystore.create Keystore.reopen Keystore.seal Keystore.sealed_bytes
    Keystore.store Keystore.remove Keystore.with_extension Keystore.file_stem Keystore.unseal_bytes
    Ciphers.tag Ciphers.encrypt Ciphers.decrypt App.app_error App.contains Crypto.checksum
served = ap (answer_publish crypto json printer cipher message state) answered

serve-verify_pack_example :
    (files : List FileOut) × (pack : SignedPack) × (text : Text) × (printer.pack pack ≡ some text)
    × (response.files ≡ files ++ file (codes "pack.json") (text ++ 10 ∷ []) ∷ [])
    × (verify_pack crypto pack (public_key_hex crypto signer) (delivered (map member files) [])
        ≡ ok tt)
serve-verify_pack_example =
    serve-verify_pack crypto json printer cipher message state cipher-IsAead crypto-IsLawful earlier
      later first again (codes "org-1") (public_key_hex crypto signer) response
      ((refl, refl), ((refl, refl), tt)) ((refl, refl), tt) (refl, refl) (refl, refl) refl refl
      key_trimmed told served

serve-carried_example :
    let last = handle crypto json printer cipher message state again (
      serve crypto json printer cipher message state later
        (handle crypto json printer cipher message state first
          (serve crypto json printer cipher message state earlier [])).1) in
    (is_authorized state.token again.authorization ≡ true
      → again.call ≡ keys (codes "org-1")
      → last.0 ≡ public_key (public_key_hex crypto signer))
    × ((other : Text) → carried last.0 ≡ some other → other ≡ public_key_hex crypto signer)
serve-carried_example =
    serve-carried crypto json printer cipher message state cipher-IsAead earlier later first again
      (codes "org-1") (public_key_hex crypto signer) ((refl, refl), ((refl, refl), tt))
      ((refl, refl), tt) (refl, refl) (refl, refl) refl refl told
