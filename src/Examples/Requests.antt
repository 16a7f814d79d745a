-- ===== src/Examples/Requests.antt =====
-- A publish request of two customers, one of them in debt, and the files it is answered with.
use canton_assurance_layer.Prelude.{
  ℕ, ◌+◌, ◌≡◌, refl, List, [], ◌∷◌, ◌++◌, none, some, Text, Bytes, codes, map, replicate, ok,
  amount, strip_prefix, All, BTreeMap, checked_add, checked_mul, cmp, insert, text_eq, u64le,
}
use canton_assurance_layer.Prelude.Space.{trim}
use canton_assurance_layer.Examples.Crypto as Crypto
use canton_assurance_layer.Merkle.Amount as Amount
use canton_assurance_layer.Merkle.Encoding as Encoding
use canton_assurance_layer.Merkle.Leaf as Leaves
use canton_assurance_layer.Merkle.Node as Nodes
use canton_assurance_layer.Merkle.Tree as Trees
use canton_assurance_layer.Prelude.Space as Space
use canton_assurance_layer.Report.Pack as Pack
use canton_assurance_layer.Report.Produce as Produce
use canton_assurance_layer.Report.Sign as Sign
use canton_assurance_layer.Service.Intake as Intake
use canton_assurance_layer.Service.Publish as Route
use canton_assurance_layer.Report.Sign.{public_key_hex}
use canton_assurance_layer.Report.Pack.{SignedPack, verify_pack, build_pack}
use canton_assurance_layer.Report.Pack.Built.{delivered, verify_pack-build_pack}
use canton_assurance_layer.Report.Produce.{Publication}
use canton_assurance_layer.Service.Intake.{Book, LeafIn, parsed_amounts}
use canton_assurance_layer.Service.Intake.Debt.{Fits}
use canton_assurance_layer.Service.Intake.Users.{IsApart, owed_by, credited_to}
use canton_assurance_layer.Service.Publish.{
  PublishRequest, PublishResponse, FileOut, Printer, file, member, publication_of, do_publish,
}
use canton_assurance_layer.Service.Publish.Accounts.{amount-publication_of}
use canton_assurance_layer.Service.Publish.Delivery.{do_publish-verify_pack}
use canton_assurance_layer.Examples.Crypto.{crypto, crypto-IsLawful}
use canton_assurance_layer.Examples.Trees.{or_else}
use canton_assurance_layer.Examples.Reports.{signer, signed}

abbrev leaf : Text → BTreeMap Text → LeafIn
leaf user balances = record { user_id = user; balances = balances }

-- " BTC" is "BTC" once trimmed; bob owes dollars.
abbrev pub request : PublishRequest
request = record {
  org_id = codes "org-1";
  publisher = codes "venue";
  profile = codes "solvency.liabilities";
  snapshot_time = codes "2026-01-01T00:00:00Z";
  ledger_offset = codes "00ff";
  leaves =
      leaf (codes "alice") ((codes " BTC", codes "2") ∷ (codes "USD", codes "70.5") ∷ [])
      ∷ leaf (codes " bob ") ((codes "USD", codes "-3") ∷ [])
      ∷ [];
  mark_prices = [];
  disclosures = record {
    bad_debt = (codes "USD", codes "1") ∷ [];
    excluded_house_accounts = 0;
    excluded_house_totals = [];
  };
  manifest = none;
  previous_anchor = none;
}

abbrev no_book : Book × Publication
no_book =
    (record { debt = []; clamps = 0; users = [] }, record { signed_report = signed; proofs = [] })

abbrev made : Book × Publication
made = or_else (publication_of crypto (replicate 32 9) request signer) no_book

-- A printer that names the kind of document.
abbrev pub printer : Printer
printer = record {
  report = λ r. some (codes "{report}");
  anchor = λ a. some (codes "{anchor}");
  proof = λ q. some (codes "{proof}");
  pack = λ k. some (codes "{pack}");
}

abbrev no_response : PublishResponse
no_response = record {
  public_key = [];
  format_version = [];
  report_digest = [];
  anchor_digest = [];
  root_hash = [];
  leaf_count = 0;
  root_sums = [];
  clamped = 0;
  proofs = [];
  files = [];
}

abbrev pub response : PublishResponse
response = or_else (do_publish crypto printer (replicate 32 9) request signer) no_response

accepted : publication_of crypto (replicate 32 9) request signer ≡ ok (made.0, made.1)
unfolding text_eq cmp insert checked_add checked_mul Space.is_blank Space.trim_start Space.trim_end
    Space.trim Amount.split_once Amount.decimal_value Amount.parse_u128 Amount.join_parts
    Amount.fraction_units Amount.parse_parts Amount.parse_amount_18dp Encoding.sort_into
    Encoding.sort_by_key Encoding.check_windows Encoding.canonical_balances Nodes.add_sums
    Nodes.combine Leaves.insert_balances Leaves.leaf_hash Leaves.leaf_node Trees.head? Trees.root
    Trees.leaf_count Trees.prove Trees.next_level Trees.grow Trees.build Produce.input_node
    Produce.proof_document Produce.publish Intake.parsed_amounts Intake.owe Intake.hold
    Intake.enter_signed Intake.enter_balance Intake.enter_balances Intake.enter_leaf
    Intake.enter_leaves Route.book_of Route.metadata_of Route.publication_of strip_prefix
accepted = refl

pub answered : do_publish crypto printer (replicate 32 9) request signer ≡ ok response
unfolding text_eq cmp insert checked_add checked_mul u64le Space.is_blank Space.trim_start
    Space.trim_end Space.trim Amount.split_once Amount.decimal_value Amount.parse_u128
    Amount.join_parts Amount.fraction_units Amount.parse_parts Amount.parse_amount_18dp
    Encoding.sort_into Encoding.sort_by_key Encoding.check_windows Encoding.canonical_balances
    Nodes.add_sums Nodes.combine Leaves.insert_balances Leaves.leaf_hash Leaves.leaf_node
    Trees.head? Trees.root Trees.leaf_count Trees.prove Trees.next_level Trees.grow Trees.build
    Produce.input_node Produce.proof_document Produce.publish Pack.check_name Pack.index_members
    Pack.build_pack Intake.parsed_amounts Intake.owe Intake.hold Intake.enter_signed
    Intake.enter_balance Intake.enter_balances Intake.enter_leaf Intake.enter_leaves Route.pretty
    Route.book_of Route.metadata_of Route.proof_file_name Route.publication_of Route.pack_of
    Route.proof_file Route.packed_files Route.do_publish Crypto.checksum Crypto.hex_digit
    Crypto.hex_encode strip_prefix
answered = refl

pub key_trimmed : trim (public_key_hex crypto signer) ≡ public_key_hex crypto signer
unfolding u64le Space.is_blank Space.trim_start Space.trim_end Space.trim Sign.public_key_hex
    Crypto.checksum Crypto.hex_digit Crypto.hex_encode
key_trimmed = refl

names-IsApart : All (λ (l : LeafIn). IsApart l.balances) request.leaves
unfolding text_eq cmp Space.is_blank Space.trim_start Space.trim_end Space.trim
names-IsApart = (((refl, tt), (tt, tt)), ((tt, tt), tt))

amount-publication_of_example :
    (debt : BTreeMap ℕ) × (parsed_amounts request.disclosures.bad_debt ≡ ok debt)
    × ((k : Text)
        → (amount k made.1.signed_report.report.root_sums ≡ credited_to k request.leaves)
          × (amount k made.1.signed_report.report.disclosures.bad_debt
              ≡ amount k debt + owed_by k request.leaves))
    × (Fits debt → Fits made.1.signed_report.report.disclosures.bad_debt)
amount-publication_of_example =
    amount-publication_of crypto (replicate 32 9) request signer made.0 made.1 names-IsApart
      accepted

delivery_verified :
    (files : List FileOut) × (pack : SignedPack) × (text : Text) × (printer.pack pack ≡ some text)
    × (response.files ≡ files ++ file (codes "pack.json") (text ++ 10 ∷ []) ∷ [])
    × (verify_pack crypto pack response.public_key (delivered (map member files) []) ≡ ok tt)
delivery_verified =
    do_publish-verify_pack crypto printer crypto-IsLawful (replicate 32 9) request signer response
      key_trimmed answered

abbrev members : List (Text × Bytes)
members = (codes "report.json", codes "{}") ∷ (codes "anchor.json", codes "{1}") ∷ []

abbrev packed : SignedPack
packed =
    or_else (build_pack crypto (codes "venue") (codes "2026") (codes "aa11") members signer)
      (record {
        pack = record {
          format_version = [];
          publisher = [];
          snapshot_time = [];
          report_digest = [];
          entries = [];
        };
        signature = signed.signature;
      })

packed_built :
    build_pack crypto (codes "venue") (codes "2026") (codes "aa11") members signer ≡ ok packed
unfolding text_eq insert Pack.check_name Pack.index_members Pack.build_pack
packed_built = refl

verify_pack-build_pack_example :
    verify_pack crypto packed (public_key_hex crypto signer) (delivered members []) ≡ ok tt
verify_pack-build_pack_example =
    verify_pack-build_pack crypto crypto-IsLawful (codes "venue") (codes "2026") (codes "aa11")
      members signer key_trimmed packed_built
