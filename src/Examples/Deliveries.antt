-- ===== src/Examples/Deliveries.antt =====
-- A pack of two files, and a graph of sources.
use canton_assurance_layer.Prelude.{
  ◌++◌, ◌≡◌, refl, true, not, ◌||◌, [], ◌∷◌, none, some, Text, Bytes, codes, text_eq, any, All,
  BTreeMap, keys, ok, cmp, insert, u64le,
}
use canton_assurance_layer.Prelude.Space.{trim}
use canton_assurance_layer.Examples.Crypto as Crypto
use canton_assurance_layer.Merkle.Encoding as Encoding
use canton_assurance_layer.Prelude.Space as Space
use canton_assurance_layer.Report.Pack as Pack
use canton_assurance_layer.Report.Provenance as Provenance
use canton_assurance_layer.Report.Sign as Sign
use canton_assurance_layer.Report.Sign.{verify_signature}
use canton_assurance_layer.Report.Pack.{PackEntry, SignedPack, pack_digest, build_pack, verify_pack}
use canton_assurance_layer.Report.Pack.Members.{IsPresent, signed_bytes, verify_pack-All}
use canton_assurance_layer.Report.Verify.Failure.{AssuranceLevel, claimed_only, ledger_derived}
use canton_assurance_layer.Report.Provenance.{
  Source, template, off_ledger, Derivation, Provenance, provenance_format_version,
  is_ledger_derived, check_against_assurance,
}
use canton_assurance_layer.Report.Assurance.{derives_from_ledger}
use canton_assurance_layer.Report.Assurance.Grounded.{check_against_assurance-All}
use canton_assurance_layer.Examples.Crypto.{crypto}
use canton_assurance_layer.Examples.Trees.{or_else}
use canton_assurance_layer.Examples.Reports.{key, signer, signed}

abbrev pub files : BTreeMap Bytes
files = (codes "proof.json", codes "{1}") ∷ (codes "report.json", codes "{}") ∷ []

abbrev no_pack : SignedPack
no_pack = record {
  pack = record {
    format_version = [];
    publisher = [];
    snapshot_time = [];
    report_digest = [];
    entries = [];
  };
  signature = signed.signature;
}

abbrev pub pack : SignedPack
pack =
    or_else
      (build_pack crypto (codes "venue") (codes "2026-01-01T00:00:00Z") (codes "aa11") files signer)
      no_pack

pack_verified : verify_pack crypto pack key files ≡ ok tt
unfolding text_eq cmp insert u64le Space.is_blank Space.trim_start Space.trim_end Space.trim
    Encoding.lp Sign.public_key_hex Sign.sign_digest Sign.decode Sign.verify_signature
    Pack.check_name Pack.eq_ignore_ascii_case Pack.entries_bytes Pack.pack_bytes Pack.member_digest
    Pack.pack_digest Pack.index_members Pack.build_pack Pack.check_entry Pack.verify_pack
    Crypto.checksum Crypto.hex_digit Crypto.digit_value Crypto.hex_encode Crypto.hex_decode
pack_verified = refl

verify_pack-All_example :
    (verify_signature crypto
        (trim key)
        (crypto.sha256 (codes "rocky-solvency-pack-v1" ++ signed_bytes pack.pack))
        pack.signature.value
      ≡ ok tt)
    × All (IsPresent crypto files) pack.pack.entries
    × All
        (λ name. any (λ (e : PackEntry). text_eq e.name name) pack.pack.entries ≡ true)
        (keys files)
verify_pack-All_example = verify_pack-All crypto pack key files pack_verified

abbrev graph : Provenance
graph = record {
  format_version = provenance_format_version;
  report_digest = codes "abcd";
  sources =
      (record { id = codes "s1"; kind = template; name = codes "Holding"; basis = none })
      ∷ (record {
        id = codes "s2";
        kind = off_ledger;
        name = codes "bank";
        basis = some (codes "statement");
      })
      ∷ [];
  derivations =
      (record {
        field = codes "root_sums";
        sources = codes "s2" ∷ codes "s1" ∷ [];
        method = codes "sum";
      })
      ∷ [];
}

abbrev levels : BTreeMap AssuranceLevel
levels = (codes "mark_prices", claimed_only) ∷ (codes "root_sums", ledger_derived) ∷ []

levels_checked : check_against_assurance graph levels ≡ ok tt
unfolding text_eq Provenance.on_ledger Provenance.find_derivation Provenance.last_of
    Provenance.check_grounded Provenance.check_level Provenance.check_against_assurance
levels_checked = refl

check_against_assurance-All_example :
    All
      (λ (e : Text × AssuranceLevel).
        (not (is_ledger_derived e.1) || derives_from_ledger graph e.0) ≡ true)
      levels
check_against_assurance-All_example = check_against_assurance-All graph levels levels_checked
