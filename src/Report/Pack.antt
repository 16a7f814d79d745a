-- ===== src/Report/Pack.antt =====
-- rust/solvency-report/src/pack.rs: a signed index of the files of one delivery.
pub mod Members
pub mod Built
use canton_assurance_layer.Prelude.{
  ℕ, ◌+◌, Bool, true, false, not, ◌&&◌, ◌||◌, List, [], ◌∷◌, ◌++◌, Option, none, some, Text, Bytes,
  codes, text_eq, ◌==◌, leb, any, map, length, is_empty, u64le, BTreeMap, get, contains_key, insert,
  keys, if◌then◌else◌, Result, ok, err, ok_or, ensure, for_each, map_err, ◌>>=◌, ◌>>◌,
}
use canton_assurance_layer.Prelude.Space.{trim}
use canton_assurance_layer.Primitives.{Primitives}
use canton_assurance_layer.Merkle.Encoding.{lp}
use canton_assurance_layer.Report.Document.{SignatureBlock}
use canton_assurance_layer.Report.Sign.{ReportSigner, public_key_hex, sign_digest, verify_signature}

abbrev pub pack_format_version : Text
pack_format_version = codes "canton-solvency-pack-v1"

abbrev pub pack_digest_domain : Bytes
pack_digest_domain = codes "rocky-solvency-pack-v1"

pub record PackEntry : Type 0 where
  pub name : Text
  pub sha256 : Text

pub record Pack : Type 0 where
  pub format_version : Text
  pub publisher : Text
  pub snapshot_time : Text
  pub report_digest : Text
  pub entries : List PackEntry

pub record SignedPack : Type 0 where
  pub pack : Pack
  pub signature : SignatureBlock

pub data PackFailure : Type 0 where
  unsupported_version duplicate_entry unsafe_name missing altered unlisted : Text → PackFailure
  report_mismatch unknown_signer bad_signature : PackFailure

-- `str::contains` of one ASCII character
abbrev pub has_char : ℕ → Text → Bool
has_char c s = any (λ d. d == c) s

unfoldable pub check_name : Text → Result PackFailure (Unit {0})
check_name name =
    ensure
      (not (
        is_empty name
        || (has_char b'/' name
            || (has_char 92 name || (text_eq name (codes ".") || text_eq name (codes ".."))))))
      (unsafe_name name)

-- `u8::to_ascii_lowercase`, and `str::eq_ignore_ascii_case` by it.
abbrev pub lower : ℕ → ℕ
lower c = if leb 65 c && leb c 90 then c + 32 else c

unfoldable pub eq_ignore_ascii_case : Text → Text → Bool
eq_ignore_ascii_case s t = text_eq (map lower s) (map lower t)

unfoldable pub entries_bytes : List PackEntry → Bytes
entries_bytes [] = []
entries_bytes (e ∷ l) = lp e.name ++ (lp e.sha256 ++ entries_bytes l)

unfoldable pub pack_bytes : Pack → Bytes
pack_bytes pack =
    lp pack.format_version
    ++ (lp pack.publisher
        ++ (lp pack.snapshot_time
            ++ (lp pack.report_digest
                ++ (u64le (length pack.entries) ++ entries_bytes pack.entries))))

abbrev pub entry_of : Text × Text → PackEntry
entry_of (name, sha256) = record { name = name; sha256 = sha256 }

-- The loop over the delivered names.
abbrev pub check_listed : List PackEntry → Text → Result PackFailure (Unit {0})
check_listed entries name =
    ensure (any (λ (e : PackEntry). text_eq e.name name) entries) (unlisted name)

module _ (p : Primitives) where
  unfoldable pub member_digest : Bytes → Text
  member_digest bytes = p.hex_encode (p.sha256 bytes)

  unfoldable pub pack_digest : Pack → Bytes
  pack_digest pack = p.sha256 (pack_digest_domain ++ pack_bytes pack)

  -- The loop of `build_pack`.
  unfoldable pub index_members :
      List (Text × Bytes) → BTreeMap Text → Result PackFailure (BTreeMap Text)
  index_members [] entries = ok entries
  index_members ((name, bytes) ∷ members) entries = do
    check_name name
    ensure (not (contains_key name entries)) (duplicate_entry name)
    index_members members (insert name (member_digest bytes) entries)

  unfoldable pub build_pack :
      Text → Text → Text → List (Text × Bytes) → ReportSigner → Result PackFailure SignedPack
  build_pack publisher snapshot_time report_digest members signer = do
    entries ← index_members members []
    let pack : Pack = record {
      format_version = pack_format_version;
      publisher = publisher;
      snapshot_time = snapshot_time;
      report_digest = report_digest;
      entries = map entry_of entries;
    }
    ok (record {
      pack = pack;
      signature = record {
        algorithm = codes "ed25519";
        public_key = public_key_hex p signer;
        value = sign_digest p signer (pack_digest pack);
      };
    })

  -- The body of the loop over the index.
  unfoldable pub check_entry : BTreeMap Bytes → PackEntry → Result PackFailure (Unit {0})
  check_entry members entry = do
    check_name entry.name
    bytes ← ok_or (get entry.name members) (missing entry.name)
    ensure (eq_ignore_ascii_case (member_digest bytes) entry.sha256) (altered entry.name)

  unfoldable pub verify_pack : SignedPack → Text → BTreeMap Bytes → Result PackFailure (Unit {0})
  verify_pack signed trusted_key members = do
    ensure (text_eq signed.pack.format_version pack_format_version)
        (unsupported_version signed.pack.format_version)
    ensure (eq_ignore_ascii_case signed.signature.public_key (trim trusted_key)) unknown_signer
    map_err (λ e. bad_signature)
        (verify_signature p (trim trusted_key) (pack_digest signed.pack) signed.signature.value)
    for_each (check_entry members) signed.pack.entries
    for_each (check_listed signed.pack.entries) (keys members)
