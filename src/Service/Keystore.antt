-- ===== src/Service/Keystore.antt =====
-- rust/solvency-service/src/keystore.rs: per-organisation seeds, sealed in one file each. The
-- directory is a map from file names to contents; what the disk does to a write and to a rename, and
-- the random bytes, come with each request. The cipher is a third-party crate: a parameter.
pub mod Store
pub mod Replay
pub mod Stable
pub mod Race
use canton_assurance_layer.Prelude.{
  ℕ, ◌+◌, ◌≡◌, Bool, true, false, not, ◌&&◌, ◌||◌, List, [], ◌∷◌, ◌++◌, Option, none, some, Text,
  Bytes, codes, text_eq, ◌==◌, ltb, leb, all, any, length, take, drop, is_empty, BTreeMap, get,
  contains_key, insert, if◌then◌else◌, Result, ok, err, ok_or, ensure, ◌>>=◌, ◌>>◌,
}
use canton_assurance_layer.Prelude.Space.{trim}
use canton_assurance_layer.Primitives.{Primitives}
use canton_assurance_layer.Report.Sign.{ReportSigner}

-- `ChaCha20Poly1305`: key, nonce, message and associated data. `none` is its error.
pub record Cipher : Type 0 where
  pub encrypt : Bytes → Bytes → Bytes → Bytes → Option Bytes
  pub decrypt : Bytes → Bytes → Bytes → Bytes → Option Bytes

-- What the crate documents: a message as short as a seed is encrypted, sixteen bytes longer, and
-- the same key, nonce and associated data decrypt it.
pub record IsAead (c : Cipher) : Type 0 where
  pub encrypts :
      (kek nonce seed aad : Bytes)
      → length seed ≡ 32
      → (sealed : Bytes) × (c.encrypt kek nonce seed aad ≡ some sealed) × (length sealed ≡ 48)
  pub decrypts :
      (kek nonce seed aad sealed : Bytes)
      → c.encrypt kek nonce seed aad ≡ some sealed
      → c.decrypt kek nonce sealed aad ≡ some seed

pub data KeyError : Type 0 where
  kek_not_hex kek_length directory_failed not_writable unsafe_id : KeyError
  sealing_failed write_failed rename_failed too_short not_unsealed wrong_length : KeyError

-- The files of the keystore's directory.
abbrev pub Files : Type 0
Files = BTreeMap Bytes

unfoldable pub remove : Text → Files → Files
remove k [] = []
remove k ((j, v) ∷ m) = let rest = remove k m in if text_eq j k then rest else (j, v) ∷ rest

-- `std::fs::write` goes through, or stops with what it wrote so far, or before the file is made. A
-- crash of the process leaves the disk as one of the last two.
pub data Write : Type 0 where
  complete refused : Write
  cut : Bytes → Write

pub record Request : Type 0 where
  pub org_id : Text
  -- what `rand::fill` returns
  pub seed : Bytes
  pub nonce : Bytes
  -- what the disk does, should the request come to it
  pub write : Write
  pub renames : Bool

abbrev pub nonce_len : ℕ
nonce_len = 12

-- `char::is_ascii_alphanumeric`, or one of the two signs.
abbrev pub is_id_char : ℕ → Bool
is_id_char c =
    (leb b'0' c && leb c b'9')
    || ((leb b'A' c && leb c b'Z') || ((leb b'a' c && leb c b'z') || ((c == b'-') || (c == b'_'))))

unfoldable pub path_for : Text → Result KeyError Text
path_for org_id = do
  ensure (not (is_empty org_id) && all is_id_char org_id) unsafe_id
  ok (org_id ++ codes ".key")

-- `Path::with_extension`, on a name that does not begin with a point: what follows the last point
-- is replaced.
unfoldable pub file_stem : Text → Text
file_stem [] = []
file_stem (c ∷ s) =
    let rest = file_stem s in if (c == b'.') && not (any (λ d. d == b'.') s) then [] else c ∷ rest

unfoldable pub with_extension : Text → Text → Text
with_extension name extension = file_stem name ++ b'.' ∷ extension

unfoldable pub open_with : Primitives → Bool → Bool → Text → Result KeyError Bytes
open_with p created writable kek_hex = do
  raw ← ok_or (p.hex_decode (trim kek_hex)) kek_not_hex
  ensure (length raw == 32) kek_length
  ensure created directory_failed
  ensure writable not_writable
  ok raw

module _ (c : Cipher) (kek : Bytes) where
  unfoldable pub sealed_bytes : Text → Bytes → Bytes → Result KeyError Bytes
  sealed_bytes org_id nonce seed = do
    sealed ← ok_or (c.encrypt kek nonce seed org_id) sealing_failed
    ok (nonce ++ sealed)

  -- The two system calls of `seal`: the write to the temporary name, and the rename.
  unfoldable pub store : Text → Bytes → Write → Bool → Files → Result KeyError (Unit {0}) × Files
  store path out refused renames files = (err write_failed, files)
  store path out (cut part) renames files =
      (err write_failed, insert (with_extension path (codes "key.tmp")) part files)
  store path out complete false files =
      (err rename_failed, insert (with_extension path (codes "key.tmp")) out files)
  store path out complete true files =
      (ok tt, insert path out (remove (with_extension path (codes "key.tmp")) files))

  unfoldable pub seal : Text → Request → Files → Result KeyError (Unit {0}) × Files
  seal path q files = elim (sealed_bytes q.org_id q.nonce q.seed) [
    | err e ↦ (err e, files)
    | ok out ↦ store path out q.write q.renames files
  ]

  unfoldable pub unseal_bytes : Bytes → Text → Result KeyError Bytes
  unseal_bytes bytes org_id = do
    ensure (not (ltb (length bytes) (nonce_len + 16))) too_short
    seed ← ok_or (c.decrypt kek (take nonce_len bytes) (drop nonce_len bytes) org_id) not_unsealed
    ensure (length seed == 32) wrong_length
    ok seed

  -- The branch of `signer_for` that finds no file.
  unfoldable pub create : Text → Request → Files → Result KeyError ReportSigner × Files
  create path q files =
      let (done, after) = seal path q files in (done >> ok (record { seed = q.seed }), after)

  -- The branch that finds one.
  unfoldable pub reopen : Bytes → Text → Result KeyError ReportSigner
  reopen bytes org_id = do seed ← unseal_bytes bytes org_id; ok (record { seed = seed })

  unfoldable pub signer_for : Request → Files → Result KeyError ReportSigner × Files
  signer_for q files = elim (path_for q.org_id) [
    | err e ↦ (err e, files)
    | ok path ↦ elim (get path files) [
      | some bytes ↦ (reopen bytes q.org_id, files)
      | none ↦ create path q files
    ]
  ]
