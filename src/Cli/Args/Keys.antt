-- ===== src/Cli/Args/Keys.antt =====
-- The keys of a command that `parse` returns: none of them can turn out malformed in a run.
use canton_assurance_layer.Prelude.{
  ◌==◌, ℕ, ◌≤◌, ◌⊎◌, arith, length, all, &&_iff, Bool-cases, text_eq_iff, ◌≡◌, subst, Bool, true,
  false, ◌||◌, List, [], ◌∷◌, Option, none, some, Text, codes, text_eq, cmp, All, BTreeMap, insert,
  ok, err, ok_or, ensure, ensure-eq-ok, ◌>>=◌, >>=-eq-ok, >>-eq-ok, ok-injective, Result,
  Ordering-cases, inl, inr, get, if◌then◌else◌,
}
use canton_assurance_layer.Merkle.Amount.{split_once}
use canton_assurance_layer.Reserve.{is_hex_digit}
use canton_assurance_layer.Cli.Args.{
  Command, verify, verify_group, verify_chain, recompute, verify_pack, anchors, coverage, assurance,
  provenance, manifest_diff, digest, help, version, UsageError, unknown_command, required,
  bad_attestor, bad_role, bad_key, Flags, is_key, validate_key, add_attestors, parse_attestors,
  split_on, required_path, path, key, source, key_or, skew_of, coverage_command, assurance_command,
  provenance_command, verify_command, verify_group_command, verify_chain_command,
  verify_pack_command, command_of, read_flags, finish, parse,
}

-- A digit, or a letter of either case up to f.
abbrev pub IsHexDigit : ℕ → Type 0
IsHexDigit c = ((48 ≤ c) × (c ≤ 57)) ⊎ (((97 ≤ c) × (c ≤ 102)) ⊎ ((65 ≤ c) × (c ≤ 70)))

-- 64 hexadecimal digits, as 32 bytes are written.
abbrev pub IsKey : Text → Type 0
IsKey k = (length k ≡ 64) × All IsHexDigit k

-- An attestor's key, and a role that it can be trusted for.
abbrev pub IsAttestor : Text × Text → Type 0
IsAttestor (hex, role) = IsKey hex × ((role ≡ codes "issuer") ⊎ (role ≡ codes "third-party"))

-- Every key of a command is 32 bytes of hexadecimal, and every attestor has a known role.
abbrev pub HasKeys : Command → Type 0
HasKeys (verify report proofs k json) = IsKey k
HasKeys (verify_group report memberships k json) = IsKey k
HasKeys (verify_chain group_report membership report proof k group json) = (IsKey k) × (IsKey group)
HasKeys (verify_pack dir k json) = IsKey k
HasKeys (coverage custody liabilities statement k custody_key skew json) =
    (IsKey k) × (IsKey custody_key)
HasKeys (assurance report statement proof anchor attestations graph attestors k json) =
    (IsKey k) × All IsAttestor attestors
HasKeys (provenance report graph statement k json) = IsKey k
HasKeys (recompute leaves report json) = Unit
HasKeys (anchors chain json) = Unit
HasKeys (manifest_diff previous current json) = Unit
HasKeys (digest report) = Unit
HasKeys help = Unit
HasKeys version = Unit

abbrev Sound : Result UsageError Command → Type 0
Sound r = (c : Command) → r ≡ ok c → HasKeys c

hex_digit : (c : ℕ) → is_hex_digit c ≡ true → IsHexDigit c
hex_digit c h = ground arith

all_hex : (k : Text) → all is_hex_digit k ≡ true → All IsHexDigit k
all_hex [] h = tt
all_hex (c ∷ k) h =
    let (first, rest) = (&&_iff (is_hex_digit c) (all is_hex_digit k)).0 h in
    (hex_digit c first, all_hex k rest)

validate_key-IsKey : (k : Text) → validate_key k ≡ ok tt → IsKey k
unfolding validate_key is_key
validate_key-IsKey k h =
    let (size, digits) =
      (&&_iff (length k == 64) (all is_hex_digit k)).0 (ensure-eq-ok (is_key k) (bad_key k) h) in
    (ground (arith, size), all_hex k digits)

IsAttestor-insert :
    (hex role : Text) (out : BTreeMap Text)
    → IsAttestor (hex, role)
    → All IsAttestor out
    → All IsAttestor (insert hex role out)
unfolding insert
IsAttestor-insert hex role [] a h = (a, tt)
IsAttestor-insert hex role ((k, v) ∷ out) a (h, hs) = elim (Ordering-cases (cmp hex k)) [
  | inl e ↦ rw (insert, e) (a, (h, hs))
  | inr (inl e) ↦ rw (insert, e) (a, hs)
  | inr (inr e) ↦ rw (insert, e) (h, IsAttestor-insert hex role out a hs)
]

known_role :
    (role : Text)
    → (text_eq role (codes "issuer") || text_eq role (codes "third-party")) ≡ true
    → (role ≡ codes "issuer") ⊎ (role ≡ codes "third-party")
known_role role h = elim (Bool-cases (text_eq role (codes "issuer"))) [
  | inl e ↦ inl ((text_eq_iff role (codes "issuer")).0 e)
  | inr e ↦ inr ((text_eq_iff role (codes "third-party")).0 (rw e at h))
]

add_attestors-IsAttestor :
    (entries : List Text) (out : BTreeMap Text) {result : BTreeMap Text}
    → All IsAttestor out
    → add_attestors entries out ≡ ok result
    → All IsAttestor result
unfolding add_attestors
add_attestors-IsAttestor [] out {result} a h = subst (All IsAttestor) (ok-injective h) a
add_attestors-IsAttestor (entry ∷ entries) out {result} a h =
    let ((hex, role), e, h1) = >>=-eq-ok (ok_or (split_once b':' entry) (bad_attestor entry)) _ h in
    let (valid, h2) = >>-eq-ok (validate_key hex) _ h1 in
    let (known, h3) =
      >>-eq-ok
        (ensure (text_eq role (codes "issuer") || text_eq role (codes "third-party"))
          (bad_role role))
        _ h2 in
    add_attestors-IsAttestor entries (insert hex role out) {result = result}
      (IsAttestor-insert hex role out
        (validate_key-IsKey hex valid, known_role role (ensure-eq-ok _ (bad_role role) known)) a)
      h3

parse_attestors-IsAttestor :
    (raw : Option Text) {result : BTreeMap Text}
    → parse_attestors raw ≡ ok result
    → All IsAttestor result
unfolding parse_attestors
parse_attestors-IsAttestor none {result} h = subst (All IsAttestor) (ok-injective h) tt
parse_attestors-IsAttestor (some raw) {result} h =
    add_attestors-IsAttestor (split_on b',' raw) [] {result = result} tt h

Sound-if :
    (b : Bool) (x y : Result UsageError Command) → Sound x → Sound y → Sound (if b then x else y)
Sound-if true x y sx sy = sx
Sound-if false x y sx sy = sy

module _ (flags : Flags) where
  key-IsKey : {k : Text} → key flags ≡ ok k → IsKey k
  unfolding key
  key-IsKey {k} h =
      let (raw, e, h1) =
        >>=-eq-ok (ok_or (get (codes "--key") flags.values) (required (codes "--key"))) _ h in
      let (valid, h2) = >>-eq-ok (validate_key raw) _ h1 in
      subst (λ t. IsKey t) (ok-injective h2) (validate_key-IsKey raw valid)

  key_or-IsKey :
      (other : Option Text) (k : Text) {result : Text}
      → IsKey k
      → key_or flags other k ≡ ok result
      → IsKey result
  key_or-IsKey none k {result} v h = subst (λ t. IsKey t) (ok-injective h) v
  key_or-IsKey (some raw) k {result} v h =
      let (valid, h1) = >>-eq-ok (validate_key raw) _ h in
      subst (λ t. IsKey t) (ok-injective h1) (validate_key-IsKey raw valid)

  coverage_command-HasKeys : Sound (coverage_command flags)
  unfolding coverage_command
  coverage_command-HasKeys c h =
      let (k, e, h1) = >>=-eq-ok (key flags) _ h in
      let (custody_key, f, h2) =
        >>=-eq-ok (key_or flags (path flags (codes "--custody-key")) k) _ h1 in
      let (custody, a, h3) = >>=-eq-ok (required_path flags (codes "--custody")) _ h2 in
      let (liabilities, b, h4) = >>=-eq-ok (required_path flags (codes "--liabilities")) _ h3 in
      let (statement, d, h5) = >>=-eq-ok (required_path flags (codes "--statement")) _ h4 in
      let (skew, g, h6) = >>=-eq-ok (skew_of flags (path flags (codes "--max-skew"))) _ h5 in
      subst HasKeys (ok-injective h6)
        (key-IsKey {k = k} e, key_or-IsKey _ k {result = custody_key} (key-IsKey {k = k} e) f)

  verify_chain_command-HasKeys : Sound (verify_chain_command flags)
  unfolding verify_chain_command
  verify_chain_command-HasKeys c h =
      let (k, e, h1) = >>=-eq-ok (key flags) _ h in
      let (group, f, h2) = >>=-eq-ok (key_or flags (path flags (codes "--group-key")) k) _ h1 in
      let (group_report, a, h3) = >>=-eq-ok (required_path flags (codes "--group-report")) _ h2 in
      let (membership, b, h4) = >>=-eq-ok (required_path flags (codes "--membership")) _ h3 in
      let (report, d, h5) = >>=-eq-ok (required_path flags (codes "--report")) _ h4 in
      let (proof, g, h6) = >>=-eq-ok (required_path flags (codes "--proof")) _ h5 in
      subst HasKeys (ok-injective h6)
        (key-IsKey {k = k} e, key_or-IsKey _ k {result = group} (key-IsKey {k = k} e) f)

  assurance_command-HasKeys : Sound (assurance_command flags)
  unfolding assurance_command
  assurance_command-HasKeys c h =
      let (report, a, h1) = >>=-eq-ok (required_path flags (codes "--report")) _ h in
      let (statement, b, h2) = >>=-eq-ok (required_path flags (codes "--assurance")) _ h1 in
      let (attestors, d, h3) = >>=-eq-ok (parse_attestors (path flags (codes "--attestor"))) _ h2 in
      let (k, e, h4) = >>=-eq-ok (key flags) _ h3 in
      subst HasKeys (ok-injective h4)
        (key-IsKey {k = k} e, parse_attestors-IsAttestor _ {result = attestors} d)

  provenance_command-HasKeys : Sound (provenance_command flags)
  unfolding provenance_command
  provenance_command-HasKeys c h =
      let (report, a, h1) = >>=-eq-ok (required_path flags (codes "--report")) _ h in
      let (graph, b, h2) = >>=-eq-ok (required_path flags (codes "--provenance")) _ h1 in
      let (k, e, h3) = >>=-eq-ok (key flags) _ h2 in
      subst HasKeys (ok-injective h3) (key-IsKey {k = k} e)

  verify_command-HasKeys : Sound (verify_command flags)
  unfolding verify_command
  verify_command-HasKeys c h =
      let (report, a, h1) = >>=-eq-ok (required_path flags (codes "--report")) _ h in
      let (proofs, b, h2) = >>=-eq-ok (source flags (codes "--proof") (codes "--proof-dir")) _ h1 in
      let (k, e, h3) = >>=-eq-ok (key flags) _ h2 in
      subst HasKeys (ok-injective h3) (key-IsKey {k = k} e)

  verify_group_command-HasKeys : Sound (verify_group_command flags)
  unfolding verify_group_command
  verify_group_command-HasKeys c h =
      let (report, a, h1) = >>=-eq-ok (required_path flags (codes "--report")) _ h in
      let (proofs, b, h2) =
        >>=-eq-ok (source flags (codes "--membership") (codes "--membership-dir")) _ h1 in
      let (k, e, h3) = >>=-eq-ok (key flags) _ h2 in
      subst HasKeys (ok-injective h3) (key-IsKey {k = k} e)

  verify_pack_command-HasKeys : Sound (verify_pack_command flags)
  unfolding verify_pack_command
  verify_pack_command-HasKeys c h =
      let (dir, a, h1) = >>=-eq-ok (required_path flags (codes "--pack-dir")) _ h in
      let (k, e, h2) = >>=-eq-ok (key flags) _ h1 in
      subst HasKeys (ok-injective h2) (key-IsKey {k = k} e)

  one_path-HasKeys :
      (name : Text) (f : Text → Command)
      → ((t : Text) → HasKeys (f t))
      → Sound (required_path flags name >>= (λ t. ok (f t)))
  one_path-HasKeys name f k c h =
      let (t, a, h1) = >>=-eq-ok (required_path flags name) _ h in
      subst HasKeys (ok-injective h1) (k t)

  two_paths-HasKeys :
      (name other : Text) (f : Text → Text → Command)
      → ((s t : Text) → HasKeys (f s t))
      → Sound (required_path flags name >>= (λ s. required_path flags other >>= (λ t. ok (f s t))))
  two_paths-HasKeys name other f k c h =
      let (s, a, h1) = >>=-eq-ok (required_path flags name) _ h in
      let (t, b, h2) = >>=-eq-ok (required_path flags other) _ h1 in
      subst HasKeys (ok-injective h2) (k s t)

  command_of-HasKeys : (first : Text) → Sound (command_of flags first)
  unfolding command_of
  command_of-HasKeys first = Sound-if _ _ _ (one_path-HasKeys (codes "--report") digest (λ t. tt)) (
      Sound-if _ _ _ coverage_command-HasKeys (
        Sound-if _ _ _ assurance_command-HasKeys (
          Sound-if _ _ _ provenance_command-HasKeys (
            Sound-if _ _ _
              (two_paths-HasKeys (codes "--leaves") (codes "--report")
                (λ s t. recompute s t flags.json) (λ s t. tt))
              (Sound-if _ _ _ verify_pack_command-HasKeys (
                Sound-if _ _ _
                  (one_path-HasKeys (codes "--chain") (λ t. anchors t flags.json) (λ t. tt))
                  (Sound-if _ _ _
                    (two_paths-HasKeys (codes "--previous") (codes "--current")
                      (λ s t. manifest_diff s t flags.json) (λ s t. tt))
                    (Sound-if _ _ _ verify_command-HasKeys (
                      Sound-if _ _ _ verify_group_command-HasKeys
                        verify_chain_command-HasKeys)))))))))

finish-HasKeys : (first : Text) (read : Option Flags) → Sound (finish first read)
finish-HasKeys first none c h = subst HasKeys (ok-injective h) tt
finish-HasKeys first (some flags) c h = command_of-HasKeys flags first c h

help-HasKeys : Sound (ok help)
help-HasKeys c h = subst HasKeys (ok-injective h) tt

version-HasKeys : Sound (ok version)
version-HasKeys c h = subst HasKeys (ok-injective h) tt

refused-HasKeys : (e : UsageError) → Sound (err e)
refused-HasKeys e c h = cc

behind-HasKeys :
    (first : Text) (args : List Text)
    → Sound (read_flags args (record { values = []; json = false }) >>= finish first)
behind-HasKeys first args c h =
    let (read, e, h1) = >>=-eq-ok (read_flags args (record { values = []; json = false })) _ h in
    finish-HasKeys first read c h1

-- In every command that parse returns, each trusted key is 32 bytes of hexadecimal, and so is each
-- attestor's key, which stands with the role of an issuer or a third party.
pub parse-HasKeys : (argv : List Text) (c : Command) → parse argv ≡ ok c → HasKeys c
unfolding parse
parse-HasKeys [] c h = cc
parse-HasKeys (first ∷ args) c h =
    Sound-if _ (ok help) _ help-HasKeys
      (Sound-if _ (ok version) _ version-HasKeys (
        Sound-if _ _ (err (unknown_command first)) (behind-HasKeys first args)
          (refused-HasKeys (unknown_command first))))
      c h
