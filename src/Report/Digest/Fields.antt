-- ===== src/Report/Digest/Fields.antt =====
-- rust/solvency-report/src/digest.rs: the fields of a report are read back from its preimage.
use canton_assurance_layer.Prelude.{
  ℕ, ◌<◌, ◌≡◌, ◌≢◌, refl, sym, ◌∙◌, arith, false, [], ◌∷◌, ◌++◌, Option, none, some, Text, Bytes,
  BTreeMap, All, length, append_inj, u64_mod, u64le, length-u64le, u64le_inj, text_eq, text_eq_iff,
}
use canton_assurance_layer.Merkle.Encoding.Prefix.{HasLength, Fits, lp_inj, lpmap_inj}
use canton_assurance_layer.Report.Document.{
  Disclosure, published, committed, withheld, Manifest, Report,
}
use canton_assurance_layer.Report.Manifest.{as_str}
use canton_assurance_layer.Report.Digest.{manifest_fields, manifest_bytes, report_fields}

-- A manifest as the program can hold it.
pub record ManifestFits (m : Manifest) : Type 0 where
  pub audience : HasLength m.audience
  pub count : length m.fields < u64_mod
  pub paths : All (λ (e : Text × Disclosure). HasLength e.0) m.fields

abbrev pub OptionalFits : Option Manifest → Type 0
OptionalFits none = Unit
OptionalFits (some m) = ManifestFits m

-- A report as the program can hold it: `u64` lengths and counts, `u128` amounts.
pub record ReportFits (r : Report) : Type 0 where
  pub format_version : HasLength r.format_version
  pub profile : HasLength r.profile
  pub publisher : HasLength r.publisher
  pub snapshot_time : HasLength r.snapshot_time
  pub ledger_offset : HasLength r.ledger_offset
  pub root_hash : HasLength r.root_hash
  pub leaf_count : r.leaf_count < u64_mod
  pub root_sums : Fits r.root_sums
  pub mark_prices : Fits r.mark_prices
  pub bad_debt : Fits r.disclosures.bad_debt
  pub excluded_house_accounts : r.disclosures.excluded_house_accounts < u64_mod
  pub excluded_house_totals : Fits r.disclosures.excluded_house_totals
  pub manifest : OptionalFits r.manifest

pub text_neq : (s t : Text) → text_eq s t ≡ false → s ≢ t
text_neq s t e h = cc (e, (text_eq_iff s t).1 h)

as_str_inj : (a b : Disclosure) → as_str a ≡ as_str b → a ≡ b
unfolding text_eq
as_str_inj published published h = refl
as_str_inj published committed h = absurd (text_neq _ _ refl h)
as_str_inj published withheld h = absurd (text_neq _ _ refl h)
as_str_inj committed published h = absurd (text_neq _ _ refl h)
as_str_inj committed committed h = refl
as_str_inj committed withheld h = absurd (text_neq _ _ refl h)
as_str_inj withheld published h = absurd (text_neq _ _ refl h)
as_str_inj withheld committed h = absurd (text_neq _ _ refl h)
as_str_inj withheld withheld h = refl

as_str-HasLength : (d : Disclosure) → HasLength (as_str d)
as_str-HasLength published = omega arith
as_str-HasLength committed = omega arith
as_str-HasLength withheld = omega arith

u64le_append_inj :
    (n m : ℕ) (x y : Bytes)
    → n < u64_mod
    → m < u64_mod
    → u64le n ++ x ≡ u64le m ++ y
    → (n ≡ m) × (x ≡ y)
u64le_append_inj n m x y hn hm h =
    let (e, r) = append_inj (u64le n) (u64le m) x y (length-u64le n ∙ sym (length-u64le m)) h in
    (u64le_inj n m hn hm e, r)

manifest_fields_inj :
    (m n : BTreeMap Disclosure)
    → length m ≡ length n
    → All (λ (e : Text × Disclosure). HasLength e.0) m
    → All (λ (e : Text × Disclosure). HasLength e.0) n
    → manifest_fields m ≡ manifest_fields n
    → m ≡ n
unfolding manifest_fields
manifest_fields_inj [] [] l hm hn h = refl
manifest_fields_inj [] (b ∷ n) l hm hn h = absurd (omega arith)
manifest_fields_inj (a ∷ m) [] l hm hn h = absurd (omega arith)
manifest_fields_inj ((j, a) ∷ m) ((k, b) ∷ n) l (hj, hm) (hk, hn) h =
    let (ej, e1) = lp_inj j k _ _ hj hk h in
    let (es, e2) = lp_inj (as_str a) (as_str b) _ _ (as_str-HasLength a) (as_str-HasLength b) e1 in
    let er = manifest_fields_inj m n (omega arith) hm hn e2 in
    let ea = as_str_inj a b es in cc (ej, ea, er)

-- A manifest is read back from its bytes.
pub manifest_bytes_inj :
    (m n : Manifest)
    → ManifestFits m
    → ManifestFits n
    → manifest_bytes (some m) ≡ manifest_bytes (some n)
    → m ≡ n
unfolding manifest_bytes
manifest_bytes_inj m n fm fn h =
    let (ea, h1) = lp_inj m.audience n.audience _ _ fm.audience fn.audience h in
    let (el, h2) = u64le_append_inj (length m.fields) (length n.fields) _ _ fm.count fn.count h1 in
    let ef = manifest_fields_inj m.fields n.fields el fm.paths fn.paths h2 in
    λ i. record { audience = ea i; fields = ef i }

-- All of a report but its manifest.
abbrev pub with_manifest : Report → Option Manifest → Report
with_manifest r m = record {
  format_version = r.format_version;
  profile = r.profile;
  publisher = r.publisher;
  snapshot_time = r.snapshot_time;
  ledger_offset = r.ledger_offset;
  root_hash = r.root_hash;
  leaf_count = r.leaf_count;
  root_sums = r.root_sums;
  mark_prices = r.mark_prices;
  disclosures = r.disclosures;
  manifest = m;
}

pub report_fields_inj :
    (r s : Report) (x y : Bytes)
    → ReportFits r
    → ReportFits s
    → report_fields r x ≡ report_fields s y
    → (with_manifest r none ≡ with_manifest s none) × (x ≡ y)
unfolding report_fields
report_fields_inj r s x y fr fs h =
    let (e1, h1) =
      lp_inj r.format_version s.format_version _ _ fr.format_version fs.format_version h in
    let (e2, h2) = lp_inj r.profile s.profile _ _ fr.profile fs.profile h1 in
    let (e3, h3) = lp_inj r.publisher s.publisher _ _ fr.publisher fs.publisher h2 in
    let (e4, h4) =
      lp_inj r.snapshot_time s.snapshot_time _ _ fr.snapshot_time fs.snapshot_time h3 in
    let (e5, h5) =
      lp_inj r.ledger_offset s.ledger_offset _ _ fr.ledger_offset fs.ledger_offset h4 in
    let (e6, h6) = lp_inj r.root_hash s.root_hash _ _ fr.root_hash fs.root_hash h5 in
    let (e7, h7) = u64le_append_inj r.leaf_count s.leaf_count _ _ fr.leaf_count fs.leaf_count h6 in
    let (e8, h8) = lpmap_inj r.root_sums s.root_sums _ _ fr.root_sums fs.root_sums h7 in
    let (e9, h9) = lpmap_inj r.mark_prices s.mark_prices _ _ fr.mark_prices fs.mark_prices h8 in
    let (d1, k1) =
      lpmap_inj r.disclosures.bad_debt s.disclosures.bad_debt _ _ fr.bad_debt fs.bad_debt h9 in
    let (d2, k2) =
      u64le_append_inj r.disclosures.excluded_house_accounts s.disclosures.excluded_house_accounts _
        _ fr.excluded_house_accounts fs.excluded_house_accounts k1 in
    let (d3, k3) =
      lpmap_inj r.disclosures.excluded_house_totals s.disclosures.excluded_house_totals _ _
        fr.excluded_house_totals fs.excluded_house_totals k2 in
    (
      λ i. record {
        format_version = e1 i;
        profile = e2 i;
        publisher = e3 i;
        snapshot_time = e4 i;
        ledger_offset = e5 i;
        root_hash = e6 i;
        leaf_count = e7 i;
        root_sums = e8 i;
        mark_prices = e9 i;
        disclosures = record {
          bad_debt = d1 i;
          excluded_house_accounts = d2 i;
          excluded_house_totals = d3 i;
        };
        manifest = none;
      },
      k3,
    )
