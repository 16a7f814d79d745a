-- ===== src/Report/Digest.antt =====
-- rust/solvency-report/src/digest.rs: the digest of a report. Its `lp` and `lpmap` are those of the
-- tree crate, word for word.
pub mod Fields
pub mod Binding
use canton_assurance_layer.Prelude.{
  ℕ, Bool, true, false, [], ◌∷◌, ◌++◌, Option, none, some, Text, Bytes, codes, text_eq,
  if◌then◌else◌, BTreeMap, length, u64le,
}
use canton_assurance_layer.Primitives.{Primitives}
use canton_assurance_layer.Merkle.Encoding.{lp, lpmap}
use canton_assurance_layer.Report.Document.{
  Disclosure, Manifest, Disclosures, Report, report_format_version_v2,
}
use canton_assurance_layer.Report.Manifest.{as_str}

abbrev pub report_digest_domain : Bytes
report_digest_domain = codes "rocky-solvency-report-v1"

abbrev pub report_digest_domain_v2 : Bytes
report_digest_domain_v2 = codes "rocky-solvency-report-v2"

unfoldable pub is_v2 : Report → Bool
is_v2 report = text_eq report.format_version report_format_version_v2

unfoldable pub manifest_fields : BTreeMap Disclosure → Bytes
manifest_fields [] = []
manifest_fields ((path, state) ∷ fields) = lp path ++ (lp (as_str state) ++ manifest_fields fields)

-- What the hasher is fed for a manifest: nothing where there is none.
unfoldable pub manifest_bytes : Option Manifest → Bytes
manifest_bytes none = []
manifest_bytes (some m) = lp m.audience ++ (u64le (length m.fields) ++ manifest_fields m.fields)

-- The fields that both versions cover, in the order of the `update` calls, and what follows them.
unfoldable pub report_fields : Report → Bytes → Bytes
report_fields r rest =
    lp r.format_version
    ++ (lp r.profile
        ++ (lp r.publisher
            ++ (lp r.snapshot_time
                ++ (lp r.ledger_offset
                    ++ (lp r.root_hash
                        ++ (u64le r.leaf_count
                            ++ (lpmap r.root_sums
                                ++ (lpmap r.mark_prices
                                    ++ (lpmap r.disclosures.bad_debt
                                        ++ (u64le r.disclosures.excluded_house_accounts
                                            ++ (lpmap r.disclosures.excluded_house_totals
                                                ++ rest)))))))))))

unfoldable pub report_preimage : Report → Bytes
report_preimage r =
    if is_v2 r
    then report_digest_domain_v2 ++ report_fields r (manifest_bytes r.manifest)
    else report_digest_domain ++ report_fields r []

module _ (p : Primitives) where
  unfoldable pub report_digest : Report → Bytes
  report_digest report = p.sha256 (report_preimage report)

  unfoldable pub report_digest_hex : Report → Text
  report_digest_hex report = p.hex_encode (report_digest report)
