-- ===== src/Reserve/Custody.antt =====
-- rust/reserve-attest/src/build.rs: a custody report from positions, in an order of their own.
pub mod Order
use canton_assurance_layer.Prelude.{
  ◌≡◌, not, List, [], ◌∷◌, Text, Bytes, codes, is_empty, text_eq, cmp, map, Result, ok, ensure,
  map_err, ◌>>=◌, ◌>>◌,
}
use Prim.Native.Nat.Ordering.{gt}
use canton_assurance_layer.Primitives.{Primitives}
use canton_assurance_layer.Merkle.Leaf.{leaf_salt}
use canton_assurance_layer.Report.Document.{SignedReport}
use canton_assurance_layer.Report.Sign.{ReportSigner}
use canton_assurance_layer.Report.Produce.{
  LeafInputV2, ReportMetadata, PublicationV2, PublishError, publish_v2,
}
use canton_assurance_layer.Reserve.{CustodyPosition}

pub data CustodyError : Type 0 where
  no_positions : CustodyError
  offset_mismatch : Text → Text → CustodyError
  wrong_profile : Text → CustodyError
  not_published : PublishError → CustodyError

-- `sort_by` on the contract id, which is stable: an insertion before the first id that is not below.
unfoldable pub insert_by_id : CustodyPosition → List CustodyPosition → List CustodyPosition
insert_by_id x [] = x ∷ []
insert_by_id x (y ∷ l) =
    let rest = insert_by_id x l in
    elim (cmp x.contract_id y.contract_id) [ gt ↦ y ∷ rest | _ ↦ x ∷ y ∷ l ]

unfoldable pub sort_by_id : List CustodyPosition → List CustodyPosition
sort_by_id [] = []
sort_by_id (x ∷ l) = insert_by_id x (sort_by_id l)

module _ (p : Primitives) where
  unfoldable pub custody_leaf : Bytes → CustodyPosition → LeafInputV2
  custody_leaf master_salt position = record {
    salt = leaf_salt p master_salt position.contract_id;
    subject_id = position.contract_id;
    maps = (codes "held", (position.asset, position.amount) ∷ []) ∷ [];
  }

  unfoldable pub build_custody_report :
      List CustodyPosition
      → ReportMetadata
      → Text
      → Bytes
      → ReportSigner
      → Result CustodyError SignedReport
  build_custody_report positions meta snapshot_offset master_salt signer = do
    ensure (not (is_empty positions)) no_positions
    ensure (text_eq meta.ledger_offset snapshot_offset)
        (offset_mismatch meta.ledger_offset snapshot_offset)
    ensure (text_eq meta.profile (codes "coverage.custody")) (wrong_profile meta.profile)
    published ←
        map_err not_published
          (publish_v2 p (map (custody_leaf master_salt) (sort_by_id positions)) meta signer)
    ok published.signed_report
