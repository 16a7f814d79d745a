-- ===== src/Service/Publish/Accounts.antt =====
-- What a publish request's balances become in the report: the published totals and the disclosed
-- bad debt.
use canton_assurance_layer.Prelude.{
  ℕ, ◌+◌, ◌≡◌, refl, sym, ap, ◌∙◌, arith, not, List, [], ◌∷◌, Text, Bytes, is_empty, text_eq,
  BTreeMap, map, amount, amounts, All, ok, ensure, map_err, >>=-eq-ok, >>-eq-ok, ok-injective,
}
use canton_assurance_layer.Primitives.{Primitives}
use canton_assurance_layer.Report.Document.{Disclosures, SignedReport}
use canton_assurance_layer.Report.Sign.{ReportSigner}
use canton_assurance_layer.Report.Verify.Accepted.{map_err-eq-ok}
use canton_assurance_layer.Report.Produce.{
  LeafInput, ReportMetadata, Publication, report_for, signed_by, publish,
}
use canton_assurance_layer.Report.Produce.Totals.{held, publish-parts, amount-publish}
use canton_assurance_layer.Service.Intake.{LeafIn, Book, parsed_amounts}
use canton_assurance_layer.Service.Intake.Debt.{Fits}
use canton_assurance_layer.Service.Intake.Users.{
  IsApart, stock, owed_by, credited_to, Counts, enter_leaves-Counts,
}
use canton_assurance_layer.Service.Publish.{
  PublishRequest, bad_request, not_published, no_leaves, wrong_profile, liabilities_profile,
  leaf_input, book_of, metadata_of, publication_of,
}

module _ (p : Primitives) where
  held-stock :
      (k : Text) (master_salt : Bytes) (users : BTreeMap (BTreeMap ℕ))
      → held k (map (leaf_input p master_salt) users) ≡ stock k users
  unfolding held stock
  held-stock k master_salt [] = refl
  held-stock k master_salt ((u, b) ∷ users) =
      ap (λ n. amounts k b + n) (held-stock k master_salt users)

  publish-disclosures :
      (leaves : List LeafInput) (meta : ReportMetadata) (signer : ReportSigner)
      {published : Publication}
      → publish p leaves meta signer ≡ ok published
      → published.signed_report.report.disclosures ≡ meta.disclosures
  unfolding signed_by report_for
  publish-disclosures leaves meta signer {published} h =
      let (nodes, tree, top, en, built, top_is, ep, same) =
        publish-parts p leaves meta signer published h in
      ap (λ (x : SignedReport). x.report.disclosures) (sym same)

  -- What a book accounts for of a request whose disclosed bad debt was parsed to `debt`.
  book_of-Counts :
      (req : PublishRequest) {book : Book}
      → All (λ (l : LeafIn). IsApart l.balances) req.leaves
      → book_of req ≡ ok book
      → (debt : BTreeMap ℕ) × (parsed_amounts req.disclosures.bad_debt ≡ ok debt)
        × Counts req.leaves (record { debt = debt; clamps = 0; users = [] }) book
  unfolding book_of
  book_of-Counts req {book} apart h =
      let (a, h1) = >>-eq-ok (ensure (not (is_empty req.leaves)) no_leaves) _ h in
      let (b, h2) =
        >>-eq-ok (ensure (text_eq req.profile liabilities_profile) (wrong_profile req.profile)) _
          h1 in
      let (debt, e, h3) =
        >>=-eq-ok (map_err bad_request (parsed_amounts req.disclosures.bad_debt)) _ h2 in
      let start : Book = record { debt = debt; clamps = 0; users = [] } in
      (
        debt,
        map_err-eq-ok bad_request _ e,
        enter_leaves-Counts 0 req.leaves start {b' = book} apart (map_err-eq-ok bad_request _ h3),
      )

  metadata_of-bad_debt :
      (req : PublishRequest) (book : Book) {meta : ReportMetadata}
      → metadata_of req book ≡ ok meta
      → meta.disclosures.bad_debt ≡ book.debt
  unfolding metadata_of
  metadata_of-bad_debt req book {meta} h =
      let (prices, e, h1) = >>=-eq-ok (map_err bad_request (parsed_amounts req.mark_prices)) _ h in
      let (totals, f, h2) =
        >>=-eq-ok (map_err bad_request (parsed_amounts req.disclosures.excluded_house_totals)) _
          h1 in
      ap (λ (m : ReportMetadata). m.disclosures.bad_debt) (sym (ok-injective h2))

  -- What the report publishes, where no two of a customer's entries name one asset once trimmed: of
  -- every asset, the total is the sum of all entries that are not negative, and the bad debt is the
  -- sum of all negative ones on top of what the request discloses, in a `u128` if that was.
  pub amount-publication_of :
      (master_salt : Bytes) (req : PublishRequest) (signer : ReportSigner) (book : Book)
      (published : Publication)
      → All (λ (l : LeafIn). IsApart l.balances) req.leaves
      → publication_of p master_salt req signer ≡ ok (book, published)
      → (debt : BTreeMap ℕ) × (parsed_amounts req.disclosures.bad_debt ≡ ok debt)
        × ((k : Text)
            → (amount k published.signed_report.report.root_sums ≡ credited_to k req.leaves)
              × (amount k published.signed_report.report.disclosures.bad_debt
                  ≡ amount k debt + owed_by k req.leaves))
        × (Fits debt → Fits published.signed_report.report.disclosures.bad_debt)
  unfolding publication_of stock
  amount-publication_of master_salt req signer book published apart h =
      let (b, eb, h1) = >>=-eq-ok (book_of req) _ h in
      let (meta, em, h2) = >>=-eq-ok (metadata_of req b) _ h1 in
      let leaves = map (leaf_input p master_salt) b.users in
      let (made, ep, h3) = >>=-eq-ok (map_err not_published (publish p leaves meta signer)) _ h2 in
      let (debt, parsed, counts) = book_of-Counts req {book = b} apart eb in
      let same : made ≡ published = ap (λ (x : Book × Publication). x.1) (ok-injective h3) in
      let done : publish p leaves meta signer ≡ ok published =
        map_err-eq-ok not_published _ ep ∙ ap ok same in
      let debts : published.signed_report.report.disclosures.bad_debt ≡ b.debt =
        ap (λ (d : Disclosures). d.bad_debt) (publish-disclosures leaves meta signer done)
        ∙ metadata_of-bad_debt req b em in
      (
        debt,
        parsed,
        (λ k. (
          omega (
            arith,
            amount-publish p k leaves meta signer {published = published} done,
            held-stock k master_salt b.users,
            (counts.0 k).1,
          ),
          rw debts (counts.0 k).0,
        )),
        (λ all. rw debts (counts.1 all)),
      )
