-- ===== src/Lib.antt =====
-- A model of the solvency protocol of the Canton Assurance Layer and of what is built on it: the
-- crates rust/solvency-merkle and rust/solvency-report, the service (rust/solvency-service), the
-- command line (rust/solvency-cli), the attestation of reserves (rust/reserve-attest) and the
-- diagnosis of rejected submissions and the effects of prepared transactions (rust/sim-diagnose,
-- rust/sim-core), with the theorems that make them correct.
--
-- A publisher commits its customers' balances to a Merkle sum tree, signs a report that names the
-- root and its totals, and hands each customer a proof. The report can then be verified, compared
-- with custody, consolidated in a group, anchored in a history, graded by its evidence and packed
-- for delivery. The service does so for the organisations whose keys it keeps, over balances that
-- it is sent or that it reads from a ledger; the command line checks what was delivered. The modules
-- follow the files of the crates:
--   Prelude            lists, texts, maps, results and machine words, as the Rust library has them
--   Primitives         SHA-256, HMAC, hex and Ed25519, which the crates import: parameters, with laws
--   Merkle.Amount      parse_amount_18dp, format_amount_18dp (rust/solvency-merkle/src/lib.rs)
--   Merkle.Encoding    canonical_balances, sums_canonical, lp, lpmap, is_safe_name
--   Merkle.Leaf        leaf_hash, leaf_node and their v2 forms
--   Merkle.Node        Node and combine
--   Merkle.Tree        SumTree::build, root and prove
--   Merkle.Proof       verify_proof
--   Report.Document    document.rs of rust/solvency-report/src: the documents, the codecs of amounts
--   Report.Manifest    manifest.rs: the disclosure manifest, carries_data, diff
--   Report.Digest      digest.rs: the digest that is signed
--   Report.Sign        sign.rs
--   Report.Profile     profile.rs: the registry and validate
--   Report.Verify      verify.rs: the checks, the fold, verify and verify_v2
--   Report.Produce     produce.rs: publish, publish_v2, publish_for_audiences
--   Report.Group       group.rs: publish_group, verify_membership, verify_chain
--   Report.Instant     instant.rs: the timestamp profile and skew
--   Report.Coverage    coverage.rs: custody against liabilities
--   Report.Anchor      anchor.rs: the history of a publisher
--   Report.Provenance  provenance.rs: the graph of sources
--   Report.Assurance   assurance.rs: establish and verify_assurance
--   Report.Pack        pack.rs: the index of a delivery
--   Service.Keystore   keystore.rs of rust/solvency-service: an organisation's seed, sealed in a file
--   Service.Intake     api.rs: the balances of a publish request, negative ones as bad debt
--   Service.Publish    api.rs: do_publish, the files of a delivery
--   Service.Custody    api.rs: do_custody; main.rs: the bearer token
--   Service.App        main.rs: the routes over the keystore, and the configuration
--   Reserve            lib.rs and build.rs of rust/reserve-attest: holdings, totals, the custody report
--   Cli.Args           args.rs of rust/solvency-cli: the arguments
--   Cli.Run            run.rs: digest, verify, verify-group and verify-chain, and the exit code
--   Cli.Recompute      recompute.rs and diff.rs
--   Cli.Verbs          coverage.rs, assurance.rs, provenance.rs, pack.rs, anchors.rs and main.rs
--   Diagnose           ledger_error.rs, classify.rs and catalog.rs of rust/sim-diagnose
--   Effects            prepared.rs and model.rs of rust/sim-core: effects_of and its walk over the nodes
--   Examples           the definitions run on concrete inputs, the theorems applied there
--
-- Text is the list of its UTF-8 bytes. A BTreeMap is its list of entries; theorems that need the
-- keys in order say so (IsSorted). Integers are natural numbers with the checks and bounds of u64
-- and u128 written out; a length written as eight bytes is below 2 ^ 64 where a theorem rests on
-- that. An error is a constructor, without its message text. The loop of SumTree::build runs on
-- fuel, as much as there are leaves, and a level shrinks in each round, so it never runs out. The
-- walk over a transaction's nodes has fuel for one level more than there are nodes; each level visits
-- a node that was not visited, so it never runs out either. A
-- printed u128 takes fuel for 39 digits, which is enough below 10 ^ 39.
--
-- Binding theorems do not assume that SHA-256 has no collisions, only that it returns 32 bytes:
-- they yield the equation that is promised, or name two different inputs with one digest among those
-- that the two runs of the code hash, at the same place in both.
--
-- The service's requests are handled one after another; what two overlapping first requests of one
-- organisation do is modelled on its own (Service.Keystore.Race).
--
-- What is not under the repository's own source is a parameter: hash, signature and cipher with
-- their documented laws, the JSON reader and printer, the matcher of regular expressions, the
-- transport, the files that the command line reads and their decoders. The keystore's directory is a
-- map of files; each request carries its random bytes and what the disk does to its write and rename.
--
-- Not modelled: the code that serde derives for the documents, Display texts and other output, the
-- sockets of the HTTP service, the generators of test vectors, the prose that a diagnosis chooses by
-- its code (specialise), the JSON form of a transaction's values, and the rest of the transaction
-- simulator (the other crates rust/sim-*), whose logic is calls of a ledger over gRPC and fees in
-- third-party decimals.
pub mod Prelude
pub mod Primitives
pub mod Merkle
pub mod Report
pub mod Reserve
pub mod Service
pub mod Cli
pub mod Diagnose
pub mod Effects
pub mod Examples
