-- ===== src/Report/Produce/Hashes.antt =====
-- rust/solvency-report/src/produce.rs: the hashes that a tree holds, and that the verifier reads back
-- from the documents.
use canton_assurance_layer.Prelude.{
  ℕ, zero, suc, ◌/◌, ◌≡◌, refl, ap, inl, inr, List, [], ◌∷◌, some, Option-cases, Text, Bytes,
  IsBytes, All, All-append, length, get_elem?, get_last?, map, ok, collect, >>=-eq-ok, >>-eq-ok,
  ok-injective, some_inj, ensure, subst, is_empty, not,
}
use canton_assurance_layer.Primitives.{Primitives, IsLawful}
use canton_assurance_layer.Merkle.Encoding.{no_leaves}
use canton_assurance_layer.Merkle.Node.{Node, add_sums, node_hash, combine}
use canton_assurance_layer.Merkle.Tree.{
  SumTree, ProofStep, head?, root, sibling_of, sibling_step, path_from, path, next_level, grow,
  build,
}
use canton_assurance_layer.Report.Verify.Checks.{hash32}
use canton_assurance_layer.Report.Verify.Fold.{decode_step}
use canton_assurance_layer.Report.Produce.{step_document}

-- Thirty-two bytes, as a hash and a salt are.
pub record Is32 (b : Bytes) : Type 0 where
  pub size : length b ≡ 32
  pub bytes : IsBytes b

abbrev pub Hashed : Node → Type 0
Hashed n = Is32 n.hash

abbrev pub StepsHashed : List ProofStep → Type 0
StepsHashed = All (λ (s : ProofStep). Hashed s.sibling)

pub get_elem?-All {ℓ κ} :
    {A : Type ℓ} (P : A → Type κ) (l : List A) (i : ℕ) {a : A}
    → All P l
    → get_elem? l i ≡ some a
    → P a
get_elem?-All P [] i h e = absurd (cc)
get_elem?-All P (x ∷ l) zero (h, hs) e = subst P (some_inj e) h
get_elem?-All P (x ∷ l) (suc i) (h, hs) e = get_elem?-All P l i hs e

sibling_step-StepsHashed :
    (level : List Node) (i : ℕ) → All Hashed level → StepsHashed (sibling_step level i)
unfolding sibling_step
sibling_step-StepsHashed level i h = elim (Option-cases (get_elem? level (sibling_of i))) [
  | inl e ↦ rw e tt
  | inr (n, e) ↦ rw e (get_elem?-All Hashed level (sibling_of i) h e, tt)
]

path_from-StepsHashed :
    (level : List Node) (above : List (List Node)) (i : ℕ)
    → All Hashed level
    → All (All Hashed) above
    → StepsHashed (path_from level above i)
unfolding path_from
path_from-StepsHashed level [] i h hs = tt
path_from-StepsHashed level (next ∷ above) i h (hn, hs) =
    All-append (λ (s : ProofStep). Hashed s.sibling) (sibling_step level i)
      (path_from next above (i / 2)) (sibling_step-StepsHashed level i h)
      (path_from-StepsHashed next above (i / 2) hn hs)

pub path-StepsHashed :
    (levels : List (List Node)) (i : ℕ) → All (All Hashed) levels → StepsHashed (path levels i)
unfolding path
path-StepsHashed [] i h = tt
path-StepsHashed (level ∷ above) i (h, hs) = path_from-StepsHashed level above i h hs

module _ (p : Primitives) (lawful : IsLawful p) where
  pub sha256-Is32 : (b : Bytes) → Is32 (p.sha256 b)
  sha256-Is32 b = record { size = lawful.sha256_length b; bytes = lawful.sha256_bytes b }

  combine-Hashed : (x y : Node) {n : Node} → combine p x y ≡ ok n → Hashed n
  unfolding combine node_hash
  combine-Hashed x y {n} h =
      let (sums, e, q) = >>=-eq-ok (add_sums x.sums y.sums) _ h in
      subst Hashed (ok-injective q) (sha256-Is32 _)

  next_level-Hashed :
      (level : List Node) {next : List Node}
      → All Hashed level
      → next_level p level ≡ ok next
      → All Hashed next
  unfolding next_level
  next_level-Hashed [] s h = subst (All Hashed) (ok-injective h) s
  next_level-Hashed (a ∷ []) s h = subst (All Hashed) (ok-injective h) s
  next_level-Hashed (a ∷ b ∷ l) (sa, (sb, sl)) h =
      let (n, e, r) = >>=-eq-ok (combine p a b) _ h in
      let (ns, f, o) = >>=-eq-ok (next_level p l) _ r in
      subst (All Hashed) (ok-injective o)
        (combine-Hashed a b {n = n} e, next_level-Hashed l {next = ns} sl f)

  grow-Hashed :
      (fuel : ℕ) (level : List Node) {levels : List (List Node)}
      → All Hashed level
      → grow p fuel level ≡ ok levels
      → All (All Hashed) levels
  unfolding grow
  grow-Hashed zero level s h = subst (All (All Hashed)) (ok-injective h) (s, tt)
  grow-Hashed (suc fuel) [] s h = subst (All (All Hashed)) (ok-injective h) (s, tt)
  grow-Hashed (suc fuel) (x ∷ []) s h = subst (All (All Hashed)) (ok-injective h) (s, tt)
  grow-Hashed (suc fuel) (x ∷ y ∷ l) s h =
      let (next, e, r) = >>=-eq-ok (next_level p (x ∷ y ∷ l)) _ h in
      let (above, f, o) = >>=-eq-ok (grow p fuel next) _ r in
      subst (All (All Hashed)) (ok-injective o) (
        s,
        grow-Hashed fuel next {levels = above} (next_level-Hashed (x ∷ y ∷ l) {next = next} s e) f,
      )

  pub build-Hashed :
      (leaves : List Node) {tree : SumTree}
      → All Hashed leaves
      → build p leaves ≡ ok tree
      → All (All Hashed) tree.levels
  unfolding build
  build-Hashed leaves {tree} s h =
      let (a, b) = >>-eq-ok (ensure (not (is_empty leaves)) no_leaves) _ h in
      let (levels, e, o) = >>=-eq-ok (grow p (length leaves) leaves) _ b in
      subst (All (All Hashed)) (ap (λ (t : SumTree). t.levels) (ok-injective o))
        (grow-Hashed (length leaves) leaves {levels = levels} s e)

  pub hash32-hex_encode : (b : Bytes) (what : Text) → Is32 b → hash32 p (p.hex_encode b) what ≡ ok b
  unfolding hash32
  hash32-hex_encode b what h = rw (lawful.hex_round_trip b h.bytes, h.size) refl

  decode_step-step_document :
      (s : ProofStep) → Hashed s.sibling → decode_step p (step_document p s) ≡ ok s
  unfolding decode_step step_document
  decode_step-step_document s h = rw (hash32-hex_encode s.sibling.hash _ h) refl

  pub collect-step_document :
      (steps : List ProofStep)
      → StepsHashed steps
      → collect (decode_step p) (map (step_document p) steps) ≡ ok steps
  collect-step_document [] h = refl
  collect-step_document (s ∷ steps) (h, hs) =
      rw (decode_step-step_document s h, collect-step_document steps hs) refl

get_last?-Hashed :
    (levels : List (List Node)) {level : List Node}
    → All (All Hashed) levels
    → get_last? levels ≡ some level
    → All Hashed level
get_last?-Hashed [] h e = absurd (cc)
get_last?-Hashed (x ∷ []) (h, hs) e = subst (All Hashed) (some_inj e) h
get_last?-Hashed (x ∷ y ∷ l) (h, hs) e = get_last?-Hashed (y ∷ l) hs e

head?-Hashed : (level : List Node) {n : Node} → All Hashed level → head? level ≡ some n → Hashed n
unfolding head?
head?-Hashed [] h e = absurd (cc)
head?-Hashed (x ∷ l) (h, hs) e = subst Hashed (some_inj e) h

pub root-Hashed :
    (tree : SumTree) {r : Node} → All (All Hashed) tree.levels → root tree ≡ some r → Hashed r
unfolding root
root-Hashed tree {r} h e = elim (Option-cases (get_last? tree.levels)) [
  | inl q ↦ absurd (cc (q, e))
  | inr (level, q) ↦
      let top : head? level ≡ some r = rw q at e in
      head?-Hashed level {n = r} (get_last?-Hashed tree.levels {level = level} h q) top
]
