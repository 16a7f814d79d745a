-- ===== src/Prelude/Iffs.antt =====
-- Boolean tests and the propositions that they decide.
use mathlib.Core.Path.{◌≡◌, refl}
use mathlib.Core.Logic.{◌↔◌, ◌⊎◌, inl, inr}
use mathlib.Core.Bool.{Bool, true, false, not, ◌&&◌, ◌||◌}
use mathlib.Core.List.{List, [], ◌∷◌}
use canton_assurance_layer.Prelude.Tests.{&&_iff, Bool-cases}
use canton_assurance_layer.Prelude.Lists.{any}
use canton_assurance_layer.Prelude.Results.{Result, ok, err, is_ok}

-- One of the list's elements satisfies the predicate.
abbrev pub Some {ℓ} : {A : Type ℓ} → (A → Type 0) → List A → Type 0
Some P [] = ⊥
Some P (x ∷ l) = P x ⊎ Some P l

pub both :
    {P Q : Type 0} (a b : Bool) → (a ≡ true) ↔ P → (b ≡ true) ↔ Q → ((a && b) ≡ true) ↔ (P × Q)
both a b f g = (
  (λ h. let (x, y) = (&&_iff a b).0 h in (f.0 x, g.0 y)),
  (λ q. (&&_iff a b).1 (f.1 q.0, g.1 q.1)),
)

pub negated : {P : Type 0} (b : Bool) → (b ≡ true) ↔ P → (not b ≡ true) ↔ (P → ⊥)
negated true f = ((λ h. absurd (cc (h))), (λ n. absurd (n (f.0 refl))))
negated false f = ((λ h q. cc (f.1 q)), (λ n. refl))

pub any-Some {ℓ} :
    {A : Type ℓ} {P : A → Type 0} (f : A → Bool) (l : List A)
    → ((a : A) → (f a ≡ true) ↔ P a)
    → (any f l ≡ true) ↔ Some P l
any-Some f [] h = ((λ q. cc (q)), (λ q. absurd q))
any-Some f (x ∷ l) h = elim (Bool-cases (f x)) [
  | inl e ↦ ((λ q. inl ((h x).0 e)), (λ q. rw (e) refl))
  | inr e ↦
      let (there, back) = any-Some f l h in
      (
        (λ q. inr (there (rw e at q))),
        (λ q. elim q [ inl p ↦ absurd (cc (e, (h x).1 p)) | inr s ↦ rw (e) (back s) ]),
      )
]

pub ok_iff {ℓ κ} :
    {E : Type ℓ} {A : Type κ} (r : Result E A) → (is_ok r ≡ true) ↔ ((a : A) × (r ≡ ok a))
ok_iff (ok a) = ((λ q. (a, refl)), (λ q. refl))
ok_iff (err e) = ((λ q. cc (q)), (λ q. cc (q.1)))

pub false_iff : (b : Bool) → (not b ≡ true) ↔ (b ≡ false)
false_iff true = ((λ q. cc (q)), (λ q. cc (q)))
false_iff false = ((λ q. refl), (λ q. refl))

pub either :
    {P Q : Type 0} (a b : Bool) → (a ≡ true) ↔ P → (b ≡ true) ↔ Q → ((a || b) ≡ true) ↔ (P ⊎ Q)
either true b f g = ((λ h. inl (f.0 refl)), (λ q. refl))
either false b f g =
    ((λ h. inr (g.0 h)), (λ q. elim q [ inl p ↦ absurd (cc (f.1 p)) | inr r ↦ g.1 r ]))
