-- ===== src/Report/Instant/Skew.antt =====
-- rust/solvency-report/src/instant.rs: `skew` against runs of `parse`.
use canton_assurance_layer.Prelude.{◌≡◌, refl, Text, Option, none, some, ap, and_then, ℕ}
use canton_assurance_layer.Prelude.Int.{ℤ, abs_diff, abs_diff_comm}
use canton_assurance_layer.Report.Instant.{parse, skew}

diff_of : Option ℤ → Option ℤ → Option ℕ
diff_of a b = and_then a (λ x. and_then b (λ y. some (abs_diff x y)))

diff_of_comm : (a b : Option ℤ) → diff_of a b ≡ diff_of b a
unfolding diff_of
diff_of_comm none none = refl
diff_of_comm none (some y) = refl
diff_of_comm (some x) none = refl
diff_of_comm (some x) (some y) = ap some (abs_diff_comm x y)

-- The skew of two timestamps does not depend on their order, whether they parse or not.
pub skew_comm : (a b : Text) → skew a b ≡ skew b a
unfolding skew diff_of
skew_comm a b = diff_of_comm (parse a) (parse b)
