-- ===== src/Design/Fill/Tests.antt =====
-- Filling a concrete template.
use eddwise.Base.{codes, [], ◌∷◌, ◌≡◌, refl, ℕ_discrete, dec_le}
use eddwise.Design.Fill.{fill, trim_space}

fill_runs :
    fill (codes "a%1" ∷ codes "b" ∷ []) ("x %0\n" ∷ "\"%1%0\"\n" ∷ []) ≡ codes "x a%1\n\"ba%1\"\n"
unfolding fill ℕ_discrete
fill_runs = refl

trim_space_runs : trim_space (codes "\t a b\n ") ≡ codes "a b"
unfolding trim_space ℕ_discrete dec_le
trim_space_runs = refl
