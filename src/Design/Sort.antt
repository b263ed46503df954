-- ===== src/Design/Sort.antt =====
-- sort.Slice by name, as Design.Validate calls it (eddgen.go). The order of texts is that of Go's `<`,
-- by bytes; where names are distinct, every way of sorting gives the list that this one gives.
pub mod Entries
pub mod Order
pub mod Unique
use eddwise.Base.{Text, List, [], ◌∷◌, Bool, true, false, if◌then◌else◌, ite, dec_lt, ℕ_discrete}

unfoldable pub text_lt : Text → Text → Bool
text_lt s [] = false
text_lt [] (y ∷ t) = true
text_lt (x ∷ s) (y ∷ t) = ite (dec_lt x y) true (ite (ℕ_discrete x y) (text_lt s t) false)

module _ {A : Type 0} (name : A → Text) where
  unfoldable pub place : A → List A → List A
  place x [] = x ∷ []
  place x (y ∷ ys) = if text_lt (name y) (name x) then y ∷ place x ys else x ∷ y ∷ ys

  unfoldable pub sort_by : List A → List A
  unfolding place
  sort_by [] = []
  sort_by (x ∷ xs) = place x (sort_by xs)
