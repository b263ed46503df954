-- ===== src/Design/Sort/Order.antt =====
-- Sorting by name keeps the items and puts them in order.
use mathlib.Core.List.{Perm}
use mathlib.Core.List.Perm
use eddwise.Base.{Text, List, [], ◌∷◌, true, false, ◌≡◌, refl, arith, Bool-cases, inl, inr}
use eddwise.Design.Sort.{text_lt, place, sort_by}

pub text_lt_asymm : (s t : Text) → text_lt s t ≡ true → text_lt t s ≡ false
unfolding text_lt
text_lt_asymm [] [] h = cc
text_lt_asymm (x ∷ s) [] h = cc
text_lt_asymm [] (y ∷ t) h = refl
text_lt_asymm (x ∷ s) (y ∷ t) h = ground (arith, text_lt_asymm s t)

module _ {A : Type 0} (name : A → Text) where
  -- No name comes before that of the item in front of it.
  abbrev pub IsSorted : List A → Type 0
  IsSorted [] = Unit
  IsSorted (x ∷ []) = Unit
  IsSorted (x ∷ y ∷ ys) = (text_lt (name y) (name x) ≡ false) × IsSorted (y ∷ ys)

  place-IsSorted : (x : A) (ys : List A) → IsSorted ys → IsSorted (place name x ys)
  unfolding place
  place-IsSorted x [] v = tt
  place-IsSorted x (y ∷ []) v = ground (arith, text_lt_asymm (name y) (name x))
  place-IsSorted x (y ∷ z ∷ zs) v =
      ground (arith, text_lt_asymm (name y) (name x), place-IsSorted x (z ∷ zs))

  place-perm : (x : A) (ys : List A) → Perm (place name x ys) (x ∷ ys)
  unfolding place
  place-perm x [] = Perm.rfl
  place-perm x (y ∷ ys) = elim (Bool-cases (text_lt (name y) (name x))) [
    | inl e ↦ rw (e, place) (Perm.trans (Perm.cons y (place-perm x ys)) (Perm.swap x y ys))
    | inr e ↦ rw (e, place) Perm.rfl
  ]

  pub sort_by-IsSorted : (xs : List A) → IsSorted (sort_by name xs)
  unfolding sort_by
  sort_by-IsSorted [] = tt
  sort_by-IsSorted (x ∷ xs) = place-IsSorted x (sort_by name xs) (sort_by-IsSorted xs)

  pub sort_by-perm : (xs : List A) → Perm (sort_by name xs) xs
  unfolding sort_by
  sort_by-perm [] = Perm.rfl
  sort_by-perm (x ∷ xs) =
      Perm.trans (place-perm x (sort_by name xs)) (Perm.cons x (sort_by-perm xs))
