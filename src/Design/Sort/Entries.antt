-- ===== src/Design/Sort/Entries.antt =====
-- Sorting keeps the entries of a list, and leaves their labels distinct.
use eddwise.Base.{
  Text, text_key, Dict, get, At, here, there, Distinct, At-get, get-At, List, [], ◌∷◌, map, none,
  ◌≡◌, ◌≢◌, ◌↔◌, refl, sym, ap, subst, ◌∙◌, arith, Bool-cases, Option-cases, inl, inr,
}
use eddwise.Design.Sort.{text_lt, place, sort_by}

-- The place of an item in a sorted list does not matter for what the labels lead to.
module _ {A : Type 0} {V : Type 0} (name : A → Text) (lab : A → Text × V) where
  place-absent :
      (k : Text) (x : A) (ys : List A)
      → (lab x).0 ≢ k
      → get k (map lab ys) ≡ none
      → get k (map lab (place name x ys)) ≡ none
  unfolding get place
  place-absent k x [] other h = ground arith
  place-absent k x (y ∷ ys) other h = elim (Bool-cases (text_lt (name y) (name x))) [
    | inl e ↦ ground (arith, place-absent k x ys other)
    | inr e ↦ ground arith
  ]

  place-Distinct :
      (x : A) (ys : List A)
      → get (lab x).0 (map lab ys) ≡ none
      → Distinct (map lab ys)
      → Distinct (map lab (place name x ys))
  unfolding get place
  place-Distinct x [] h d = (refl, tt)
  place-Distinct x (y ∷ ys) h d = elim (Bool-cases (text_lt (name y) (name x))) [
    | inl e ↦
        rw (e, place)
          (
            place-absent (lab y).0 x ys (λ same. ground arith) d.0,
            place-Distinct x ys (ground arith) d.1,
          )
    | inr e ↦ rw (e, place) (h, d)
  ]

  sort_by-absent :
      (k : Text) (xs : List A)
      → get k (map lab xs) ≡ none
      → get k (map lab (sort_by name xs)) ≡ none
  unfolding get sort_by
  sort_by-absent k [] h = refl
  sort_by-absent k (x ∷ xs) h =
      place-absent k x (sort_by name xs) (λ same. ground arith) (sort_by-absent k xs (ground arith))

  pub sort_by-Distinct :
      (xs : List A) → Distinct (map lab xs) → Distinct (map lab (sort_by name xs))
  unfolding sort_by
  sort_by-Distinct [] d = tt
  sort_by-Distinct (x ∷ xs) d =
      place-Distinct x (sort_by name xs) (sort_by-absent (lab x).0 xs d.0) (sort_by-Distinct xs d.1)

module _ {A : Type 0} (name : A → Text) where
  At-place : (a x : A) (ys : List A) → At a (place name x ys) ↔ At a (x ∷ ys)
  unfolding place
  At-place a x [] = (λ m. m, λ m. m)
  At-place a x (y ∷ ys) = elim (Bool-cases (text_lt (name y) (name x))) [
    | inl e ↦
        rw (e, place)
          (
            λ m. elim m [
              | here p ↦ there (here p)
              | there q ↦ elim ((At-place a x ys).0 q) [
                | here p ↦ here p
                | there r ↦ there (there r)
              ]
            ],
            λ m. elim m [
              | here p ↦ there ((At-place a x ys).1 (here p))
              | there q ↦ elim q [
                | here p ↦ here p
                | there r ↦ there ((At-place a x ys).1 (there r))
              ]
            ],
          )
    | inr e ↦ rw (e, place) (λ m. m, λ m. m)
  ]

  pub At-sort_by : (a : A) (xs : List A) → At a (sort_by name xs) ↔ At a xs
  unfolding sort_by
  At-sort_by a [] = (λ m. m, λ m. m)
  At-sort_by a (x ∷ xs) = (
    λ m. elim ((At-place a x (sort_by name xs)).0 m) [
      | here p ↦ here p
      | there q ↦ there ((At-sort_by a xs).0 q)
    ],
    λ m.
        (At-place a x (sort_by name xs)).1
          (elim m [ here p ↦ here p | there q ↦ there ((At-sort_by a xs).1 q) ]),
  )

module _ {V : Type 0} where
  abbrev key : Text × V → Text
  key e = e.0

  itself : (m : Dict Text V) → map (λ (e : Text × V). e) m ≡ m
  itself [] = refl
  itself (e ∷ m) = ap (λ rest. e ∷ rest) (itself m)

  pub sorted-Distinct : (m : Dict Text V) → Distinct m → Distinct (sort_by key m)
  sorted-Distinct m d =
      subst Distinct (itself (sort_by key m))
        (sort_by-Distinct key (λ e. e) m (subst Distinct (sym (itself m)) d))

  pub get-sort_by : (k : Text) (m : Dict Text V) → Distinct m → get k (sort_by key m) ≡ get k m
  get-sort_by k m d = elim (Option-cases (get k m)) [
    | inr (v, e) ↦
        get-At k v (sort_by key m) (sorted-Distinct m d)
          ((At-sort_by key (k, v) m).1 (At-get k v m e))
        ∙ sym e
    | inl e ↦ elim (Option-cases (get k (sort_by key m))) [
      | inl f ↦ f ∙ sym e
      | inr (v, f) ↦
          let found = get-At k v m d ((At-sort_by key (k, v) m).0 (At-get k v (sort_by key m) f)) in
          cc
    ]
  ]
