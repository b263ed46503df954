-- ===== src/Design/Members/Strict.antt =====
-- Which fields FieldsWithStrictDirection lists, and that it ends where Validate has accepted.
use eddwise.Base.{
  ℕ, Text, text_key, Dict, get, List, [], ◌∷◌, ◌++◌, map, At, here, there, At-append, Option, none,
  some, ◌≡◌, ◌≢◌, ◌⊎◌, ◌↔◌, inl, inr, refl, sym, ap, subst, arith, Option-cases,
}
use eddwise.Design.{
  Direction, any, Tags, Kind, primitive, nested, ref, map_type, TypeWithAttributes, with_array,
  Fields, no_fields, field, Struct, struct,
}
use eddwise.Design.Names.{go_name}
use eddwise.Design.Members.{
  Direction-discrete, fields_of, under, both, prefixed, own, strict_ref, strict_type,
  strict_type_of, strict_fields, strict_fields_of,
}

-- A field of the list is marked with the direction, or lies in a struct that an unmarked field refers
-- to or holds; its name is the path of Go names.
pub data StrictIn (m : Dict Text Struct) (direction : Direction) : Fields → Text → Type 0 where
  marked :
      (tags : Tags) (name : Text) (t : TypeWithAttributes) (doc : Text) (fs : Fields) (w : Text)
      → tags.direction ≡ direction
      → go_name name ≡ w
      → StrictIn m direction (field tags name t doc fs) w
  in_ref :
      (tags : Tags) (name : Text) (a : ℕ) (r doc : Text) (fs : Fields) (s : Struct) (v w : Text)
      → tags.direction ≢ direction
      → tags.direction ≡ any
      → get r m ≡ some s
      → StrictIn m direction (fields_of s) v
      → under name v ≡ w
      → StrictIn m direction (field tags name (with_array a (ref r)) doc fs) w
  in_nested :
      (tags : Tags) (name : Text) (a : ℕ) (doc : Text) (fs : Fields) (s : Struct) (v w : Text)
      → tags.direction ≢ direction
      → tags.direction ≡ any
      → StrictIn m direction (fields_of s) v
      → under name v ≡ w
      → StrictIn m direction (field tags name (with_array a (nested s)) doc fs) w
  later :
      (tags : Tags) (name : Text) (t : TypeWithAttributes) (doc : Text) (fs : Fields) (w : Text)
      → StrictIn m direction fs w
      → StrictIn m direction (field tags name t doc fs) w

pub both-some :
    (a b : Option (List Text)) (vs : List Text)
    → both a b ≡ some vs
    → (xs : List Text) × (ys : List Text) × (a ≡ some xs) × (b ≡ some ys) × (xs ++ ys ≡ vs)
both-some none b vs h = cc
both-some (some xs) none vs h = cc
both-some (some xs) (some ys) vs h = (xs, ys, refl, refl, cc)

pub prefixed-some :
    (name : Text) (a : Option (List Text)) (vs : List Text)
    → prefixed name a ≡ some vs
    → (us : List Text) × (a ≡ some us) × (map (under name) us ≡ vs)
prefixed-some name none vs h = cc
prefixed-some name (some us) vs h = (us, refl, cc)

At-map :
    (f : Text → Text) (w : Text) (us : List Text)
    → At w (map f us)
    → (u : Text) × At u us × (f u ≡ w)
At-map f w [] a = elim a [ ]
At-map f w (u ∷ us) (here e) = (u, here refl, e)
At-map f w (u ∷ us) (there a) = let (v, at, e) = At-map f w us a in (v, there at, e)

pub At-map_of : (f : Text → Text) (u : Text) (us : List Text) → At u us → At (f u) (map f us)
At-map_of f u [] a = elim a [ ]
At-map_of f u (v ∷ us) (here e) = here (ap f e)
At-map_of f u (v ∷ us) (there a) = there (At-map_of f u us a)

At-one : (x w : Text) → At w (x ∷ []) → x ≡ w
At-one x w (here e) = e
At-one x w (there a) = elim a [ ]

-- The three outcomes of one field.
pub own-cases :
    (direction : Direction) (tags : Tags) (name : Text) (held : Option (List Text)) (xs : List Text)
    → own direction tags name held ≡ some xs
    → ((tags.direction ≡ direction) × (go_name name ∷ [] ≡ xs))
      ⊎ ((tags.direction ≢ direction)
          × (((tags.direction ≡ any) × (held ≡ some xs)) ⊎ ((tags.direction ≢ any) × ([] ≡ xs))))
unfolding own
own-cases direction tags name held xs h = elim (Direction-discrete tags.direction direction) [
  | yes p ↦ inl (p, ground arith)
  | no p ↦ elim (Direction-discrete tags.direction any) [
    | yes q ↦ inr (p, inl (q, ground arith))
    | no q ↦ inr (p, inr (q, ground arith))
  ]
]

-- The list of a struct that a reference leads to is right.
abbrev pub IsRight : Dict Text Struct → Direction → (Struct → Option (List Text)) → Type 0
IsRight m direction deeper =
    (s : Struct) (vs : List Text)
    → deeper s ≡ some vs
    → (v : Text) → At v vs ↔ StrictIn m direction (fields_of s) v

pub At-none :
    (w : Text) (vs : List Text) → ◌≡◌ {A = Option (List Text)} (some []) (some vs) → ¬ At w vs
At-none w [] h a = elim a [ ]
At-none w (v ∷ vs) h a = cc

module _ (m : Dict Text Struct) (direction : Direction) (deeper : Struct → Option (List Text))
    (right : IsRight m direction deeper) where
  pub strict_ref-some :
      (r : Text) (us : List Text)
      → strict_ref m direction deeper r ≡ some us
      → (s : Struct) × (get r m ≡ some s) × (deeper s ≡ some us)
  unfolding strict_ref
  strict_ref-some r us h = elim (Option-cases (get r m)) [
    | inl e ↦ absurd (ground arith)
    | inr (s, e) ↦ (s, e, ground arith)
  ]

  mutual
    unfolding strict_type

    strict_type-listed :
        (tags : Tags) (name doc w : Text) (a : ℕ) (fs : Fields)
        → tags.direction ≢ direction
        → tags.direction ≡ any
        → (k : Kind) (vs : List Text) → strict_type m direction deeper name k ≡ some vs
        → At w vs
        → StrictIn m direction (field tags name (with_array a k) doc fs) w
    strict_type-listed tags name doc w a fs other unmarked (primitive p) vs h at =
        absurd (At-none w vs h at)
    strict_type-listed tags name doc w a fs other unmarked (nested s) vs h at =
        let (us, e, same) = prefixed-some name (strict_fields_of m direction deeper s) vs h in
        let (u, held, path) = At-map (under name) w us (subst (At w) (sym same) at) in
        in_nested tags name a doc fs s u w other unmarked (strict_fields_of-listed s us e u held)
          path
    strict_type-listed tags name doc w a fs other unmarked (ref r) vs h at =
        let (us, e, same) = prefixed-some name (strict_ref m direction deeper r) vs h in
        let (s, known, found) = strict_ref-some r us e in
        let (u, held, path) = At-map (under name) w us (subst (At w) (sym same) at) in
        in_ref tags name a r doc fs s u w other unmarked known ((right s us found u).0 held) path
    strict_type-listed tags name doc w a fs other unmarked (map_type key t) vs h at =
        absurd (At-none w vs h at)

    strict_type_of-listed :
        (tags : Tags) (name doc w : Text) (fs : Fields)
        → tags.direction ≢ direction
        → tags.direction ≡ any
        → (t : TypeWithAttributes) (vs : List Text)
        → strict_type_of m direction deeper name t ≡ some vs
        → At w vs
        → StrictIn m direction (field tags name t doc fs) w
    strict_type_of-listed tags name doc w fs other unmarked (with_array a k) vs h at =
        strict_type-listed tags name doc w a fs other unmarked k vs h at

    strict_fields-listed :
        (fs : Fields) (vs : List Text)
        → strict_fields m direction deeper fs ≡ some vs
        → (w : Text) → At w vs
        → StrictIn m direction fs w
    strict_fields-listed no_fields vs h w at = absurd (At-none w vs h at)
    strict_fields-listed (field tags name t doc fs) vs h w at =
        let held = strict_type_of m direction deeper name t in
        let (xs, ys, e, f, same) =
          both-some (own direction tags name held) (strict_fields m direction deeper fs) vs h in
        elim (At-append w xs ys (subst (At w) (sym same) at)) [
          | inr after ↦ later tags name t doc fs w (strict_fields-listed fs ys f w after)
          | inl front ↦ elim (own-cases direction tags name held xs e) [
            | inl (p, one) ↦
                marked tags name t doc fs w p
                  (At-one (go_name name) w (subst (At w) (sym one) front))
            | inr (p, inl (q, found)) ↦
                strict_type_of-listed tags name doc w fs p q t xs found front
            | inr (p, inr (q, empty)) ↦ absurd (At-none w xs (ap some empty) front)
          ]
        ]

    pub strict_fields_of-listed :
        (s : Struct) (vs : List Text)
        → strict_fields_of m direction deeper s ≡ some vs
        → (w : Text) → At w vs
        → StrictIn m direction (fields_of s) w
    strict_fields_of-listed (struct tags name fs doc) vs h w at = strict_fields-listed fs vs h w at
