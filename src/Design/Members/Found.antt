-- ===== src/Design/Members/Found.antt =====
-- FieldsWithStrictDirection lists every marked field.
use eddwise.Base.{
  ℕ, zero, suc, Text, text_key, Dict, List, At, here, At-append_left, At-append_right, Option, some,
  ◌≡◌, ◌≢◌, inl, inr, refl, subst, arith,
}
use eddwise.Design.{Direction, any, Tags, Fields, Struct, struct}
use eddwise.Design.Names.{go_name}
use eddwise.Design.Members.{
  fields_of, under, prefixed, own, strict_ref, strict_type, strict_type_of, strict_fields,
  strict_fields_of, fields_with_strict_direction,
}
use eddwise.Design.Members.Strict.{
  StrictIn, marked, in_ref, in_nested, later, both-some, prefixed-some, At-map_of, own-cases,
  IsRight, strict_ref-some, strict_fields_of-listed,
}

-- An unmarked field adds what its type holds.
own-held :
    (direction : Direction) (tags : Tags) (name : Text) (held : Option (List Text)) (xs : List Text)
    → own direction tags name held ≡ some xs
    → tags.direction ≢ direction
    → tags.direction ≡ any
    → held ≡ some xs
own-held direction tags name held xs h other unmarked =
    elim (own-cases direction tags name held xs h) [
      | inl (p, one) ↦ absurd (other p)
      | inr (p, inl (q, found)) ↦ found
      | inr (p, inr (q, empty)) ↦ absurd (q unmarked)
    ]

own-marked :
    (direction : Direction) (tags : Tags) (name : Text) (held : Option (List Text)) (xs : List Text)
    → own direction tags name held ≡ some xs
    → tags.direction ≡ direction
    → At (go_name name) xs
own-marked direction tags name held xs h same = elim (own-cases direction tags name held xs h) [
  | inl (p, one) ↦ subst (At (go_name name)) one (here refl)
  | inr (p, more) ↦ absurd (p same)
]

module _ (m : Dict Text Struct) (direction : Direction) (deeper : Struct → Option (List Text))
    (right : IsRight m direction deeper) where
  fields_of-some :
      (s : Struct) (us : List Text)
      → strict_fields_of m direction deeper s ≡ some us
      → strict_fields m direction deeper (fields_of s) ≡ some us
  unfolding strict_type
  fields_of-some (struct tags name fs doc) us h = h

  strict_fields_complete :
      (fs : Fields) (w : Text)
      → StrictIn m direction fs w
      → (vs : List Text) → strict_fields m direction deeper fs ≡ some vs
      → At w vs
  unfolding strict_type
  strict_fields_complete _ w (marked tags name t doc fs _ same named) vs h =
      let held = strict_type_of m direction deeper name t in
      let (xs, ys, e, f, joined) =
        both-some (own direction tags name held) (strict_fields m direction deeper fs) vs h in
      subst (λ x. At x vs) named
        (subst (At (go_name name)) joined
          (At-append_left (go_name name) xs ys (own-marked direction tags name held xs e same)))
  strict_fields_complete _ w (in_ref tags name a r doc fs s v _ other unmarked known inner path) vs
        h =
      let held = prefixed name (strict_ref m direction deeper r) in
      let (xs, ys, e, f, joined) =
        both-some (own direction tags name held) (strict_fields m direction deeper fs) vs h in
      let (us, g, mapped) =
        prefixed-some name (strict_ref m direction deeper r) xs
          (own-held direction tags name held xs e other unmarked) in
      let (t, known', found) = strict_ref-some m direction deeper right r us g in
      let same : t ≡ s = ground arith in
      let at = (right s us (subst (λ x. deeper x ≡ some us) same found) v).1 inner in
      subst (λ x. At x vs) path
        (subst (At (under name v)) joined (
          At-append_left (under name v) xs ys
            (subst (At (under name v)) mapped (At-map_of (under name) v us at))))
  strict_fields_complete _ w (in_nested tags name a doc fs s v _ other unmarked inner path) vs h =
      let held = prefixed name (strict_fields_of m direction deeper s) in
      let (xs, ys, e, f, joined) =
        both-some (own direction tags name held) (strict_fields m direction deeper fs) vs h in
      let (us, g, mapped) =
        prefixed-some name (strict_fields_of m direction deeper s) xs
          (own-held direction tags name held xs e other unmarked) in
      let at = strict_fields_complete (fields_of s) v inner us (fields_of-some s us g) in
      subst (λ x. At x vs) path
        (subst (At (under name v)) joined (
          At-append_left (under name v) xs ys
            (subst (At (under name v)) mapped (At-map_of (under name) v us at))))
  strict_fields_complete _ w (later tags name t doc fs _ inner) vs h =
      let held = strict_type_of m direction deeper name t in
      let (xs, ys, e, f, joined) =
        both-some (own direction tags name held) (strict_fields m direction deeper fs) vs h in
      subst (At w) joined (At-append_right w xs ys (strict_fields_complete fs w inner ys f))

pub fields_with_strict_direction-IsRight :
    (m : Dict Text Struct) (direction : Direction) (n : ℕ)
    → IsRight m direction (fields_with_strict_direction n m direction)
unfolding fields_with_strict_direction
fields_with_strict_direction-IsRight m direction zero s vs h v = cc
fields_with_strict_direction-IsRight m direction (suc n) s vs h v =
    let deeper = fields_with_strict_direction n m direction in
    let right = fields_with_strict_direction-IsRight m direction n in
    (
      strict_fields_of-listed m direction deeper right s vs h v,
      λ strict.
          strict_fields_complete m direction deeper right (fields_of s) v strict vs
            (fields_of-some m direction deeper right s vs h),
    )
