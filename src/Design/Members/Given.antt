-- ===== src/Design/Members/Given.antt =====
-- FieldsWithStrictDirection ends where ValidateStruct has accepted.
use eddwise.Base.{
  ℕ, zero, suc, Text, text_key, Dict, get, List, [], ◌∷◌, ◌++◌, map, At, Option, none, some, ◌≡◌,
  ◌↔◌, refl, arith,
}
use eddwise.Design.{
  Direction, any, Tags, Kind, primitive, nested, ref, map_type, TypeWithAttributes, with_array,
  Fields, no_fields, field, Struct, struct,
}
use eddwise.Design.Names.{go_name}
use eddwise.Design.Members.{
  Direction-discrete, fields_of, under, both, prefixed, own, strict_ref, strict_type,
  strict_type_of, strict_fields, strict_fields_of, fields_with_strict_direction,
}
use eddwise.Design.Members.Strict.{StrictIn}
use eddwise.Design.Validate.{validate_struct}
use eddwise.Design.Validate.Names.{Uses, UsesOf, UsesInFields, UsesInStruct, UsesInStruct-both}
use eddwise.Design.Validate.Defined.{IsAccepted, IsPrimitive, Resolved, validate_struct_iff}
use eddwise.Design.Members.Found.{fields_with_strict_direction-IsRight}

abbrev Gives : Option (List Text) → Type 0
Gives r = (vs : List Text) × (r ≡ some vs)

both-Gives : (a b : Option (List Text)) → Gives a → Gives b → Gives (both a b)
both-Gives none b (xs, h) g = cc
both-Gives (some xs) none h (ys, g) = cc
both-Gives (some xs) (some ys) h g = (xs ++ ys, refl)

prefixed-Gives : (name : Text) (a : Option (List Text)) → Gives a → Gives (prefixed name a)
prefixed-Gives name none (xs, h) = cc
prefixed-Gives name (some xs) h = (map (under name) xs, refl)

own-Gives :
    (direction : Direction) (tags : Tags) (name : Text) (held : Option (List Text))
    → Gives held
    → Gives (own direction tags name held)
unfolding own
own-Gives direction tags name held (xs, h) = elim (Direction-discrete tags.direction direction) [
  | yes p ↦ (go_name name ∷ [], ground arith)
  | no p ↦ elim (Direction-discrete tags.direction any) [
    | yes q ↦ (xs, ground arith)
    | no q ↦ ([], ground arith)
  ]
]

-- Where the references of a struct are resolved to structs on which the list is given, it is given.
module _ (m : Dict Text Struct) (direction : Direction) (deeper : Struct → Option (List Text)) where
  abbrev GivenRef : Text → Type 0
  GivenRef r = (s : Struct) × (get r m ≡ some s) × Gives (deeper s)

  strict_ref-Gives : (r : Text) → GivenRef r → Gives (strict_ref m direction deeper r)
  unfolding strict_ref
  strict_ref-Gives r (s, known, (vs, h)) = (vs, rw (known, strict_ref) h)

  mutual
    unfolding strict_type Uses

    strict_type-Gives :
        (name : Text) (k : Kind)
        → Uses GivenRef IsPrimitive k
        → Gives (strict_type m direction deeper name k)
    strict_type-Gives name (primitive p) u = ([], refl)
    strict_type-Gives name (nested s) u =
        prefixed-Gives name (strict_fields_of m direction deeper s) (strict_fields_of-Gives s u)
    strict_type-Gives name (ref r) u =
        prefixed-Gives name (strict_ref m direction deeper r) (strict_ref-Gives r u)
    strict_type-Gives name (map_type key t) u = ([], refl)

    strict_type_of-Gives :
        (name : Text) (t : TypeWithAttributes)
        → UsesOf GivenRef IsPrimitive t
        → Gives (strict_type_of m direction deeper name t)
    strict_type_of-Gives name (with_array n k) u = strict_type-Gives name k u

    strict_fields-Gives :
        (fs : Fields)
        → UsesInFields GivenRef IsPrimitive fs
        → Gives (strict_fields m direction deeper fs)
    strict_fields-Gives no_fields u = ([], refl)
    strict_fields-Gives (field tags name t doc fs) u =
        both-Gives (own direction tags name (strict_type_of m direction deeper name t))
          (strict_fields m direction deeper fs)
          (own-Gives direction tags name (strict_type_of m direction deeper name t)
            (strict_type_of-Gives name t u.0))
          (strict_fields-Gives fs u.1)

    strict_fields_of-Gives :
        (s : Struct)
        → UsesInStruct GivenRef IsPrimitive s
        → Gives (strict_fields_of m direction deeper s)
    strict_fields_of-Gives (struct tags name fs doc) u = strict_fields-Gives fs u

fields_with_strict_direction-Gives :
    (m : Dict Text Struct) (direction : Direction) (n : ℕ) (s : Struct)
    → IsAccepted (validate_struct n m s)
    → Gives (fields_with_strict_direction n m direction s)
unfolding fields_with_strict_direction validate_struct
fields_with_strict_direction-Gives m direction zero s h = cc
fields_with_strict_direction-Gives m direction (suc n) s h =
    let deeper = fields_with_strict_direction n m direction in
    let uses = (validate_struct_iff m n s).0 h in
    strict_fields_of-Gives m direction deeper s (
      UsesInStruct-both (Resolved m (validate_struct n m)) (Resolved m (validate_struct n m))
        (GivenRef m direction deeper) IsPrimitive IsPrimitive
        (λ r (t, known, ok) again.
          (t, known, fields_with_strict_direction-Gives m direction n t ok))
        s uses uses)

-- On a struct that ValidateStruct accepts, FieldsWithStrictDirection ends with the same fuel and meets
-- no unresolved reference; it lists exactly the paths of Go names that lead, through unmarked fields
-- that refer to structs or hold them, to a field marked with the direction.
pub fields_with_strict_direction_lem :
    (m : Dict Text Struct) (direction : Direction) (n : ℕ) (s : Struct)
    → IsAccepted (validate_struct n m s)
    → (vs : List Text) × (fields_with_strict_direction n m direction s ≡ some vs)
      × ((v : Text) → At v vs ↔ StrictIn m direction (fields_of s) v)
fields_with_strict_direction_lem m direction n s ok =
    let (vs, h) = fields_with_strict_direction-Gives m direction n s ok in
    (vs, h, fields_with_strict_direction-IsRight m direction n s vs h)
