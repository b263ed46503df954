-- ===== src/Design/Types.antt =====
-- ParseFieldStringType (eddgen_yml.go): the notation of a field's type, such as "++string->+.Player".
pub mod Parse
pub mod Readback
mod Tests
use eddwise.Base.{ℕ, zero, suc, Text, List, [], ◌∷◌, Option, none, some, ite, ℕ_discrete}
use eddwise.Design.{Kind, primitive, ref, map_type, TypeWithAttributes, with_array}

pub data ParsedType : Type 0 where
  parsed : TypeWithAttributes → ParsedType
  bad_key : Text → ParsedType

-- The plus signs in front, and what follows them.
unfoldable pub strip_plus : Text → ℕ × Text
strip_plus [] = (0, [])
strip_plus (x ∷ s) =
    let rest = strip_plus s in ite (ℕ_discrete x b'+') (suc rest.0, rest.1) (0, x ∷ s)

-- What follows "->" where the text begins with it.
unfoldable pub after_arrow : Text → Option Text
after_arrow [] = none
after_arrow (x ∷ []) = none
after_arrow (x ∷ y ∷ s) = ite (ℕ_discrete x b'-') (ite (ℕ_discrete y b'>') (some s) none) none

-- The text before the first "->" and the text after it.
unfoldable pub cut_arrow : Text → Option (Text × Text)
unfolding after_arrow
cut_arrow [] = none
cut_arrow (x ∷ s) =
    let later = cut_arrow s in
    elim (after_arrow (x ∷ s)) [
      | some rest ↦ some ([], rest)
      | none ↦ elim later [ none ↦ none | some (key, rest) ↦ some (x ∷ key, rest) ]
    ]

unfoldable pub leaf : Text → Kind
leaf [] = primitive []
leaf (x ∷ s) = ite (ℕ_discrete x b'.') (ref s) (primitive (x ∷ s))

-- What becomes of the value's type under a key.
unfoldable pub in_map : ℕ → Text → Option ParsedType → Option ParsedType
in_map array key none = none
in_map array key (some (bad_key k)) = some (bad_key k)
in_map array key (some (parsed t)) = some (parsed (with_array array (map_type key t)))

-- `deeper` is the result for the value's type.
unfoldable pub under_key : ℕ → Text → Option ParsedType → Option ParsedType
unfolding in_map
under_key array [] deeper = in_map array [] deeper
under_key array (x ∷ key) deeper =
    ite (ℕ_discrete x b'.') (some (bad_key (x ∷ key))) (in_map array (x ∷ key) deeper)

-- ParseFieldStringType; `none` is the end of the fuel.
unfoldable pub parse_field_string_type : ℕ → Text → Option ParsedType
unfolding strip_plus cut_arrow leaf under_key
parse_field_string_type zero value = none
parse_field_string_type (suc n) value = elim (cut_arrow (strip_plus value).1) [
  | none ↦ some (parsed (with_array (strip_plus value).0 (leaf (strip_plus value).1)))
  | some (key, rest) ↦ under_key (strip_plus value).0 key (parse_field_string_type n rest)
]
