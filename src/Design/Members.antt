-- ===== src/Design/Members.antt =====
-- The fields of a struct as the templates read them (structs.go): TopFieldsWithStrictDirection,
-- FieldsWithStrictDirection and UnnestFieldMap. The pointer of a reference, which Validate stores, is
-- looked up in the map of structs; `none` is a nil pointer there, or the end of the fuel.
pub mod Found
pub mod Given
pub mod Strict
mod Unnested
mod Tests
use eddwise.Base.{
  ℕ, zero, suc, Text, codes, text_key, Dict, get, List, [], ◌∷◌, ◌++◌, map, Option, none, some, ite,
}
use eddwise.Design.{
  Direction, any, server_to_client, client_to_server, Tags, Kind, primitive, nested, ref, map_type,
  TypeWithAttributes, with_array, Fields, no_fields, field, Struct, struct,
}
use eddwise.Design.Names.{go_name}

abbrev pub Direction-discrete : Discrete Direction
Direction-discrete = hlevel

-- A pointer to a field: what the field holds.
pub record Field : Type 0 where
  pub tags : Tags
  pub name : Text
  pub type : TypeWithAttributes
  pub doc : Text

abbrev pub fields_of : Struct → Fields
fields_of (struct tags name fs doc) = fs

unfoldable pub top_fields : Direction → Fields → List Field
top_fields direction no_fields = []
top_fields direction (field tags name t doc fs) =
    let rest = top_fields direction fs in
    ite (Direction-discrete tags.direction direction)
      (record { tags = tags; name = name; type = t; doc = doc } ∷ rest) rest

-- Struct.TopFieldsWithStrictDirection.
unfoldable pub top_fields_with_strict_direction : Direction → Struct → List Field
unfolding top_fields
top_fields_with_strict_direction direction s = top_fields direction (fields_of s)

-- The names of a struct's fields under the field that holds it.
unfoldable pub under : Text → Text → Text
under name v = go_name name ++ (b'.' ∷ v)

abbrev pub both : Option (List Text) → Option (List Text) → Option (List Text)
both none rest = none
both (some xs) none = none
both (some xs) (some ys) = some (xs ++ ys)

abbrev pub prefixed : Text → Option (List Text) → Option (List Text)
prefixed name none = none
prefixed name (some vs) = some (map (under name) vs)

-- What one field adds: its own name, or what its type holds.
unfoldable pub own : Direction → Tags → Text → Option (List Text) → Option (List Text)
own direction tags name held =
    ite (Direction-discrete tags.direction direction) (some (go_name name ∷ []))
      (ite (Direction-discrete tags.direction any) held (some []))

module _ (structs : Dict Text Struct) (direction : Direction)
    (deeper : Struct → Option (List Text)) where
  unfoldable pub strict_ref : Text → Option (List Text)
  strict_ref r = elim (get r structs) [ none ↦ none | some s ↦ deeper s ]

  -- FieldsWithStrictDirection, as far as no reference is followed.
  unfoldable mutual
    unfolding strict_ref own

    pub strict_type : Text → Kind → Option (List Text)
    strict_type name (primitive p) = some []
    strict_type name (nested s) = prefixed name (strict_fields_of s)
    strict_type name (ref r) = prefixed name (strict_ref r)
    strict_type name (map_type key t) = some []

    pub strict_type_of : Text → TypeWithAttributes → Option (List Text)
    strict_type_of name (with_array n k) = strict_type name k

    pub strict_fields : Fields → Option (List Text)
    strict_fields no_fields = some []
    strict_fields (field tags name t doc fs) =
        both (own direction tags name (strict_type_of name t)) (strict_fields fs)

    pub strict_fields_of : Struct → Option (List Text)
    strict_fields_of (struct tags name fs doc) = strict_fields fs

-- Struct.FieldsWithStrictDirection.
unfoldable pub fields_with_strict_direction :
    ℕ → Dict Text Struct → Direction → Struct → Option (List Text)
unfolding strict_type
fields_with_strict_direction zero m direction s = none
fields_with_strict_direction (suc n) m direction s =
    strict_fields_of m direction (fields_with_strict_direction n m direction) s

-- FieldWithPath.
pub record FieldWithPath : Type 0 where
  pub field : Field
  pub path : Text

abbrev pub within : Text → FieldWithPath → FieldWithPath
within name f = record f { path = name ++ (b'.' ∷ f.path) }

-- Struct.UnnestFieldMap.
unfoldable mutual
  pub unnest_type : Text → Kind → List FieldWithPath
  unnest_type name (primitive p) = []
  unnest_type name (nested s) = map (within name) (unnest_field_map s)
  unnest_type name (ref r) = []
  unnest_type name (map_type key t) = []

  pub unnest_type_of : Text → TypeWithAttributes → List FieldWithPath
  unnest_type_of name (with_array n k) = unnest_type name k

  pub unnest_fields : Fields → List FieldWithPath
  unnest_fields no_fields = []
  unnest_fields (field tags name t doc fs) =
      record { field = record { tags = tags; name = name; type = t; doc = doc }; path = name }
      ∷ (unnest_type_of name t ++ unnest_fields fs)

  pub unnest_field_map : Struct → List FieldWithPath
  unnest_field_map (struct tags name fs doc) = unnest_fields fs
