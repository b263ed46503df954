-- ===== src/Design/Members/Unnested.antt =====
-- UnnestFieldMap lists each field of a struct and of its nested structs, under its path.
use eddwise.Base.{
  ℕ, Text, List, [], ◌∷◌, map, At, here, there, At-append, At-append_left, At-append_right, ◌≡◌,
  ◌↔◌, inl, inr, refl, sym, ap, subst,
}
use eddwise.Design.{
  Tags, Kind, primitive, nested, ref, map_type, TypeWithAttributes, with_array, Fields, no_fields,
  field, Struct, struct,
}
use eddwise.Design.Members.{
  FieldWithPath, within, fields_of, unnest_type, unnest_type_of, unnest_fields, unnest_field_map,
}

-- The path leads to the field: the field itself, or one of the nested struct that a field holds.
pub data LeadsTo : Fields → FieldWithPath → Type 0 where
  itself :
      (tags : Tags) (name : Text) (t : TypeWithAttributes) (doc : Text) (fs : Fields)
      (f : FieldWithPath)
      → record { field = record { tags = tags; name = name; type = t; doc = doc }; path = name } ≡ f
      → LeadsTo (field tags name t doc fs) f
  inside :
      (tags : Tags) (name : Text) (a : ℕ) (doc : Text) (fs : Fields) (s : Struct)
      (f g : FieldWithPath)
      → LeadsTo (fields_of s) f
      → within name f ≡ g
      → LeadsTo (field tags name (with_array a (nested s)) doc fs) g
  later :
      (tags : Tags) (name : Text) (t : TypeWithAttributes) (doc : Text) (fs : Fields)
      (f : FieldWithPath)
      → LeadsTo fs f
      → LeadsTo (field tags name t doc fs) f

At-mapped :
    (h : FieldWithPath → FieldWithPath) (g : FieldWithPath) (fs : List FieldWithPath)
    → At g (map h fs)
    → (f : FieldWithPath) × At f fs × (h f ≡ g)
At-mapped h g [] a = elim a [ ]
At-mapped h g (f ∷ fs) (here e) = (f, here refl, e)
At-mapped h g (f ∷ fs) (there a) = let (u, at, e) = At-mapped h g fs a in (u, there at, e)

At-mapped_of :
    (h : FieldWithPath → FieldWithPath) (f : FieldWithPath) (fs : List FieldWithPath)
    → At f fs
    → At (h f) (map h fs)
At-mapped_of h f [] a = elim a [ ]
At-mapped_of h f (g ∷ fs) (here e) = here (ap h e)
At-mapped_of h f (g ∷ fs) (there a) = there (At-mapped_of h f fs a)

mutual
  unfolding unnest_field_map

  unnest_type-LeadsTo :
      (tags : Tags) (name doc : Text) (a : ℕ) (fs : Fields) (f : FieldWithPath)
      → (k : Kind) → At f (unnest_type name k)
      → LeadsTo (field tags name (with_array a k) doc fs) f
  unnest_type-LeadsTo tags name doc a fs f (primitive p) at = elim at [ ]
  unnest_type-LeadsTo tags name doc a fs f (nested s) at =
      let (g, inner, e) = At-mapped (within name) f (unnest_field_map s) at in
      inside tags name a doc fs s g f (unnest_field_map-LeadsTo s g inner) e
  unnest_type-LeadsTo tags name doc a fs f (ref r) at = elim at [ ]
  unnest_type-LeadsTo tags name doc a fs f (map_type key t) at = elim at [ ]

  unnest_type_of-LeadsTo :
      (tags : Tags) (name doc : Text) (fs : Fields) (f : FieldWithPath)
      → (t : TypeWithAttributes) → At f (unnest_type_of name t)
      → LeadsTo (field tags name t doc fs) f
  unnest_type_of-LeadsTo tags name doc fs f (with_array a k) at =
      unnest_type-LeadsTo tags name doc a fs f k at

  unnest_fields-LeadsTo : (fs : Fields) (f : FieldWithPath) → At f (unnest_fields fs) → LeadsTo fs f
  unnest_fields-LeadsTo no_fields f at = elim at [ ]
  unnest_fields-LeadsTo (field tags name t doc fs) f (here e) = itself tags name t doc fs f e
  unnest_fields-LeadsTo (field tags name t doc fs) f (there at) =
      elim (At-append f (unnest_type_of name t) (unnest_fields fs) at) [
        | inl front ↦ unnest_type_of-LeadsTo tags name doc fs f t front
        | inr after ↦ later tags name t doc fs f (unnest_fields-LeadsTo fs f after)
      ]

  unnest_field_map-LeadsTo :
      (s : Struct) (f : FieldWithPath) → At f (unnest_field_map s) → LeadsTo (fields_of s) f
  unnest_field_map-LeadsTo (struct tags name fs doc) f at = unnest_fields-LeadsTo fs f at

unnest_fields_of : (s : Struct) → unnest_field_map s ≡ unnest_fields (fields_of s)
unfolding unnest_field_map
unnest_fields_of (struct tags name fs doc) = refl

LeadsTo-unnest : (fs : Fields) (f : FieldWithPath) → LeadsTo fs f → At f (unnest_fields fs)
unfolding unnest_field_map
LeadsTo-unnest _ f (itself tags name t doc fs _ e) = here e
LeadsTo-unnest _ g (inside tags name a doc fs s f _ inner e) =
    let at = LeadsTo-unnest (fields_of s) f inner in
    there (
      At-append_left g (map (within name) (unnest_field_map s)) (unnest_fields fs) (
        subst (λ x. At x (map (within name) (unnest_field_map s))) e
          (At-mapped_of (within name) f (unnest_field_map s)
            (subst (At f) (sym (unnest_fields_of s)) at))))
LeadsTo-unnest _ f (later tags name t doc fs _ inner) =
    there (At-append_right f (unnest_type_of name t) (unnest_fields fs) (LeadsTo-unnest fs f inner))

-- UnnestFieldMap lists exactly the fields of the struct and those of the structs nested in it at any
-- depth, each under its path of names; it follows no reference and looks into no map.
pub unnest_field_map_iff :
    (s : Struct) (f : FieldWithPath) → At f (unnest_field_map s) ↔ LeadsTo (fields_of s) f
unnest_field_map_iff s f = (
  unnest_field_map-LeadsTo s f,
  λ h. subst (At f) (sym (unnest_fields_of s)) (LeadsTo-unnest (fields_of s) f h),
)
