-- ===== src/Design/Types/Parse.antt =====
-- The notation of types is read back as it was written, and reading always ends.
use eddwise.Base.{
  ℕ, zero, suc, Text, [], ◌∷◌, ◌++◌, Option, none, some, ◌≡◌, refl, sym, arith, ℕ_discrete,
  Option-cases, inl, inr,
}
use eddwise.Design.{Kind, primitive, nested, ref, map_type, TypeWithAttributes, with_array}
use eddwise.Design.Types.{
  ParsedType, parsed, bad_key, strip_plus, after_arrow, cut_arrow, leaf, in_map, under_key,
  parse_field_string_type,
}

-- The notation of a type; a nested struct has none.
unfoldable pub plusses : ℕ → Text → Text
plusses zero s = s
plusses (suc n) s = b'+' ∷ plusses n s

unfoldable mutual
  pub notation : TypeWithAttributes → Text
  notation (with_array n k) = plusses n (notation_of_kind k)

  pub notation_of_kind : Kind → Text
  notation_of_kind (primitive p) = p
  notation_of_kind (nested s) = []
  notation_of_kind (ref r) = b'.' ∷ r
  notation_of_kind (map_type key t) = key ++ b'-' ∷ b'>' ∷ notation t

pub plusses-strip : (s : Text) → plusses (strip_plus s).0 (strip_plus s).1 ≡ s
unfolding plusses strip_plus
plusses-strip [] = refl
plusses-strip (x ∷ s) = ground (arith, plusses-strip s)

after_arrow-text : (s rest : Text) → after_arrow s ≡ some rest → s ≡ b'-' ∷ b'>' ∷ rest
unfolding after_arrow
after_arrow-text [] rest h = cc
after_arrow-text (x ∷ []) rest h = cc
after_arrow-text (x ∷ y ∷ s) rest h = ground arith

pub cut_arrow-text :
    (s key rest : Text) → cut_arrow s ≡ some (key, rest) → s ≡ key ++ b'-' ∷ b'>' ∷ rest
unfolding cut_arrow
cut_arrow-text [] key rest h = cc
cut_arrow-text (x ∷ s) key rest h = elim (Option-cases (after_arrow (x ∷ s))) [
  | inr (r, e) ↦ let same = after_arrow-text (x ∷ s) r e in ground (arith, same)
  | inl e ↦ elim (Option-cases (cut_arrow s)) [
    | inl f ↦ ground arith
    | inr ((k, r), f) ↦ let same = cut_arrow-text s k r f in ground (arith, same)
  ]
]

leaf-notation : (s : Text) → notation_of_kind (leaf s) ≡ s
unfolding leaf notation
leaf-notation [] = refl
leaf-notation (x ∷ s) = ground arith

in_map-parsed :
    (array : ℕ) (key : Text) (r : Option ParsedType) (t : TypeWithAttributes)
    → in_map array key r ≡ some (parsed t)
    → (u : TypeWithAttributes) × (r ≡ some (parsed u)) × (t ≡ with_array array (map_type key u))
unfolding in_map
in_map-parsed array key none t h = cc
in_map-parsed array key (some (bad_key k)) t h = cc
in_map-parsed array key (some (parsed u)) t h = (u, refl, cc)

under_key-parsed :
    (array : ℕ) (key : Text) (r : Option ParsedType) (t : TypeWithAttributes)
    → under_key array key r ≡ some (parsed t)
    → (u : TypeWithAttributes) × (r ≡ some (parsed u)) × (t ≡ with_array array (map_type key u))
unfolding under_key
under_key-parsed array [] r t h = in_map-parsed array [] r t h
under_key-parsed array (x ∷ key) r t h = elim (ℕ_discrete x b'.') [
  | yes p ↦ absurd (ground arith)
  | no p ↦ in_map-parsed array (x ∷ key) r t (ground arith)
]

-- Whatever text is read as a type is the notation of that type.
pub notation-parse :
    (n : ℕ) (value : Text) (t : TypeWithAttributes)
    → parse_field_string_type n value ≡ some (parsed t)
    → notation t ≡ value
unfolding parse_field_string_type notation
notation-parse zero value t h = cc
notation-parse (suc n) value t h = elim (Option-cases (cut_arrow (strip_plus value).1)) [
  | inl e ↦
      let same : t ≡ with_array (strip_plus value).0 (leaf (strip_plus value).1) = ground arith in
      rw (same, leaf-notation (strip_plus value).1) (plusses-strip value)
  | inr ((key, rest), e) ↦
      let (u, deeper, same) =
        under_key-parsed (strip_plus value).0 key (parse_field_string_type n rest) t
          (ground arith) in
      rw
        (same, notation-parse n rest u deeper, sym (cut_arrow-text (strip_plus value).1 key rest e))
        (plusses-strip value)
]
