-- ===== src/Design/Types/Readback.antt =====
-- The notation of a type reads back as that type, and the reading of any text ends.
use eddwise.Base.{
  ℕ, zero, suc, ◌+◌, ◌<◌, ◌≤◌, Text, [], ◌∷◌, ◌++◌, none, some, ◌≡◌, ◌≢◌, refl, ap, ◌∙◌, arith,
  ℕ_discrete, length, length-append, Option-cases, inl, inr,
}
use eddwise.Design.{primitive, nested, ref, map_type, TypeWithAttributes, with_array}
use eddwise.Design.Types.{
  ParsedType, parsed, bad_key, strip_plus, after_arrow, cut_arrow, leaf, in_map, under_key,
  parse_field_string_type,
}
use eddwise.Design.Types.Parse.{plusses, notation, cut_arrow-text}

-- What the code can read back: names and keys without a plus or a point in front and without an arrow.
abbrev Front : Text → Type 0
Front [] = Unit
Front (x ∷ s) = (x ≢ b'+') × (x ≢ b'.')

abbrev pub Plain : Text → Type 0
Plain s = Front s × (cut_arrow s ≡ none)

abbrev pub Readable : TypeWithAttributes → Type 0
Readable (with_array n (primitive p)) = Plain p
Readable (with_array n (nested s)) = ⊥
Readable (with_array n (ref r)) = cut_arrow r ≡ none
Readable (with_array n (map_type key t)) = Plain key × Readable t

strip-plusses : (n : ℕ) (s : Text) → strip_plus s ≡ (0, s) → strip_plus (plusses n s) ≡ (n, s)
unfolding strip_plus plusses
strip-plusses zero s h = h
strip-plusses (suc n) s h = ground (arith, strip-plusses n s h)

strip-Front : (s : Text) → Front s → strip_plus s ≡ (0, s)
unfolding strip_plus
strip-Front [] h = refl
strip-Front (x ∷ s) h = ground arith

cut_arrow-none :
    (x y : ℕ) (s : Text)
    → cut_arrow (x ∷ y ∷ s) ≡ none
    → (after_arrow (x ∷ y ∷ s) ≡ none) × (cut_arrow (y ∷ s) ≡ none)
unfolding cut_arrow
cut_arrow-none x y s h = elim (Option-cases (after_arrow (x ∷ y ∷ s))) [
  | inr (r, e) ↦ absurd (ground arith)
  | inl e ↦ elim (Option-cases (cut_arrow (y ∷ s))) [
    | inr ((k, r), f) ↦ absurd (ground arith)
    | inl f ↦ (e, f)
  ]
]

cut_arrow-append :
    (key rest : Text)
    → cut_arrow key ≡ none
    → cut_arrow (key ++ b'-' ∷ b'>' ∷ rest) ≡ some (key, rest)
unfolding cut_arrow after_arrow
cut_arrow-append [] rest h = ground arith
cut_arrow-append (x ∷ []) rest h = ground arith
cut_arrow-append (x ∷ y ∷ s) rest h =
    let (first, later) = cut_arrow-none x y s h in
    let deeper = cut_arrow-append (y ∷ s) rest later in ground (arith, first)

strip_point : (r : Text) → strip_plus (b'.' ∷ r) ≡ (0, b'.' ∷ r)
unfolding strip_plus
strip_point r = ground arith

cut_point : (r : Text) → cut_arrow r ≡ none → cut_arrow (b'.' ∷ r) ≡ none
unfolding cut_arrow after_arrow
cut_point [] h = ground arith
cut_point (x ∷ r) h = ground arith

leaf-point : (r : Text) → leaf (b'.' ∷ r) ≡ ref r
unfolding leaf
leaf-point r = ground arith

strip_key :
    (key t : Text) → Front key → strip_plus (key ++ b'-' ∷ b'>' ∷ t) ≡ (0, key ++ b'-' ∷ b'>' ∷ t)
unfolding strip_plus
strip_key [] t h = ground arith
strip_key (x ∷ key) t h = ground arith

length-plusses : (n : ℕ) (s : Text) → length (plusses n s) ≡ n + length s
unfolding plusses
length-plusses zero s = omega arith
length-plusses (suc n) s = omega (arith, length-plusses n s)

leaf-plain : (p : Text) → Front p → leaf p ≡ primitive p
unfolding leaf
leaf-plain [] h = refl
leaf-plain (x ∷ s) h = ground arith

length-strip : (s : Text) → length (strip_plus s).1 ≤ length s
unfolding strip_plus
length-strip [] = omega arith
length-strip (x ∷ s) = ground (arith, length-strip s)

length-rest : (s key rest : Text) → cut_arrow s ≡ some (key, rest) → length rest < length s
length-rest s key rest h =
    let same = cut_arrow-text s key rest h in
    rw same (omega (arith, length-append key (b'-' ∷ b'>' ∷ rest)))

in_map-ends :
    (n : ℕ) (key : Text) (r : ParsedType) → (q : ParsedType) × (in_map n key (some r) ≡ some q)
unfolding in_map
in_map-ends n key (bad_key k) = (bad_key k, refl)
in_map-ends n key (parsed t) = (parsed (with_array n (map_type key t)), refl)

under_key-ends :
    (n : ℕ) (key : Text) (r : ParsedType) → (q : ParsedType) × (under_key n key (some r) ≡ some q)
unfolding under_key
under_key-ends n [] r = in_map-ends n [] r
under_key-ends n (x ∷ key) r = elim (ℕ_discrete x b'.') [
  | yes p ↦ (bad_key (x ∷ key), ground arith)
  | no p ↦ let (q, e) = in_map-ends n (x ∷ key) r in (q, ground arith)
]

parse-leaf :
    (n a : ℕ) (value s : Text)
    → strip_plus value ≡ (a, s)
    → cut_arrow s ≡ none
    → parse_field_string_type (suc n) value ≡ some (parsed (with_array a (leaf s)))
unfolding parse_field_string_type
parse-leaf n a value s stripped uncut = ground arith

parse-under_key :
    (n a : ℕ) (value s key rest : Text)
    → strip_plus value ≡ (a, s)
    → cut_arrow s ≡ some (key, rest)
    → parse_field_string_type (suc n) value ≡ under_key a key (parse_field_string_type n rest)
unfolding parse_field_string_type
parse-under_key n a value s key rest stripped cut = ground arith

-- With more fuel than the text has bytes, reading ends with a type or with the key that it refuses.
pub parse_field_string_type-ends :
    (n : ℕ) (value : Text)
    → length value < n
    → (r : ParsedType) × (parse_field_string_type n value ≡ some r)
parse_field_string_type-ends zero value h = absurd (omega arith)
parse_field_string_type-ends (suc n) value h =
    elim (Option-cases (cut_arrow (strip_plus value).1)) [
      | inl e ↦ (
        parsed (with_array (strip_plus value).0 (leaf (strip_plus value).1)),
        parse-leaf n (strip_plus value).0 value (strip_plus value).1 refl e,
      )
      | inr ((key, rest), e) ↦
          let shorter = length-rest (strip_plus value).1 key rest e in
          let (r, deeper) =
            parse_field_string_type-ends n rest (omega (arith, length-strip value)) in
          let (q, same) = under_key-ends (strip_plus value).0 key r in
          (
            q,
            parse-under_key n (strip_plus value).0 value (strip_plus value).1 key rest refl e
                ∙ ap (under_key (strip_plus value).0 key) deeper
                ∙ same,
          )
    ]

under_plain :
    (n : ℕ) (key : Text) (t : TypeWithAttributes)
    → Front key
    → under_key n key (some (parsed t)) ≡ some (parsed (with_array n (map_type key t)))
unfolding under_key in_map
under_plain n [] t h = refl
under_plain n (x ∷ key) t h = ground arith

-- A type that can be written is read back from its notation, with more fuel than the notation has
-- bytes.
pub parse-notation :
    (n : ℕ) (t : TypeWithAttributes)
    → Readable t
    → length (notation t) < n
    → parse_field_string_type n (notation t) ≡ some (parsed t)
unfolding notation
parse-notation zero t v h = absurd (omega arith)
parse-notation (suc n) (with_array a (primitive p)) v h =
    parse-leaf n a (plusses a p) p (strip-plusses a p (strip-Front p v.0)) v.1
    ∙ ap (λ k. some (parsed (with_array a k))) (leaf-plain p v.0)
parse-notation (suc n) (with_array a (nested s)) v h = absurd v
parse-notation (suc n) (with_array a (ref r)) v h =
    parse-leaf n a (plusses a (b'.' ∷ r)) (b'.' ∷ r) (strip-plusses a (b'.' ∷ r) (strip_point r))
      (cut_point r v)
    ∙ ap (λ k. some (parsed (with_array a k))) (leaf-point r)
parse-notation (suc n) (with_array a (map_type key t)) v h =
    let s : Text = key ++ b'-' ∷ b'>' ∷ notation t in
    let stripped = strip-plusses a s (strip_key key (notation t) v.0.0) in
    let shorter : length (notation t) < n =
      omega (arith, length-plusses a s, length-append key (b'-' ∷ b'>' ∷ notation t)) in
    parse-under_key n a (plusses a s) s key (notation t) stripped
      (cut_arrow-append key (notation t) v.0.1)
    ∙ ap (under_key a key) (parse-notation n t v.1 shorter)
    ∙ under_plain a key t v.0.0
