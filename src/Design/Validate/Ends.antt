-- ===== src/Design/Validate/Ends.antt =====
-- When ValidateStruct ends: references that go down a rank need no more fuel than the rank, and a
-- struct that refers to itself never ends.
use eddwise.Base.{
  ℕ, zero, suc, ◌<◌, Text, text_key, Dict, get, Option, none, some, ◌≡◌, refl, arith, Option-cases,
  inl, inr,
}
use eddwise.Design.{
  Kind, primitive, nested, ref, map_type, TypeWithAttributes, with_array, Fields, no_fields, field,
  Struct, struct, Tags,
}
use eddwise.Design.Validate.{
  ValidateError, undefined_ref, Verdict, and_then, validate_primitive, validate_ref, validate_type,
  validate_type_of, validate_fields, validate_fields_of, validate_struct,
}
use eddwise.Design.Validate.Names.{Uses, UsesOf, UsesInFields, UsesInStruct}

abbrev pub Ends : Verdict → Type 0
Ends v = (e : Option ValidateError) × (v ≡ some e)

pub and_then-Ends : (v w : Verdict) → Ends v → Ends w → Ends (and_then v w)
and_then-Ends none w (e, h) ends = cc
and_then-Ends (some none) w h ends = ends
and_then-Ends (some (some x)) w h ends = (some x, refl)

abbrev pub AnyName : Text → Type 0
AnyName p = Unit

module _ (m : Dict Text Struct) (deeper : Struct → Verdict) (R : Text → Type 0)
    (ends : (r : Text) (s : Struct) → R r → get r m ≡ some s → Ends (deeper s)) where
  validate_ref-Ends : (r : Text) → R r → Ends (validate_ref m deeper r)
  unfolding validate_ref
  validate_ref-Ends r h = elim (Option-cases (get r m)) [
    | inl e ↦ (some (undefined_ref r), rw (e, validate_ref) refl)
    | inr (s, e) ↦ rw (e, validate_ref) (ends r s h e)
  ]

  mutual
    unfolding validate_type Uses

    validate_type-Ends : (k : Kind) → Uses R AnyName k → Ends (validate_type m deeper k)
    validate_type-Ends (primitive p) h = (validate_primitive p, refl)
    validate_type-Ends (nested s) h = validate_fields_of-Ends s h
    validate_type-Ends (ref r) h = validate_ref-Ends r h
    validate_type-Ends (map_type key t) h =
        and_then-Ends (some (validate_primitive key)) (validate_type_of m deeper t)
          (validate_primitive key, refl) (validate_type_of-Ends t h.1)

    validate_type_of-Ends :
        (t : TypeWithAttributes) → UsesOf R AnyName t → Ends (validate_type_of m deeper t)
    validate_type_of-Ends (with_array n k) h = validate_type-Ends k h

    validate_fields-Ends :
        (fs : Fields) → UsesInFields R AnyName fs → Ends (validate_fields m deeper fs)
    validate_fields-Ends no_fields h = (none, refl)
    validate_fields-Ends (field tags name t doc fs) h =
        and_then-Ends (validate_type_of m deeper t) (validate_fields m deeper fs)
          (validate_type_of-Ends t h.0) (validate_fields-Ends fs h.1)

    validate_fields_of-Ends :
        (s : Struct) → UsesInStruct R AnyName s → Ends (validate_fields_of m deeper s)
    validate_fields_of-Ends (struct tags name fs doc) h = validate_fields-Ends fs h

-- `rank` goes down along references, so that no chain of references is a cycle.
abbrev pub Below : (Text → ℕ) → ℕ → Struct → Type 0
Below rank n = UsesInStruct (λ r. rank r < n) AnyName

abbrev pub IsRanked : (Text → ℕ) → Dict Text Struct → Type 0
IsRanked rank m = (r : Text) (s : Struct) → get r m ≡ some s → Below rank (rank r) s

-- If the references of the structs go down a rank, ValidateStruct ends with a verdict on a struct whose
-- references lie below n, given more fuel than n.
pub validate_struct-Ends :
    (rank : Text → ℕ) (m : Dict Text Struct) (fuel n : ℕ) (s : Struct)
    → IsRanked rank m
    → n < fuel
    → Below rank n s
    → Ends (validate_struct fuel m s)
unfolding validate_struct
validate_struct-Ends rank m zero n s ranked enough below = absurd (omega arith)
validate_struct-Ends rank m (suc fuel) n s ranked enough below =
    validate_fields_of-Ends m (validate_struct fuel m) (λ r. rank r < n)
      (λ r t lower known.
        validate_struct-Ends rank m fuel (rank r) t ranked (omega arith) (ranked r t known))
      s below

-- A field refers to the struct r, after fields of primitive types that the switch accepts.
pub data Loops (r : Text) : Fields → Type 0 where
  here :
      (tags : Tags) (name : Text) (a : ℕ) (doc : Text) (fs : Fields)
      → Loops r (field tags name (with_array a (ref r)) doc fs)
  later :
      (tags : Tags) (name : Text) (a : ℕ) (p doc : Text) (fs : Fields)
      → validate_primitive p ≡ none
      → Loops r fs
      → Loops r (field tags name (with_array a (primitive p)) doc fs)

validate_fields-loop :
    (m : Dict Text Struct) (deeper : Struct → Verdict) (r : Text) (s : Struct)
    → get r m ≡ some s
    → deeper s ≡ none
    → (fs : Fields) → Loops r fs
    → validate_fields m deeper fs ≡ none
unfolding validate_type validate_ref
validate_fields-loop m deeper r s known endless fs (here tags name a doc more) =
    rw (known, validate_ref, endless) refl
validate_fields-loop m deeper r s known endless fs (later tags name a p doc more fine loops) =
    rw fine (validate_fields-loop m deeper r s known endless more loops)

-- A struct with a field that refers to the struct itself, in an array or not, after fields of known
-- primitive types only, is never accepted nor refused: ValidateStruct follows the reference for ever.
pub validate_struct-endless :
    (m : Dict Text Struct) (r name doc : Text) (tags : Tags) (fs : Fields) (n : ℕ)
    → get r m ≡ some (struct tags name fs doc)
    → Loops r fs
    → validate_struct n m (struct tags name fs doc) ≡ none
unfolding validate_struct validate_type
validate_struct-endless m r name doc tags fs zero known loops = refl
validate_struct-endless m r name doc tags fs (suc n) known loops =
    validate_fields-loop m (validate_struct n m) r (struct tags name fs doc) known
      (validate_struct-endless m r name doc tags fs n known loops) fs loops
