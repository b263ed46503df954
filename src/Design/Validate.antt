-- ===== src/Design/Validate.antt =====
-- Design.ValidateType and Design.ValidateStruct (eddgen.go). A reference is followed into the struct
-- that it names, which takes fuel: `none` is the end of the fuel, `some none` is acceptance. The
-- pointer that ValidateType stores in a reference is looked up in the same map where it is read.
pub mod Names
pub mod Ends
pub mod Defined
mod Tests
use eddwise.Base.{
  ℕ, zero, suc, Text, Text-discrete, text_key, codes, Dict, get, List, [], ◌∷◌, Option, none, some,
  Bool, true, false, if◌then◌else◌, ite,
}
use eddwise.Design.{
  Kind, primitive, nested, ref, map_type, TypeWithAttributes, with_array, Fields, no_fields, field,
  Struct, struct,
}

pub data ValidateError : Type 0 where
  unknown_type undefined_ref : Text → ValidateError
  not_enabled_direction unknown_enabled reserved : Text → ValidateError

abbrev pub Verdict : Type 0
Verdict = Option (Option ValidateError)

-- The names of the switch in ValidateType.
abbrev pub primitives : List Text
primitives =
    codes "any"
    ∷ codes "bool"
    ∷ codes "byte"
    ∷ codes "complex128"
    ∷ codes "complex64"
    ∷ codes "error"
    ∷ codes "float32"
    ∷ codes "float64"
    ∷ codes "int"
    ∷ codes "int16"
    ∷ codes "int32"
    ∷ codes "int64"
    ∷ codes "int8"
    ∷ codes "rune"
    ∷ codes "string"
    ∷ codes "uint"
    ∷ codes "uint16"
    ∷ codes "uint32"
    ∷ codes "uint64"
    ∷ codes "uint8"
    ∷ []

unfoldable pub is_one_of : List Text → Text → Bool
is_one_of [] t = false
is_one_of (x ∷ xs) t = ite (Text-discrete x t) true (is_one_of xs t)

unfoldable pub validate_primitive : Text → Option ValidateError
unfolding is_one_of
validate_primitive p = if is_one_of primitives p then none else some (unknown_type p)

-- `if err := …; err != nil { return err }`
abbrev pub and_then : Verdict → Verdict → Verdict
and_then none next = none
and_then (some (some e)) next = some (some e)
and_then (some none) next = next

module _ (structs : Dict Text Struct) (deeper : Struct → Verdict) where
  unfoldable pub validate_ref : Text → Verdict
  validate_ref r = elim (get r structs) [ none ↦ some (some (undefined_ref r)) | some s ↦ deeper s ]

  -- ValidateType and ValidateStruct, as far as no reference is followed.
  unfoldable mutual
    unfolding validate_ref validate_primitive

    pub validate_type : Kind → Verdict
    validate_type (primitive p) = some (validate_primitive p)
    validate_type (nested s) = validate_fields_of s
    validate_type (ref r) = validate_ref r
    validate_type (map_type key t) = and_then (some (validate_primitive key)) (validate_type_of t)

    pub validate_type_of : TypeWithAttributes → Verdict
    validate_type_of (with_array n k) = validate_type k

    pub validate_fields : Fields → Verdict
    validate_fields no_fields = some none
    validate_fields (field tags name t doc fs) = and_then (validate_type_of t) (validate_fields fs)

    pub validate_fields_of : Struct → Verdict
    validate_fields_of (struct tags name fs doc) = validate_fields fs

-- Design.ValidateStruct.
unfoldable pub validate_struct : ℕ → Dict Text Struct → Struct → Verdict
unfolding validate_type
validate_struct zero m s = none
validate_struct (suc n) m s = validate_fields_of m (validate_struct n m) s
