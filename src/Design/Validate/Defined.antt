-- ===== src/Design/Validate/Defined.antt =====
-- What ValidateStruct accepts: every primitive is known, every reference names a struct, and the
-- structs that are reached are accepted too.
use eddwise.Base.{
  ℕ, zero, suc, ◌<◌, Text, text_key, Dict, get, none, some, ◌≡◌, ◌↔◌, refl, arith, Option-cases,
  inl, inr,
}
use eddwise.Design.{
  Kind, primitive, nested, ref, map_type, TypeWithAttributes, with_array, Fields, no_fields, field,
  Struct, struct,
}
use eddwise.Design.Validate.{
  Verdict, and_then, validate_primitive, validate_ref, validate_type, validate_type_of,
  validate_fields, validate_fields_of, validate_struct,
}
use eddwise.Design.Validate.Names.{Uses, UsesOf, UsesInFields, UsesInStruct, UsesInStruct-both}
use eddwise.Design.Validate.Ends.{AnyName, Below, IsRanked}

abbrev pub IsAccepted : Verdict → Type 0
IsAccepted v = v ≡ some none

abbrev pub IsPrimitive : Text → Type 0
IsPrimitive p = validate_primitive p ≡ none

pub and_then-IsAccepted :
    (v w : Verdict) → IsAccepted (and_then v w) ↔ (IsAccepted v × IsAccepted w)
and_then-IsAccepted none w = (λ h. cc, λ h. cc)
and_then-IsAccepted (some none) w = (λ h. (refl, h), λ h. h.1)
and_then-IsAccepted (some (some x)) w = (λ h. cc, λ h. cc)

module _ (m : Dict Text Struct) (deeper : Struct → Verdict) where
  -- The reference is to a struct that is accepted.
  abbrev pub Resolved : Text → Type 0
  Resolved r = (s : Struct) × (get r m ≡ some s) × IsAccepted (deeper s)

  validate_ref-IsAccepted : (r : Text) → IsAccepted (validate_ref m deeper r) ↔ Resolved r
  unfolding validate_ref
  validate_ref-IsAccepted r = (
    λ h. elim (Option-cases (get r m)) [
      | inl e ↦ absurd (ground arith)
      | inr (s, e) ↦ (s, e, ground arith)
    ],
    λ (s, e, h). rw (e, validate_ref) h,
  )

  mutual
    unfolding validate_type Uses

    validate_type-IsAccepted :
        (k : Kind) → IsAccepted (validate_type m deeper k) ↔ Uses Resolved IsPrimitive k
    validate_type-IsAccepted (primitive p) = (λ h. cc, λ h. cc)
    validate_type-IsAccepted (nested s) = validate_fields_of-IsAccepted s
    validate_type-IsAccepted (ref r) = validate_ref-IsAccepted r
    validate_type-IsAccepted (map_type key t) =
        let both =
          and_then-IsAccepted (some (validate_primitive key)) (validate_type_of m deeper t) in
        let rest = validate_type_of-IsAccepted t in
        (
          λ h. let (first, second) = both.0 h in (cc, rest.0 second),
          λ (p, u). both.1 (cc, rest.1 u),
        )

    validate_type_of-IsAccepted :
        (t : TypeWithAttributes)
        → IsAccepted (validate_type_of m deeper t) ↔ UsesOf Resolved IsPrimitive t
    validate_type_of-IsAccepted (with_array n k) = validate_type-IsAccepted k

    validate_fields-IsAccepted :
        (fs : Fields)
        → IsAccepted (validate_fields m deeper fs) ↔ UsesInFields Resolved IsPrimitive fs
    validate_fields-IsAccepted no_fields = (λ h. tt, λ h. refl)
    validate_fields-IsAccepted (field tags name t doc fs) =
        let both =
          and_then-IsAccepted (validate_type_of m deeper t) (validate_fields m deeper fs) in
        (
          λ h.
              let (first, second) = both.0 h in
              ((validate_type_of-IsAccepted t).0 first, (validate_fields-IsAccepted fs).0 second),
          λ (p, u).
              both.1 ((validate_type_of-IsAccepted t).1 p, (validate_fields-IsAccepted fs).1 u),
        )

    validate_fields_of-IsAccepted :
        (s : Struct)
        → IsAccepted (validate_fields_of m deeper s) ↔ UsesInStruct Resolved IsPrimitive s
    validate_fields_of-IsAccepted (struct tags name fs doc) = validate_fields-IsAccepted fs

-- ValidateStruct accepts a struct exactly if each primitive and each key that it uses is one of the
-- known names, and each reference in it, nested structs and values of maps included, names a struct of
-- the design that is accepted in turn.
pub validate_struct_iff :
    (m : Dict Text Struct) (n : ℕ) (s : Struct)
    → IsAccepted (validate_struct (suc n) m s)
      ↔ UsesInStruct (Resolved m (validate_struct n m)) IsPrimitive s
unfolding validate_struct
validate_struct_iff m n s = validate_fields_of-IsAccepted m (validate_struct n m) s

-- The reference names a struct of the map.
abbrev pub Known : Dict Text Struct → Text → Type 0
Known m r = (s : Struct) × (get r m ≡ some s)

-- What the checks of a struct by itself come to.
abbrev pub IsDefined : Dict Text Struct → Struct → Type 0
IsDefined m = UsesInStruct (Known m) IsPrimitive

pub IsAccepted-IsDefined :
    (m : Dict Text Struct) (n : ℕ) (s : Struct) → IsAccepted (validate_struct n m s) → IsDefined m s
unfolding validate_struct
IsAccepted-IsDefined m zero s h = cc
IsAccepted-IsDefined m (suc n) s h =
    let uses = (validate_fields_of-IsAccepted m (validate_struct n m) s).0 h in
    UsesInStruct-both (Resolved m (validate_struct n m)) (Resolved m (validate_struct n m))
      (Known m) IsPrimitive IsPrimitive (λ r (t, e, ok) again. (t, e)) s uses uses

pub IsDefined-IsAccepted :
    (rank : Text → ℕ) (m : Dict Text Struct) (fuel n : ℕ) (s : Struct)
    → IsRanked rank m
    → ((r : Text) (t : Struct) → get r m ≡ some t → IsDefined m t)
    → n < fuel
    → Below rank n s
    → IsDefined m s
    → IsAccepted (validate_struct fuel m s)
IsDefined-IsAccepted rank m zero n s ranked all enough below here = absurd (omega arith)
IsDefined-IsAccepted rank m (suc fuel) n s ranked all enough below here =
    (validate_struct_iff m fuel s).1 (
      UsesInStruct-both (Known m) (λ r. rank r < n) (Resolved m (validate_struct fuel m))
        IsPrimitive AnyName
        (λ r (t, e) lower. (
          t,
          e,
          IsDefined-IsAccepted rank m fuel (rank r) t ranked all (omega arith) (ranked r t e)
              (all r t e),
        ))
        s here below)
