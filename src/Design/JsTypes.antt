-- ===== src/Design/JsTypes.antt =====
-- The names of types in the generated JavaScript: JsType (structs.go).
mod Known
mod Tests
use eddwise.Base.{ℕ, zero, suc, Text, codes, List, [], ◌∷◌, ◌++◌, Bool, if◌then◌else◌}
use eddwise.Design.{Kind, primitive, nested, ref, map_type, TypeWithAttributes, with_array}
use eddwise.Design.Validate.{is_one_of}

-- The cases of the switch in PrimitiveType.JsType.
abbrev pub unsigned_types : List Text
unsigned_types =
    codes "byte"
    ∷ codes "uint"
    ∷ codes "uint16"
    ∷ codes "uint32"
    ∷ codes "uint64"
    ∷ codes "uint8"
    ∷ codes "uintptr"
    ∷ []

abbrev pub signed_types : List Text
signed_types = codes "int" ∷ codes "int16" ∷ codes "int32" ∷ codes "int64" ∷ codes "int8" ∷ []

unfoldable pub js_primitive : Text → Text
unfolding is_one_of
js_primitive t =
    if is_one_of (codes "any" ∷ []) t
    then codes "any"
    else if is_one_of (codes "bool" ∷ []) t
    then codes "boolean"
    else if is_one_of unsigned_types t
    then codes "uint"
    else if is_one_of signed_types t
    then codes "int"
    else if is_one_of (codes "float32" ∷ codes "float64" ∷ []) t
    then codes "float"
    else if is_one_of (codes "error" ∷ codes "rune" ∷ codes "string" ∷ []) t
    then codes "string"
    else codes "unknown"

-- strings.Repeat.
unfoldable pub repeat : Text → ℕ → Text
repeat s zero = []
repeat s (suc n) = s ++ repeat s n

unfoldable mutual
  unfolding js_primitive repeat

  pub js_kind : Kind → Text
  js_kind (primitive p) = js_primitive p
  js_kind (nested s) = codes "object"
  js_kind (ref r) = r
  js_kind (map_type key t) =
      codes "Object.<" ++ (js_primitive key ++ (codes ", " ++ (js_type t ++ codes ">")))

  -- TypeWithAttributes.JsType.
  pub js_type : TypeWithAttributes → Text
  js_type (with_array n k) = js_kind k ++ repeat (codes "[]") n
