-- ===== src/Design/JsTypes/Tests.antt =====
-- JavaScript types at concrete types.
use eddwise.Base.{Text-discrete, codes, true, ◌≡◌, ◌↔◌, refl}
use eddwise.Design.{ref, map_type, with_array}
use eddwise.Design.Validate.{is_one_of, validate_primitive}
use eddwise.Design.JsTypes.{js_primitive, js_type}
use eddwise.Design.JsTypes.Known.{complex_types, js_primitive_unknown}

js_type_runs :
    js_type (with_array 1 (map_type (codes "string") (with_array 2 (ref (codes "Player")))))
    ≡ codes "Object.<string, Player[][]>[]"
unfolding js_type Text-discrete
js_type_runs = refl

js_primitive_unknown_example :
    (js_primitive (codes "complex64") ≡ codes "unknown")
    ↔ (is_one_of complex_types (codes "complex64") ≡ true)
unfolding validate_primitive Text-discrete
js_primitive_unknown_example = js_primitive_unknown (codes "complex64") refl
