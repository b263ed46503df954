-- ===== src/Design/JsDef.antt =====
-- JsDef (structs.go): the description of a struct in the generated JavaScript.
use eddwise.Base.{Text, codes, [], ◌∷◌, ◌++◌}
use eddwise.Design.{Direction, any, server_to_client, client_to_server, Struct, struct}
use eddwise.Design.Fill.{fill, each, if_text, trim_space}
use eddwise.Design.GoTypes.{direction_doc}
use eddwise.Design.JsTypes.{js_type}
use eddwise.Design.Members.{FieldWithPath, unnest_field_map}

-- `[path]` where the field is marked with a direction.
abbrev pub js_path : Direction → Text → Text
js_path any path = path
js_path server_to_client path = codes "[" ++ (path ++ codes "]")
js_path client_to_server path = codes "[" ++ (path ++ codes "]")

unfoldable pub js_property : FieldWithPath → Text
unfolding fill js_type trim_space direction_doc
js_property f =
    fill
      (js_type f.field.type
        ∷ js_path f.field.tags.direction f.path
        ∷ if_text f.field.doc (codes " - " ++ trim_space f.field.doc) []
        ∷ direction_doc f.field
        ∷ [])
      ("\n" ∷ " * @property {%0} %1%2 %3" ∷ [])

-- Struct.JsDef.
unfoldable pub js_def : Struct → Text
unfolding fill js_property unnest_field_map
js_def (struct tags name fs doc) =
    fill (name ∷ []) ("\n" ∷ "/**\n" ∷ " * @typedef %0" ∷ [])
    ++ (each js_property (unnest_field_map (struct tags name fs doc))
        ++ (if_text doc (fill (doc ∷ []) ("\n" ∷ " * @description %0" ∷ [])) [] ++ codes "\n*/"))
