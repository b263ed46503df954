-- ===== src/Design/Validate/Tests.antt =====
-- ValidateStruct at concrete structs: Team lists Players, and Node refers to itself.
use eddwise.Base.{Text, Text-discrete, codes, text_key, Dict, get, [], ◌∷◌, none, some, ◌≡◌, refl}
use eddwise.Design.{Tags, any, primitive, ref, with_array, Fields, no_fields, field, Struct, struct}
use eddwise.Design.Validate.{validate_struct, validate_primitive, undefined_ref}
use eddwise.Design.Validate.Ends.{here, later, validate_struct-endless}

abbrev plain : Tags
plain = record { alias = []; direction = any }

abbrev player : Struct
player =
    struct plain (codes "Player")
      (field plain (codes "id") (with_array 0 (primitive (codes "string"))) [] no_fields) []

abbrev team : Struct
team =
    struct plain (codes "Team")
      (field plain (codes "players") (with_array 1 (ref (codes "Player"))) [] no_fields) []

abbrev node_fields : Fields
node_fields =
    field plain (codes "value") (with_array 0 (primitive (codes "int"))) []
      (field plain (codes "children") (with_array 1 (ref (codes "Node"))) [] no_fields)

abbrev node : Struct
node = struct plain (codes "Node") node_fields []

abbrev structs : Dict Text Struct
structs = (codes "Player", player) ∷ (codes "Team", team) ∷ (codes "Node", node) ∷ []

accepted_runs : validate_struct 2 structs team ≡ some none
unfolding validate_struct get Text-discrete
accepted_runs = refl

undefined_runs : validate_struct 2 [] team ≡ some (some (undefined_ref (codes "Player")))
unfolding validate_struct get Text-discrete
undefined_runs = refl

validate_struct-endless_example : validate_struct 1000 structs node ≡ none
unfolding get Text-discrete validate_primitive
validate_struct-endless_example =
    validate_struct-endless structs (codes "Node") (codes "Node") [] plain node_fields 1000 refl (
      later plain (codes "value") 0 (codes "int") []
        (field plain (codes "children") (with_array 1 (ref (codes "Node"))) [] no_fields) refl
        (here plain (codes "children") 1 [] no_fields))
