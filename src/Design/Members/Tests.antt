-- ===== src/Design/Members/Tests.antt =====
-- The fields of concrete structs: Move holds a Position, whose x is set by the server only, and a nested
-- struct with a field that clients set.
use eddwise.Base.{
  Text, Text-discrete, codes, text_key, Dict, get, List, [], ◌∷◌, At, some, ◌≡◌, ◌↔◌, refl,
  ℕ_discrete, dec_le,
}
use eddwise.Design.{
  Tags, any, server_to_client, primitive, nested, ref, with_array, no_fields, field, Struct, struct,
}
use eddwise.Design.Names.{go_name}
use eddwise.Design.Validate.{validate_struct}
use eddwise.Design.Members.{
  FieldWithPath, fields_of, under, fields_with_strict_direction, unnest_field_map,
}
use eddwise.Design.Members.Strict.{StrictIn}
use eddwise.Design.Members.Given.{fields_with_strict_direction_lem}
use eddwise.Design.Members.Unnested.{LeadsTo, unnest_field_map_iff}

abbrev plain : Tags
plain = record { alias = []; direction = any }

abbrev by_server : Tags
by_server = record { alias = []; direction = server_to_client }

abbrev position : Struct
position =
    struct plain (codes "Position")
      (field by_server (codes "x_pos") (with_array 0 (primitive (codes "int"))) [] no_fields) []

abbrev inner : Struct
inner =
    struct plain []
      (field by_server (codes "at") (with_array 0 (primitive (codes "int"))) [] no_fields) []

abbrev move : Struct
move =
    struct plain (codes "Move")
      (field plain (codes "position") (with_array 0 (ref (codes "Position"))) []
        (field plain (codes "time") (with_array 0 (nested inner)) [] no_fields))
      []

abbrev structs : Dict Text Struct
structs = (codes "Position", position) ∷ (codes "Move", move) ∷ []

strict_runs :
    fields_with_strict_direction 3 structs server_to_client move
    ≡ some (codes "Position.XPos" ∷ codes "Time.At" ∷ [])
unfolding fields_with_strict_direction get Text-discrete go_name ℕ_discrete dec_le under
strict_runs = refl

fields_with_strict_direction_lem_example :
    (vs : List Text) × (fields_with_strict_direction 3 structs server_to_client move ≡ some vs)
    × ((v : Text) → At v vs ↔ StrictIn structs server_to_client (fields_of move) v)
unfolding validate_struct get Text-discrete
fields_with_strict_direction_lem_example =
    fields_with_strict_direction_lem structs server_to_client 3 move refl

abbrev time_at : FieldWithPath
time_at = record {
  field = record {
    tags = by_server;
    name = codes "at";
    type = with_array 0 (primitive (codes "int"));
    doc = [];
  };
  path = codes "time.at";
}

unnest_field_map_iff_example : At time_at (unnest_field_map move) ↔ LeadsTo (fields_of move) time_at
unnest_field_map_iff_example = unnest_field_map_iff move time_at

go_name_runs : go_name (codes "x_pos of.me") ≡ codes "XPosOf.Me"
unfolding go_name ℕ_discrete dec_le
go_name_runs = refl
