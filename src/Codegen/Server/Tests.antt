-- ===== src/Codegen/Server/Tests.antt =====
-- The server of a concrete file.
use eddwise.Base.{Text, Text-discrete, ℕ_discrete, get, insert, delete, [], ◌∷◌, some, ◌≡◌, refl}
use eddwise.Design.Accept.{sort_design}
use eddwise.Design.Accept.Tests.{game, as_is}
use eddwise.Design.Annotations.{get_comments}
use eddwise.Design.Directions.{enabled_map}
use eddwise.Design.Merge.{structs_map, map_of_structs}
use eddwise.Design.Parsing.{done}
use eddwise.Design.Parsing.Files.{parse_and_validate_yamls}
use eddwise.Design.Parsing.Tests.{view, decode, files, node_at, nodes}
use eddwise.Codegen.Server.{generate_server}
use eddwise.Codegen.Server.Given.{generate_server-parse_and_validate_yamls}

abbrev as_named : Text → Text → Text → Text
as_named name go_name doc = doc

game_read :
    parse_and_validate_yamls view decode as_is files 2 5 ([] ∷ [])
    ≡ done (sort_design (structs_map game).0)
unfolding parse_and_validate_yamls nodes node_at files decode get_comments get insert delete
    Text-discrete ℕ_discrete structs_map map_of_structs enabled_map
game_read = refl

generate_server-parse_and_validate_yamls_example :
    (code : Text) × (generate_server as_named 5
        (structs_map (sort_design (structs_map game).0)).1
        (sort_design (structs_map game).0)
      ≡ some code)
generate_server-parse_and_validate_yamls_example =
    generate_server-parse_and_validate_yamls view decode as_is files as_named 2 5 ([] ∷ [])
      (sort_design (structs_map game).0) game_read
