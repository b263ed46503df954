-- ===== src/Design/GoTypes/Tests.antt =====
-- Go types at concrete fields.
use eddwise.Base.{codes, [], ◌≡◌, refl, ℕ_discrete, dec_le}
use eddwise.Design.{server_to_client, ref, map_type, with_array}
use eddwise.Design.GoTypes.{field_go_type, go_annotation, lower_first}
use eddwise.Design.Members.{Field}
use eddwise.Design.Names.{go_name}

abbrev board : Field
board = record {
  tags = record { alias = codes "b"; direction = server_to_client };
  name = codes "board";
  type = with_array 1 (map_type (codes "string") (with_array 2 (ref (codes "game_tile"))));
  doc = [];
}

field_go_type_runs : field_go_type (λ w u s. s) board ≡ codes "*[]map[string][][]GameTile"
unfolding field_go_type go_name ℕ_discrete dec_le
field_go_type_runs = refl

go_annotation_runs : go_annotation board ≡ codes "`json:\"b,omitempty\"`"
unfolding go_annotation
go_annotation_runs = refl

lower_first_runs : lower_first (codes "GameTile") ≡ codes "gameTile"
unfolding lower_first dec_le
lower_first_runs = refl
