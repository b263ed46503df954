-- ===== src/Design/Parsing/Tests/Nested.antt =====
-- The nodes of the file's structs, read as one struct of two nested ones.
use eddwise.Base.{
  Text-discrete, codes, text_key, get, insert, delete, [], ◌∷◌, ◌≡◌, refl, arith, ℕ_discrete,
}
use eddwise.Design.{primitive, nested, ref, with_array, Fields, no_fields, field, struct}
use eddwise.Design.Accept.Tests.{plain}
use eddwise.Design.Annotations.{process_tags, get_comments}
use eddwise.Design.Nodes.{unmarshal_yaml}
use eddwise.Design.Types.{cut_arrow}
use eddwise.Design.Types.Parse.{plusses, notation}
use eddwise.Design.Parsing.{done, parse_struct}
use eddwise.Design.Parsing.Written.{IsLeaf, IsStructNode, TypeNode, parse_struct-written}
use eddwise.Design.Parsing.Tests.{nodes, node_at, view}

abbrev captain : Fields
captain = field plain (codes "captain") (with_array 0 (ref (codes "Player"))) [] no_fields

abbrev id_field : Fields
id_field = field plain (codes "id") (with_array 0 (primitive (codes "string"))) [] no_fields

abbrev both_structs : Fields
both_structs = field plain (codes "Team") (with_array 0 (nested (struct plain [] captain []))) [] (
    field plain (codes "Player") (with_array 0 (nested (struct plain [] id_field []))) [] no_fields)

captain-IsLeaf : IsLeaf view plain (with_array 0 (ref (codes "Player"))) [] 4
unfolding nodes node_at process_tags notation plusses get_comments cut_arrow ℕ_discrete
captain-IsLeaf = record {
  scalar = refl;
  notated = refl;
  readable = refl;
  leaf_tags = refl;
  leaf_doc = refl;
}

id-IsLeaf : IsLeaf view plain (with_array 0 (primitive (codes "string"))) [] 8
unfolding nodes node_at process_tags notation plusses get_comments cut_arrow ℕ_discrete
id-IsLeaf = record {
  scalar = refl;
  notated = refl;
  readable = ((omega arith, omega arith), refl);
  leaf_tags = refl;
  leaf_doc = refl;
}

captain-IsStructNode : IsStructNode view (TypeNode view 1) (struct plain [] captain []) 2
unfolding nodes node_at process_tags unmarshal_yaml get insert delete Text-discrete ℕ_discrete
captain-IsStructNode = record {
  own_tags = plain;
  own_fields = captain;
  shape = refl;
  tagged = refl;
  mapping = refl;
  apart = (tt, tt);
  listed = (3, 4, [], refl, refl, refl, captain-IsLeaf, refl);
}

id-IsStructNode : IsStructNode view (TypeNode view 1) (struct plain [] id_field []) 6
unfolding nodes node_at process_tags unmarshal_yaml get insert delete Text-discrete ℕ_discrete
id-IsStructNode = record {
  own_tags = plain;
  own_fields = id_field;
  shape = refl;
  tagged = refl;
  mapping = refl;
  apart = (tt, tt);
  listed = (7, 8, [], refl, refl, refl, id-IsLeaf, refl);
}

both-IsStructNode : IsStructNode view (TypeNode view 2) (struct plain [] both_structs []) 0
unfolding nodes node_at process_tags unmarshal_yaml get insert delete Text-discrete ℕ_discrete
both-IsStructNode = record {
  own_tags = plain;
  own_fields = both_structs;
  shape = refl;
  tagged = refl;
  mapping = refl;
  apart = ((λ e. cc, tt), (tt, tt));
  listed = (
    1,
    2,
    5 ∷ 6 ∷ [],
    refl,
    refl,
    refl,
    (refl, refl, refl, refl, refl, captain-IsStructNode),
    (5, 6, [], refl, refl, refl, (refl, refl, refl, refl, refl, id-IsStructNode), refl),
  );
}

parse_struct-written_example : parse_struct view 2 0 ≡ done (struct plain [] both_structs [])
parse_struct-written_example =
    parse_struct-written view 2 (struct plain [] both_structs []) 0 both-IsStructNode
