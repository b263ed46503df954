-- ===== src/Design/Nodes/Tests.antt =====
-- Reading concrete mappings, whose nodes are their own texts.
use eddwise.Base.{
  Text, Text-discrete, codes, text_key, get, insert, delete, List, [], ◌∷◌, some, true, ◌≡◌, refl,
  ℕ_discrete,
}
use eddwise.Design.Nodes.{NodeView, duplicate_key, unmarshal_yaml}

abbrev view : List Text → NodeView Text
view nodes = record {
  is_mapping = λ n. true;
  is_scalar = λ n. true;
  value = λ n. n;
  content = λ n. nodes;
  line = λ n. 7;
  tag = λ n. [];
  head_comment = λ n. [];
  line_comment = λ n. [];
  foot_comment = λ n. [];
}

abbrev two : List Text
two = codes "x" ∷ codes "int" ∷ codes "y" ∷ codes "string" ∷ []

twice_runs :
    unmarshal_yaml (view (codes "x" ∷ codes "int" ∷ codes "x" ∷ codes "string" ∷ [])) []
    ≡ ((codes "x", codes "int") ∷ [], some (duplicate_key 7))
unfolding unmarshal_yaml get insert delete Text-discrete ℕ_discrete
twice_runs = refl
