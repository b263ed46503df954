-- ===== src/Design/Parsing/Tests.antt =====
-- A concrete file of two structs and a channel, whose nodes are numbers.
mod Nested
use eddwise.Base.{
  ◌++◌, ℕ, ◌-◌, ◌<◌, Text, Text-discrete, codes, text_key, get, insert, delete, Distinct, List, [],
  ◌∷◌, map, Option, none, some, Bool, true, false, not, suc, ◌+◌, All, All-at, if_pos, if_neg,
  subst, At, ◌≡◌, ◌≢◌, ◌↔◌, refl, arith, ℕ_discrete, ite,
}
use eddwise.Design.{
  primitive, nested, ref, with_array, Fields, no_fields, field, struct, struct_name,
}
use eddwise.Design.Accept.{sort_design}
use eddwise.Design.Accept.Conditions.{MarksEnabled}
use eddwise.Design.Accept.Tests.{plain, game, as_is, as_is-IsFairOrder, rank, game-IsGrounded}
use eddwise.Design.Annotations.{process_tags, get_comments}
use eddwise.Design.Directions.Known.{Known}
use eddwise.Design.Merge.{structs_map}
use eddwise.Design.Names.{struct_protocol_alias}
use eddwise.Design.Nodes.{NodeView, unmarshal_yaml}
use eddwise.Design.Types.{cut_arrow}
use eddwise.Design.Types.Parse.{plusses, notation}
use eddwise.Design.Validate.Defined.{IsDefined}
use eddwise.Design.Parsing.{no_fuel, panicked, done, parse_struct}
use eddwise.Design.Parsing.Ends.{parse_struct-ends}
use eddwise.Design.Parsing.Files.{RawDesign, RawChannel, parse_yaml, parse_and_validate_yamls}
use eddwise.Design.Parsing.Single.{parse_and_validate_yamls_iff}
use eddwise.Design.Parsing.Written.{IsLeaf, IsStructNode, TypeNode, parse_struct-written}
use eddwise.Design.Parsing.Sound.{parse_yaml-IsSound}

pub record Node : Type 0 where
  pub is_map : Bool
  pub text : Text
  pub children : List ℕ

abbrev scalar : Text → Node
scalar s = record { is_map = false; text = s; children = [] }

abbrev mapping : List ℕ → Node
mapping ns = record { is_map = true; text = []; children = ns }

unfoldable pub node_at : ℕ → List Node → Node
node_at n [] = scalar []
node_at n (x ∷ xs) = let rest = node_at (n - 1) xs in ite (ℕ_discrete n 0) x rest

unfoldable pub nodes : List Node
nodes =
    mapping (1 ∷ 2 ∷ 5 ∷ 6 ∷ [])
    ∷ scalar (codes "Team")
    ∷ mapping (3 ∷ 4 ∷ [])
    ∷ scalar (codes "captain")
    ∷ scalar (codes ".Player")
    ∷ scalar (codes "Player")
    ∷ mapping (7 ∷ 8 ∷ [])
    ∷ scalar (codes "id")
    ∷ scalar (codes "string")
    ∷ mapping (10 ∷ 11 ∷ [])
    ∷ scalar (codes "lobby")
    ∷ mapping []
    ∷ scalar (codes "Team")
    ∷ []

abbrev pub view : NodeView ℕ
view = record {
  is_mapping = λ n. (node_at n nodes).is_map;
  is_scalar = λ n. not (node_at n nodes).is_map;
  value = λ n. (node_at n nodes).text;
  content = λ n. (node_at n nodes).children;
  line = λ n. n;
  tag = λ n. [];
  head_comment = λ n. [];
  line_comment = λ n. [];
  foot_comment = λ n. [];
}

-- The channel of the file: Team is sent by the server.
unfoldable pub decode : ℕ → Option (RawChannel ℕ)
decode n = some (record { dual_nodes = []; server_nodes = 12 ∷ []; client_nodes = [] })

unfoldable pub files : Text → Option (RawDesign ℕ)
files path =
    some (record { namespace = codes "game"; structs_node = some 0; channels_node = some 9 })

depth : ℕ → ℕ
depth n = 13 - n

-- From the k-th node on, children stand later in the table.
abbrev Later : ℕ → List Node → Type 0
Later k [] = Unit
Later k (x ∷ xs) = All (λ c. (k < c) × (c < 13)) x.children × Later (suc k) xs

children-Later :
    (n k c : ℕ) (xs : List Node)
    → Later k xs
    → At c (node_at n xs).children
    → (k + n < c) × (c < 13)
unfolding node_at
children-Later n k c [] v m = elim m [ ]
children-Later n k c (x ∷ xs) v m = elim (ℕ_discrete n 0) [
  | yes e ↦
      let (low, high) =
        All-at (λ i. (k < i) × (i < 13)) c x.children v.0
          (subst (λ (y : Node). At c y.children) (if_pos _ e x (node_at (n - 1) xs)) m) in
      (omega (arith, e), high)
  | no e ↦
      let (low, high) =
        children-Later (n - 1) (suc k) c xs v.1
          (subst (λ (y : Node). At c y.children) (if_neg _ e x (node_at (n - 1) xs)) m) in
      (omega (arith, e), high)
]

nodes-Later : Later 0 nodes
unfolding nodes
nodes-Later = (
  (
    (omega arith, omega arith),
    ((omega arith, omega arith), ((omega arith, omega arith), ((omega arith, omega arith), tt))),
  ),
  (
    tt,
    (
      ((omega arith, omega arith), ((omega arith, omega arith), tt)),
      (
        tt,
        (
          tt,
          (
            tt,
            (
              ((omega arith, omega arith), ((omega arith, omega arith), tt)),
              (
                tt,
                (
                  tt,
                  (
                    ((omega arith, omega arith), ((omega arith, omega arith), tt)),
                    (tt, (tt, (tt, tt))),
                  ),
                ),
              ),
            ),
          ),
        ),
      ),
    ),
  ),
)

depth-down : (n c : ℕ) → At c (view.content n) → depth c < depth n
unfolding depth
depth-down n c m = let (low, high) = children-Later n 0 c nodes nodes-Later m in omega arith

pub parse_runs : parse_yaml view decode files 2 [] ≡ done game
unfolding parse_yaml nodes node_at files decode get_comments get insert delete Text-discrete
    ℕ_discrete
parse_runs = refl

parse_struct-ends_example : (parse_struct view 13 0 ≢ no_fuel) × (parse_struct view 13 0 ≢ panicked)
unfolding depth
parse_struct-ends_example = parse_struct-ends view depth depth-down 13 0 (omega arith)

parse_yaml-IsSound_example :
    Distinct (map (λ s. (struct_name s, s)) game.structs)
    × Distinct (map (λ s. (struct_protocol_alias s, s)) game.structs)
    × All (λ ch. MarksEnabled ch × Known (structs_map game).1 ch) game.channels
parse_yaml-IsSound_example = parse_yaml-IsSound view decode files 2 [] game parse_runs

parse_and_validate_yamls_iff_example :
    (parse_and_validate_yamls view decode as_is files 2 5 ([] ∷ [])
      ≡ done (sort_design (structs_map game).0))
    ↔ (All (IsDefined (structs_map game).1) game.structs
        × All
            (λ ch.
              (get (ch.name ++ codes "Context") (structs_map game).1 ≡ none)
              × (get (ch.name ++ codes "DefaultContext") (structs_map game).1 ≡ none)
              × (get (ch.name ++ codes "Recv") (structs_map game).1 ≡ none))
            game.channels)
parse_and_validate_yamls_iff_example =
    parse_and_validate_yamls_iff view decode as_is files 2 5 [] game rank 2 as_is-IsFairOrder
      (omega arith) parse_runs game-IsGrounded
