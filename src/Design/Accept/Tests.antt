-- ===== src/Design/Accept/Tests.antt =====
-- Validate at a concrete design of two structs and a channel.
use mathlib.Core.List.Perm
use mathlib.Core.List.{Perm}
use eddwise.Base.{
  ℕ, Text, Text-discrete, codes, text_key, get, insert, delete, List, [], ◌∷◌, none, some, true,
  here, there, ◌⊎◌, inl, inr, subst, ◌≡◌, refl, arith, ite, ℕ_discrete,
}
use eddwise.Design.{
  Tags, any, primitive, ref, with_array, no_fields, field, Struct, struct, DesignChannel,
  struct_name,
}
use eddwise.Design.Directions.{enabled_map}
use eddwise.Design.Sort.Order.{IsSorted}
use eddwise.Design.Merge.{Design, structs_map, map_of_structs}
use eddwise.Design.Accept.{sort_design, validate, channel_name}
use eddwise.Design.Accept.Conditions.{IsFairOrder}
use eddwise.Design.Accept.Valid.{IsGrounded, validate-IsSorted}
use eddwise.Design.Validate.Names.{Uses}
use eddwise.Design.Validate.Ends.{Below}

abbrev pub as_is : (A : Type 0) → List A → List A
as_is A xs = xs

pub as_is-IsFairOrder : IsFairOrder as_is
as_is-IsFairOrder A xs = Perm.refl xs

abbrev pub plain : Tags
plain = record { alias = []; direction = any }

abbrev pub team : Struct
team =
    struct plain (codes "Team")
      (field plain (codes "captain") (with_array 0 (ref (codes "Player"))) [] no_fields) []

abbrev player : Struct
player =
    struct plain (codes "Player")
      (field plain (codes "id") (with_array 0 (primitive (codes "string"))) [] no_fields) []

abbrev pub lobby : DesignChannel
lobby = record {
  name = codes "lobby";
  alias = [];
  enabled = team ∷ [];
  server_to_client = (codes "Team", true) ∷ [];
  client_to_server = [];
}

abbrev pub game : Design
game = record {
  name = codes "game";
  channels = lobby ∷ [];
  structs = team ∷ player ∷ [];
  struct_map = none;
}

-- Team refers to Player.
pub rank : Text → ℕ
rank r = ite (Text-discrete r (codes "Team")) 1 0

game_structs :
    (r : Text) (s : Struct)
    → get r (structs_map game).1 ≡ some s
    → ((codes "Player" ≡ r) × (player ≡ s)) ⊎ ((codes "Team" ≡ r) × (team ≡ s))
unfolding structs_map map_of_structs get insert delete Text-discrete
game_structs r s h = elim (Text-discrete (codes "Player") r) [
  | yes p ↦ inl (p, ground arith)
  | no p ↦ elim (Text-discrete (codes "Team") r) [
    | yes q ↦ inr (q, ground arith)
    | no q ↦ absurd (ground arith)
  ]
]

player-Below : Below rank (rank (codes "Player")) player
unfolding rank Text-discrete Uses
player-Below = (tt, tt)

team-Below : Below rank (rank (codes "Team")) team
unfolding rank Text-discrete Uses
team-Below = (omega arith, tt)

pub game-IsGrounded : IsGrounded game (structs_map game).1 rank 2
unfolding rank
game-IsGrounded = record {
  ranked = λ r s h. elim (game_structs r s h) [
    | inl (p, q) ↦
        subst (λ t. Below rank (rank t) s) p
          (subst (Below rank (rank (codes "Player"))) q player-Below)
    | inr (p, q) ↦
        subst (λ t. Below rank (rank t) s) p (subst (Below rank (rank (codes "Team"))) q team-Below)
  ];
  bounded = λ r. ground arith;
  mapped = λ r s h. elim (game_structs r s h) [ inl (p, q) ↦ there (here q) | inr (p, q) ↦ here q ];
}

validate_runs : validate as_is 5 game ≡ some (sort_design (structs_map game).0, none)
unfolding validate structs_map map_of_structs get insert delete Text-discrete ℕ_discrete enabled_map
validate_runs = refl

validate-IsSorted_example :
    IsSorted struct_name (sort_design (structs_map game).0).structs
    × Perm (sort_design (structs_map game).0).structs game.structs
    × IsSorted channel_name (sort_design (structs_map game).0).channels
    × Perm (sort_design (structs_map game).0).channels game.channels
validate-IsSorted_example =
    validate-IsSorted as_is 5 game (sort_design (structs_map game).0) validate_runs
