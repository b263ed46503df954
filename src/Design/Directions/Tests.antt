-- ===== src/Design/Directions/Tests.antt =====
-- A channel that clients send Move to, and whose Score goes both ways.
use eddwise.Base.{
  Text, Text-discrete, codes, text_key, Dict, get, insert, delete, [], ◌∷◌, none, some, ◌≡◌, ◌≢◌,
  ◌↔◌, ◌⊎◌, refl, arith,
}
use eddwise.Design.{
  Tags, any, server_to_client, client_to_server, Struct, struct, no_fields, DesignChannel,
}
use eddwise.Design.Directions.{YamlChannel, parse_channel, enabled_map, get_direction_events}
use eddwise.Design.Directions.Sendable.{get_direction_events_iff}
use eddwise.Design.Directions.OneWay.{Named, parse_channel-one_way}

abbrev plain : Tags
plain = record { alias = []; direction = any }

abbrev move : Struct
move = struct plain (codes "Move") no_fields []

abbrev score : Struct
score = struct plain (codes "Score") no_fields []

abbrev structs : Dict Text Struct
structs = (codes "Move", move) ∷ (codes "Score", score) ∷ []

abbrev game : YamlChannel
game = record {
  tags = plain;
  dual = record { tags = plain; event = codes "Score" } ∷ [];
  server = [];
  client = record { tags = plain; event = codes "Move" } ∷ [];
}

abbrev channel : DesignChannel
channel = (parse_channel structs (codes "game") game).1

move_runs : get (codes "Move") (get_direction_events server_to_client channel) ≡ none
unfolding parse_channel get_direction_events get insert delete Text-discrete
move_runs = refl

score_runs : get (codes "Score") (get_direction_events server_to_client channel) ≡ some score
unfolding parse_channel get_direction_events get insert delete Text-discrete
score_runs = refl

structs-Named : Named structs
unfolding get
structs-Named k s h = elim (Text-discrete (codes "Move") k) [
  | yes p ↦ ground arith
  | no p ↦ elim (Text-discrete (codes "Score") k) [
    | yes q ↦ ground arith
    | no q ↦ absurd (ground arith)
  ]
]

parse_channel-one_way_example :
    ((get (codes "Move") (get_direction_events server_to_client channel)
        ≡ get (codes "Move") (enabled_map channel))
      ⊎ (get (codes "Move") (get_direction_events client_to_server channel)
          ≡ get (codes "Move") (enabled_map channel)))
    × ((get (codes "Move") (enabled_map channel) ≢ none)
        ⊎ ((get (codes "Move") channel.server_to_client ≡ none)
            × (get (codes "Move") channel.client_to_server ≡ none)))
parse_channel-one_way_example =
    parse_channel-one_way structs (codes "game") game (codes "Move") structs-Named

get_direction_events_iff_example :
    (get (codes "Move") (get_direction_events client_to_server channel) ≡ some move) ↔ (
      (get (codes "Move") (enabled_map channel) ≡ some move)
      × (get (codes "Move") channel.server_to_client ≡ none))
get_direction_events_iff_example =
    get_direction_events_iff client_to_server channel (codes "Move") move
