-- ===== src/Design/Directions.antt =====
-- The events of a channel and their directions: the loop of ParseYaml over a channel's events
-- (eddgen_yml.go), EnabledMap and GetDirectionEvents (structs.go).
pub mod OneWay
pub mod Known
pub mod Sendable
mod Tests
use eddwise.Base.{
  Text, text_key, Dict, get, insert, delete, List, [], ◌∷◌, ◌++◌, Option, none, some, Bool, true,
}
use eddwise.Design.{
  Direction, any, server_to_client, client_to_server, Tags, Struct, DesignChannel, struct_name,
}

pub record YamlChannelEvent : Type 0 where
  pub tags : Tags
  pub event : Text

pub record YamlChannel : Type 0 where
  pub tags : Tags
  pub dual : List YamlChannelEvent
  pub server : List YamlChannelEvent
  pub client : List YamlChannelEvent

pub data EventError : Type 0 where
  unknown_event already_registered_event : Text → EventError

abbrev pub Listed : Type 0
Listed = Dict Text Bool × DesignChannel × Option EventError

-- `ch.Directions[direction][event] = true`, where there is a direction.
unfoldable pub mark : Direction → Text → DesignChannel → DesignChannel
mark any event ch = ch
mark server_to_client event ch = record ch {
  server_to_client = insert event true ch.server_to_client;
}
mark client_to_server event ch = record ch {
  client_to_server = insert event true ch.client_to_server;
}

-- A loop over events, with the direction that each gets.
unfoldable pub add_events :
    (YamlChannelEvent → Direction)
    → Dict Text Struct
    → List YamlChannelEvent
    → Dict Text Bool
    → DesignChannel
    → Listed
unfolding mark
add_events way m [] u ch = (u, ch, none)
add_events way m (node ∷ nodes) u ch = elim (get node.event m) [
  | none ↦ (u, ch, some (unknown_event node.event))
  | some s ↦ elim (get node.event u) [
    | some _ ↦ (u, ch, some (already_registered_event node.event))
    | none ↦
        add_events way m nodes (insert node.event true u)
          (mark (way node) node.event (record ch { enabled = ch.enabled ++ s ∷ [] }))
  ]
]

unfoldable pub then_events :
    (YamlChannelEvent → Direction) → Dict Text Struct → List YamlChannelEvent → Listed → Listed
unfolding add_events
then_events way m nodes (u, ch, some e) = (u, ch, some e)
then_events way m nodes (u, ch, none) = add_events way m nodes u ch

abbrev pub empty_channel : Text → Text → DesignChannel
empty_channel name alias = record {
  name = name;
  alias = alias;
  enabled = [];
  server_to_client = [];
  client_to_server = [];
}

abbrev pub own_direction : YamlChannelEvent → Direction
own_direction node = node.tags.direction

abbrev pub to_client : YamlChannelEvent → Direction
to_client node = server_to_client

abbrev pub to_server : YamlChannelEvent → Direction
to_server node = client_to_server

-- A channel of ParseYaml, by the map of the file's structs: the names listed, the channel, the error.
unfoldable pub parse_channel : Dict Text Struct → Text → YamlChannel → Listed
unfolding then_events
parse_channel m name yaml = then_events to_server m yaml.client (
    then_events to_client m yaml.server
      (add_events own_direction m yaml.dual [] (empty_channel name yaml.tags.alias)))

-- Channel.EnabledMap.
unfoldable pub enabled_each : List Struct → Dict Text Struct → Dict Text Struct
enabled_each [] m = m
enabled_each (s ∷ ss) m = enabled_each ss (insert (struct_name s) s m)

unfoldable pub enabled_map : DesignChannel → Dict Text Struct
unfolding enabled_each
enabled_map ch = enabled_each ch.enabled []

unfoldable pub delete_each : Dict Text Bool → Dict Text Struct → Dict Text Struct
delete_each [] m = m
delete_each ((k, b) ∷ ks) m = delete_each ks (delete k m)

-- Channel.GetDirectionEvents.
unfoldable pub get_direction_events : Direction → DesignChannel → Dict Text Struct
unfolding enabled_map delete_each
get_direction_events any ch = delete_each ch.client_to_server (enabled_map ch)
get_direction_events server_to_client ch = delete_each ch.client_to_server (enabled_map ch)
get_direction_events client_to_server ch = delete_each ch.server_to_client (enabled_map ch)
