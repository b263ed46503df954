-- ===== src/Server.antt =====
-- eddwise.go: ServerSocket, its registry of channels and of clients, and the routing of a message.
-- A channel is the record of the optional interfaces that its type implements, with the state of the
-- RoomManager and the ConnManager that it embeds; what its own methods do is in `App`.
pub mod Registry
pub mod Routing
mod Managed
mod Tests
use eddwise.Base.{
  ℕ, suc, ◌+◌, ◌%◌, ◌^◌, Text, codes, Text-discrete, text_key, nat_key, Dict, get, insert, delete,
  values, List, [], ◌∷◌, Option, none, some, Bool, true, false, if◌then◌else◌, ite, ℕ_discrete,
}
use eddwise.Event.{ClientRoomEvent, create_request, join_request, left_request}
use eddwise.World.{World, Env, Auth}
use eddwise.Send.{
  Error, decode_error, empty_channel, unknown_channel, room_events_not_handled, already_registered,
}
use eddwise.Room.{RoomManager, room_manager_init, on_room_event}
use eddwise.Conn.{ConnManager, conn_manager_init, contains_id}

pub record EventMessage : Type 0 where
  pub channel : Text
  pub name : Text
  pub body : Text

pub record Channel : Type 0 where
  pub name : Text
  pub alias : Text
  pub room_manager : Option RoomManager
  pub conn_manager : Option ConnManager
  pub user_join_left : Bool
  pub basic_auth : Bool
  pub connected : Bool
  pub disconnected : Bool

pub record Server : Type 0 where
  pub registered_static : Dict Text Text
  pub registered_channels : Dict Text Channel
  pub client_auto_inc : ℕ
  pub clients : Dict ℕ ℕ

pub record State : Type 0 where
  pub server : Server
  pub world : World

pub record BasicAuth : Type 0 where
  pub username : Text
  pub password : Text

-- The application's methods of a channel, by its alias, and the codec's decoding. A method may change
-- whatever the server holds.
pub record App : Type 0 where
  pub bind : Text → State → State × Option Error
  pub set_receiver : Text → State → State × Option Error
  pub route : Text → ℕ → EventMessage → State → State × Option Error
  pub on_connected : Text → ℕ → State → State × Option Error
  pub on_disconnected : Text → ℕ → State → State
  pub on_basic_auth : Text → ℕ → BasicAuth → State → State × Option Error × Option Auth
  pub decode_event : Text → Option EventMessage
  pub decode_room : Text → Option Text
  pub decode_create : Text → Option (Text × Bool)
  pub decode_basic : Text → Option BasicAuth

unfoldable pub new_server : Server
new_server = record {
  registered_static = [];
  registered_channels = [];
  client_auto_inc = 0;
  clients = [];
}

unfoldable pub add_client : ℕ → Server → Server
add_client c s = record s { clients = insert c c s.clients }

unfoldable pub get_client : ℕ → Server → Option ℕ
get_client c s = get c s.clients

unfoldable pub remove_client : ℕ → Server → Server
remove_client c s = record s { clients = delete c s.clients }

unfoldable pub register_static : Text → Text → Server → Server
register_static path dir s = record s { registered_static = insert path dir s.registered_static }

-- atomic.AddUint64 wraps around.
unfoldable pub next_id : Server → ℕ
next_id s = (s.client_auto_inc + 1) % 2 ^ 64

-- The loop of GetClients, over the clients in some order.
unfoldable pub without : List ℕ → List ℕ → List ℕ
without exclude [] = []
without exclude (c ∷ cs) =
    if contains_id exclude c then without exclude cs else c ∷ without exclude cs

unfoldable pub get_clients : Env → List ℕ → Server → List ℕ
unfolding without
get_clients env exclude s = without exclude (env.order ℕ (values s.clients))

-- The managers of a channel when it is registered.
unfoldable pub init_managers : Channel → Channel
unfolding conn_manager_init room_manager_init
init_managers ch = record ch {
  conn_manager = elim ch.conn_manager [ none ↦ none | some cm ↦ some (conn_manager_init cm) ];
  room_manager = elim ch.room_manager [
    | none ↦ none
    | some rm ↦ some (room_manager_init ch.alias rm)
  ];
}

unfoldable pub put_channel : Channel → State → State
put_channel ch st = record st {
  server = record (st.server) {
    registered_channels = insert ch.alias ch st.server.registered_channels;
  };
}

module _ (app : App) where
  after_bind : Channel → State × Option Error → State × Option Error
  unfolding put_channel init_managers
  after_bind ch (st, some e) = (st, some e)
  after_bind ch (st, none) = app.set_receiver ch.alias (put_channel (init_managers ch) st)

  -- ServerSocket.Register.
  unfoldable pub register : Channel → State → State × Option Error
  unfolding after_bind
  register ch st = elim (get ch.alias st.server.registered_channels) [
    | some _ ↦ (st, some (already_registered ch.name))
    | none ↦ after_bind ch (app.bind ch.alias st)
  ]

  -- The switch of ProcessEvent on the event's name: no room event, a room event, or a body that does
  -- not decode.
  pub decode_join : Text → Option ClientRoomEvent
  decode_join body = elim (app.decode_room body) [
    | none ↦ none
    | some room ↦ some (join_request room)
  ]

  decode_left : Text → Option ClientRoomEvent
  decode_left body = elim (app.decode_room body) [
    | none ↦ none
    | some room ↦ some (left_request room)
  ]

  decode_create_request : Text → Option ClientRoomEvent
  decode_create_request body = elim (app.decode_create body) [
    | none ↦ none
    | some (room, public) ↦ some (create_request room public)
  ]

  unfoldable pub room_event_of : EventMessage → Option (Option ClientRoomEvent)
  unfolding decode_join decode_left decode_create_request
  room_event_of event =
      ite (Text-discrete event.name (codes "edd:room:join_request")) (some (decode_join event.body))
        (ite (Text-discrete event.name (codes "edd:room:left_request"))
          (some (decode_left event.body))
          (ite (Text-discrete event.name (codes "edd:room:create_request"))
            (some (decode_create_request event.body)) none))

  module _ (env : Env) where
    -- `rm.OnRoomEvent(ctx.GetClient(), roomEvent)`, with the manager written back.
    handle_room : Channel → ℕ → ClientRoomEvent → State → State × Option Error
    unfolding put_channel
    handle_room ch c event st = elim ch.room_manager [
      | none ↦ (st, some room_events_not_handled)
      | some rm ↦
          let done = on_room_event env rm (get_clients env [] st.server) c event st.world in
          (
            put_channel (record ch { room_manager = some done.0 }) (record st { world = done.1 }),
            done.2,
          )
    ]

    dispatch :
        Channel → ℕ → EventMessage → Option (Option ClientRoomEvent) → State → State × Option Error
    unfolding handle_room
    dispatch ch c event none st = app.route ch.alias c event st
    dispatch ch c event (some none) st = (st, some decode_error)
    dispatch ch c event (some (some room_event)) st = handle_room ch c room_event st

    on_channel : ℕ → EventMessage → Option Channel → State → State × Option Error
    unfolding dispatch
    on_channel c event none st = (st, some (unknown_channel event.channel))
    on_channel c event (some ch) st = dispatch ch c event (room_event_of event) st

    process_decoded : ℕ → Option EventMessage → State → State × Option Error
    unfolding on_channel
    process_decoded c none st = (st, some decode_error)
    process_decoded c (some event) st =
        ite (Text-discrete event.channel []) (st, some empty_channel)
          (on_channel c event (get event.channel st.server.registered_channels) st)

    -- ServerSocket.ProcessEvent.
    unfoldable pub process_event : ℕ → Text → State → State × Option Error
    unfolding process_decoded
    process_event c raw_event st = process_decoded c (app.decode_event raw_event) st
