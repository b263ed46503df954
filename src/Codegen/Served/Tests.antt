-- ===== src/Codegen/Served/Tests.antt =====
-- A message to the generated channel of a concrete file, whose event is for the server to send.
use eddwise.Base.{
  ◌≡◌, List, there, subst, insert, delete, Text, Text-discrete, codes, text_key, get, [], ◌∷◌, none,
  some, false, here, refl,
}
use eddwise.Design.{Struct}
use eddwise.Design.Accept.Tests.{game, lobby}
use eddwise.Design.Merge.{structs_map, map_of_structs}
use eddwise.Design.Parsing.Tests.{view, decode, files, parse_runs}
use eddwise.Samples.{env, start}
use eddwise.Server.{Server, State, Channel, App, EventMessage, room_event_of, process_event}
use eddwise.Codegen.Served.{Receiver, invalid_fields, route}
use eddwise.Codegen.Served.Handled.{Printed, Answered, process_event-generated}

abbrev message : EventMessage
message = record { channel = codes "lobby"; name = codes "Team"; body = codes "b" }

-- A message is the text of its body, and no field is set.
abbrev receiver : Receiver Text
receiver = record {
  decode = λ ev body. some body;
  is_set = λ msg path. false;
  handle = λ ev c msg st. (st, none);
}

-- No field of the file's structs is marked.
abbrev unchecked : Struct → List Text
unchecked s = []

unchecked-Printed : Printed 5 game unchecked
unfolding invalid_fields get Text-discrete structs_map map_of_structs insert delete
unchecked-Printed s (here p) = subst (λ x. invalid_fields 5 (structs_map game).1 x ≡ some []) p refl
unchecked-Printed s (there (here p)) =
    subst (λ x. invalid_fields 5 (structs_map game).1 x ≡ some []) p refl
unchecked-Printed s (there (there m)) = elim m [ ]

abbrev app : App
app = record {
  bind = λ k st. (st, none);
  set_receiver = λ k st. (st, none);
  route = λ k c event st. route receiver unchecked lobby c event st;
  on_connected = λ k c st. (st, none);
  on_disconnected = λ k c st. st;
  on_basic_auth = λ k c ba st. (st, none, none);
  decode_event = λ raw. some message;
  decode_room = λ body. none;
  decode_create = λ body. none;
  decode_basic = λ body. none;
}

abbrev channel : Channel
channel = record {
  name = codes "lobby";
  alias = codes "lobby";
  room_manager = none;
  conn_manager = none;
  user_join_left = false;
  basic_auth = false;
  connected = false;
  disconnected = false;
}

abbrev server : Server
server = record {
  registered_static = [];
  registered_channels = (codes "lobby", channel) ∷ [];
  client_auto_inc = 1;
  clients = (1, 1) ∷ [];
}

abbrev running : State
running = record { server = server; world = start }

process_event-generated_example :
    Answered receiver game lobby 1 message running (process_event app env 1 [] running)
unfolding get room_event_of Text-discrete
process_event-generated_example =
    process_event-generated view decode files 2 [] game lobby receiver 5 unchecked app env 1 []
      message channel running parse_runs (here refl) unchecked-Printed refl (λ e. cc) refl refl refl
