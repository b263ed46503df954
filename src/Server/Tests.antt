-- ===== src/Server/Tests.antt =====
-- The theorems on the server at a server with one channel, "chat", and one client, 1.
use mathlib.Core.List.{Mem}
use eddwise.Base.{
  ℕ, Text, Text-discrete, codes, text_key, nat_key, get, [], ◌∷◌, none, some, true, false, ◌≡◌, ◌≢◌,
  ◌↔◌, ◌⊎◌, inl, sym, refl, arith,
}
use eddwise.Send.{already_registered}
use eddwise.Samples.{env, env-IsFair, start}
use eddwise.Room.{RoomManager, room_client_quit}
use eddwise.Server.{
  Server, State, Channel, App, EventMessage, get_clients, add_client, remove_client, register,
  process_event,
}
use eddwise.Server.Managed.{HasRooms, now, received, quit, Later-HasRooms}
use eddwise.Server.Registry.{Own, get_clients-mem, register-keeps}

abbrev chat : Text
chat = codes "chat"

abbrev message : EventMessage
message = record { channel = chat; name = codes "edd:room:join_request"; body = codes "r" }

abbrev app : App
app = record {
  bind = λ k st. (st, none);
  set_receiver = λ k st. (st, none);
  route = λ k c event st. (st, none);
  on_connected = λ k c st. (st, none);
  on_disconnected = λ k c st. st;
  on_basic_auth = λ k c ba st. (st, none, none);
  decode_event = λ raw. some message;
  decode_room = λ body. some body;
  decode_create = λ body. none;
  decode_basic = λ body. none;
}

abbrev rooms : RoomManager
rooms = record { ch = chat; rooms = []; multi_room_limit_per_user = 0; multi_room_mode = false }

abbrev channel : Channel
channel = record {
  name = chat;
  alias = chat;
  room_manager = some rooms;
  conn_manager = none;
  user_join_left = false;
  basic_auth = false;
  connected = false;
  disconnected = false;
}

abbrev server : Server
server = record {
  registered_static = [];
  registered_channels = (chat, channel) ∷ [];
  client_auto_inc = 1;
  clients = (1, 1) ∷ [];
}

abbrev running : State
running = record { server = server; world = start }

get_clients-mem_example :
    (Mem 1 (get_clients env (2 ∷ []) server)
      ↔ ((get 1 server.clients ≡ some 1) × (¬ Mem {A = ℕ} 1 (2 ∷ []))))
    × Own (add_client 1 server).clients
    × Own (remove_client 1 server).clients
get_clients-mem_example = get_clients-mem env (2 ∷ []) 1 server env-IsFair (refl, tt)

register-keeps_example :
    (get chat (register app channel running).0.server.registered_channels ≡ some channel)
    × ((chat ≢ chat) ⊎ (register app channel running ≡ (running, some (already_registered chat))))
unfolding get Text-discrete
register-keeps_example =
    register-keeps app channel channel chat running (λ b. refl) (λ b. refl) refl

-- Every message asks for a room.
abbrev creator : App
creator = record app {
  decode_event =
      λ raw. some (record { channel = chat; name = codes "edd:room:create_request"; body = raw });
  decode_create = λ body. some (body, true);
}

abbrev created : State
created = (process_event creator env 1 (codes "r") running).0

abbrev quitted : State
quitted = record created { world = room_client_quit env 1 created.world }

running-HasRooms : HasRooms chat running
unfolding get Text-discrete
running-HasRooms = record {
  home = channel;
  manager = rooms;
  registered = refl;
  managed = refl;
  agrees = record {
    filed = λ k r h. cc;
    holds = λ c k r h. cc;
    lists = λ r c d h. cc;
    distinct_members = λ r. tt;
    distinct_rooms = λ c. tt;
  };
  own =
      λ j ch h. elim (Text-discrete chat j) [ yes p ↦ ground arith | no p ↦ absurd (ground arith) ];
  only =
      λ j ch h. elim (Text-discrete chat j) [ yes p ↦ inl (sym p) | no p ↦ absurd (ground arith) ];
}

Later-HasRooms_example : HasRooms chat quitted
Later-HasRooms_example =
    Later-HasRooms creator env chat running quitted (λ j c event t v. v) running-HasRooms
      (quit 1 (received 1 (codes "r") now refl) refl)
