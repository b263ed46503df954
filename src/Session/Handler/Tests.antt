-- ===== src/Session/Handler/Tests.antt =====
-- The handler's theorems at concrete connections. The application takes any answer as alice's, but a
-- channel "b" refuses it.
use eddwise.Base.{
  Text, Text-discrete, codes, text_key, nat_key, get, insert, delete, [], ◌∷◌, Option, none, some,
  true, false, ◌≡◌, refl, ite, ℕ_discrete,
}
use eddwise.World.{set_client, set_raw_auth, close}
use eddwise.Send.{app_error}
use eddwise.Samples.{env, start}
use eddwise.Conn.{ConnManager, remove_auth}
use eddwise.Server.{State, Channel, App, add_client, remove_client, put_channel}
use eddwise.Session.{revoke_auth, revoke_each, revoke_channel, revoke_managed}
use eddwise.Session.Handler.{
  over_channels, visit, unregister, after_loop, read_loop, serve, join_user, list_rooms, quit_rooms,
  left_user, disconnect,
}
use eddwise.Session.Handler.Clears.{serve-unregistered}

abbrev app : App
app = record {
  bind = λ k st. (st, none);
  set_receiver = λ k st. (st, none);
  route = λ k c event st. (st, none);
  on_connected = λ k c st. (st, none);
  on_disconnected = λ k c st. st;
  on_basic_auth = λ k c ba st.
      ite (Text-discrete k (codes "b")) (st, some (app_error (codes "refused")), none)
        (st, none, some (record { id = codes "alice"; payload = [] }));
  decode_event = λ raw. some (record { channel = raw; name = codes "edd:auth:basic"; body = [] });
  decode_room = λ body. none;
  decode_create = λ body. none;
  decode_basic = λ body. some (record { username = codes "alice"; password = [] });
}

abbrev plain : Text → Channel
plain k = record {
  name = k;
  alias = k;
  room_manager = none;
  conn_manager = some (record { clients = []; user_connections = [] });
  user_join_left = false;
  basic_auth = true;
  connected = false;
  disconnected = false;
}

-- Client 1 is alice in the channel "a".
abbrev alice_in : ConnManager
alice_in = record { clients = (1, 1) ∷ []; user_connections = (codes "alice", (1, 1) ∷ []) ∷ [] }

abbrev one_channel : State
one_channel = record {
  server = record {
    registered_static = [];
    registered_channels =
        (codes "a", record (plain (codes "a")) { conn_manager = some alice_in }) ∷ [];
    client_auto_inc = 1;
    clients = [];
  };
  world = set_raw_auth 1 (some (record { id = codes "alice"; payload = [] })) start;
}

abbrev state_or : State → Option State → State
state_or st none = st
state_or st (some st') = st'

abbrev served : State
served = state_or one_channel (serve env 1 app [] one_channel)

serve-unregistered_example : get 1 served.server.clients ≡ none
unfolding serve after_loop read_loop unregister over_channels visit revoke_auth revoke_each
    revoke_channel revoke_managed add_client remove_client close set_raw_auth set_client get insert
    delete ℕ_discrete Text-discrete remove_auth put_channel join_user list_rooms quit_rooms
    left_user disconnect
serve-unregistered_example = serve-unregistered env 1 app [] one_channel served refl
