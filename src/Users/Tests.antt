-- ===== src/Users/Tests.antt =====
-- A client joins and leaves a channel of a server with three clients, one of which cannot be reached.
use eddwise.Base.{
  Option, codes, nat_key, [], ◌∷◌, map, true, false, none, some, ◌≡◌, refl, sprint, ℕ_discrete,
  dec_lt, All,
}
use eddwise.Event.{user_join, protocol_alias}
use eddwise.World.{World}
use eddwise.Samples.{env, env-IsFair, start}
use eddwise.Send.{Error, message}
use eddwise.Send.Delivery.{reaches}
use eddwise.Conn.{contains_id}
use eddwise.Server.{Server, Channel, get_clients}
use eddwise.Users.{on_join}
use eddwise.Users.Left.{Told}
use eddwise.Users.Joined.{greeted, on_join-Told}

abbrev lobby : Channel
lobby = record {
  name = codes "lobby";
  alias = codes "lobby";
  room_manager = none;
  conn_manager = none;
  user_join_left = true;
  basic_auth = false;
  connected = false;
  disconnected = false;
}

abbrev server : Server
server = record {
  registered_static = [];
  registered_channels = [];
  client_auto_inc = 9;
  clients = (1, 1) ∷ (2, 2) ∷ (9, 9) ∷ [];
}

others_reached :
    All
      (λ id. reaches env lobby.alias (user_join id) start 2 ≡ true)
      (map sprint (get_clients env (2 ∷ []) server))
unfolding reaches message protocol_alias get_clients contains_id sprint ℕ_discrete dec_lt
others_reached = (refl, (refl, tt))

on_join-Told_example :
    (on_join env lobby 2 false server start
      ≡ some (greeted env lobby 2 (map sprint (get_clients env (2 ∷ []) server)) start, none))
    × ((r : World × Option Error) × (on_join env lobby 2 true server start ≡ some r)
        × Told env env-IsFair lobby
            (user_join (sprint 2))
            (get_clients env (2 ∷ []) server)
            (greeted env lobby 2 (map sprint (get_clients env (2 ∷ []) server)) start)
            r)
on_join-Told_example = on_join-Told env lobby 2 env-IsFair server start refl others_reached
