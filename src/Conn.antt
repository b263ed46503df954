-- ===== src/Conn.antt =====
-- auth.go: the methods of ConnManager. A client is named by its pointer, its id; the clients' auths
-- are in the world. `none` as a result is a panic: Go dereferences nil there.
pub mod Connected
pub mod Ghost
pub mod Revoke
mod Tests
use mathlib.Core.List.{filter}
use eddwise.Base.{
  ℕ, Text, Text-discrete, text_key, nat_key, Dict, get, insert, delete, keys, List, [], ◌∷◌, Option,
  none, some, Bool, true, false, if◌then◌else◌, ite, ℕ_discrete, length,
}
use eddwise.World.{World, Env, Auth, set_raw_auth}

pub record ConnManager : Type 0 where
  pub clients : Dict ℕ ℕ
  pub user_connections : Dict Text (Dict ℕ ℕ)

unfoldable pub conn_manager_init : ConnManager → ConnManager
conn_manager_init cm = record { clients = []; user_connections = [] }

-- A missing inner map is nil, which reads as empty.
abbrev pub inner_map : Text → Dict Text (Dict ℕ ℕ) → Dict ℕ ℕ
inner_map u m = elim (get u m) [ none ↦ [] | some inner ↦ inner ]

unfoldable pub set_auth : ℕ → Auth → ConnManager → World → ConnManager × World × Bool
unfolding set_raw_auth ℕ_discrete
set_auth c a cm w =
    let inner = insert c c (inner_map a.id cm.user_connections) in
    (
      record {
        clients = insert c c cm.clients;
        user_connections = insert a.id inner cm.user_connections;
      },
      set_raw_auth c (some a) w,
      ite (ℕ_discrete (length inner) 1) true false,
    )

-- The inner map without the client; a map that becomes empty is deleted, and the result tells
-- whether the user has a connection left.
pub drop_connection :
    Text → ℕ → Option (Dict ℕ ℕ) → Dict Text (Dict ℕ ℕ) → Dict Text (Dict ℕ ℕ) × Bool
drop_connection u c none m = (delete u m, false)
drop_connection u c (some inner) m = elim (delete c inner) [
  | [] ↦ (delete u m, false)
  | e ∷ rest ↦ (insert u (delete c inner) m, true)
]

pub remove_from : ℕ → Option Auth → ConnManager → Option (ConnManager × Bool)
unfolding drop_connection
remove_from c none cm = none
remove_from c (some a) cm =
    let dropped = drop_connection a.id c (get a.id cm.user_connections) cm.user_connections in
    some (record { clients = delete c cm.clients; user_connections = dropped.0 }, dropped.1)

unfoldable pub remove_auth : ℕ → ConnManager → World → Option (ConnManager × Bool)
unfolding remove_from
remove_auth c cm w = elim (get c cm.clients) [
  | none ↦ none
  | some d ↦ remove_from c (w.clients d).auth cm
]

unfoldable pub is_user_connected : Text → ConnManager → Bool
is_user_connected u cm = elim (get u cm.user_connections) [ none ↦ false | some _ ↦ true ]

-- slices.Contains.
unfoldable pub contains_text : List Text → Text → Bool
contains_text [] u = false
contains_text (x ∷ xs) u = ite (Text-discrete x u) true (contains_text xs u)

unfoldable pub contains_id : List ℕ → ℕ → Bool
contains_id [] c = false
contains_id (x ∷ xs) c = ite (ℕ_discrete x c) true (contains_id xs c)

add_client : List Text → Option Auth → ℕ → Option (List ℕ) → Option (List ℕ)
add_client excepted none c rest = none
add_client excepted (some a) c none = none
add_client excepted (some a) c (some rest) =
    if contains_text excepted a.id then some rest else some (c ∷ rest)

user_clients_of : List Text → Dict ℕ ℕ → World → Option (List ℕ)
unfolding add_client contains_text
user_clients_of excepted [] w = some []
user_clients_of excepted ((k, c) ∷ rest) w =
    add_client excepted (w.clients c).auth c (user_clients_of excepted rest w)

module _ (env : Env) where
  unfoldable pub get_authorized_user_clients : List Text → ConnManager → World → Option (List ℕ)
  unfolding user_clients_of
  get_authorized_user_clients excepted cm w =
      user_clients_of excepted (env.order (ℕ × ℕ) cm.clients) w

  clients_of : List ℕ → Dict ℕ ℕ → List ℕ
  clients_of excepted [] = []
  clients_of excepted ((k, c) ∷ rest) =
      if contains_id excepted k then clients_of excepted rest else c ∷ clients_of excepted rest

  unfoldable pub get_authorized_clients : List ℕ → ConnManager → List ℕ
  unfolding clients_of
  get_authorized_clients excepted cm = clients_of excepted (env.order (ℕ × ℕ) cm.clients)

  ids_of : List Text → List Text → List Text
  ids_of excepted [] = []
  ids_of excepted (u ∷ rest) =
      if contains_text excepted u then ids_of excepted rest else u ∷ ids_of excepted rest

  unfoldable pub get_authorized_user_ids : List Text → ConnManager → List Text
  unfolding ids_of
  get_authorized_user_ids excepted cm = ids_of excepted (env.order Text (keys cm.user_connections))
