-- ===== src/Users.antt =====
-- user_join.go: ChannelBroadcastUserJoinLeft. The methods change the world only; `none` is a panic,
-- where `c.GetRawAuth().Id` dereferences nil.
pub mod Left
mod Joined
mod Tests
use eddwise.Base.{ℕ, Text, List, [], ◌∷◌, map, Option, none, some, Bool, if◌then◌else◌, sprint}
use eddwise.Event.{Event, user_join, user_left}
use eddwise.World.{World, Env, Auth}
use eddwise.Send.{Error, send_error, send, broadcast}
use eddwise.Conn.{ConnManager, get_authorized_user_clients, get_authorized_user_ids}
use eddwise.Server.{Server, Channel, get_clients}

module _ (env : Env) where
  ids_of_users : Option Auth → ConnManager → Option (List Text)
  ids_of_users none cm = none
  ids_of_users (some a) cm = some (get_authorized_user_ids env (a.id ∷ []) cm)

  -- getOtherClientsIds.
  pub get_other_clients_ids : Channel → ℕ → Server → World → Option (List Text)
  unfolding ids_of_users
  get_other_clients_ids ch c s w = elim ch.conn_manager [
    | some cm ↦ ids_of_users (w.clients c).auth cm
    | none ↦ some (map sprint (get_clients env (c ∷ []) s))
  ]

  -- "if len(clients) > 0"
  pub announce : Channel → Event → List ℕ → World → World × Option Error
  announce ch event [] w = (w, none)
  announce ch event (d ∷ ds) w = broadcast env ch.alias event (d ∷ ds) w

  announce_to : Channel → Event → Option (List ℕ) → World → Option (World × Option Error)
  announce_to ch event none w = none
  announce_to ch event (some clients) w = some (announce ch event clients w)

  announce_user :
      Channel → (Text → Event) → Option Auth → ConnManager → World → Option (World × Option Error)
  announce_user ch event none cm w = none
  announce_user ch event (some a) cm w =
      announce_to ch (event a.id) (get_authorized_user_clients env (a.id ∷ []) cm w) w

  -- broadcast, for the event that is made of the user's id.
  unfoldable pub broadcast_user :
      Channel → ℕ → (Text → Event) → Server → World → Option (World × Option Error)
  unfolding announce announce_to announce_user
  broadcast_user ch c event s w = elim ch.conn_manager [
    | some cm ↦ announce_user ch event (w.clients c).auth cm w
    | none ↦ some (announce ch (event (sprint c)) (get_clients env (c ∷ []) s) w)
  ]

  -- The loop of onJoin, which ends at the first error.
  send_ids : Channel → ℕ → List Text → World → World × Option Error
  send_ids ch c [] w = (w, none)
  send_ids ch c (id ∷ ids) w =
      let told = send env c ch.alias (user_join id) w in
      let rest = send_ids ch c ids told.0 in
      elim told.1 [ none ↦ rest | some e ↦ (told.0, some (send_error e)) ]

  after_ids : Channel → ℕ → Bool → Server → World × Option Error → Option (World × Option Error)
  after_ids ch c again s (w, some e) = some (w, some e)
  after_ids ch c again s (w, none) =
      if again then broadcast_user ch c user_join s w else some (w, none)

  join_with :
      Channel → ℕ → Bool → Server → World → Option (List Text) → Option (World × Option Error)
  unfolding send_ids after_ids
  join_with ch c again s w none = none
  join_with ch c again s w (some ids) = after_ids ch c again s (send_ids ch c ids w)

  unfoldable pub on_join : Channel → ℕ → Bool → Server → World → Option (World × Option Error)
  unfolding join_with get_other_clients_ids
  on_join ch c again s w = join_with ch c again s w (get_other_clients_ids ch c s w)

  unfoldable pub on_left : Channel → ℕ → Server → World → Option (World × Option Error)
  unfolding broadcast_user
  on_left ch c s w = broadcast_user ch c user_left s w
