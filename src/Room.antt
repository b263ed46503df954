-- ===== src/Room.antt =====
-- room.go: the methods of Room and of RoomManager. A room is named by its pointer `r`, a client by
-- its pointer `c`; a method returns the new world beside its Go error (`none` is nil), and one that
-- changes a RoomManager returns that too. `r.ch` is the RoomManager of the room's channel, of which
-- only the channel's alias is read. A handler runs as a whole: the locks are not modelled.
pub mod Views
pub mod Managed
pub mod Moves
pub mod Requests
pub mod Quit
pub mod Limits
pub mod Overfull
mod Tests
use mathlib.Core.Logic.{dite}
use eddwise.Base.{
  ℕ, suc, ◌≤◌, ◌<◌, Text, text_key, nat_key, Dict, get, insert, delete, values, List, [], ◌∷◌,
  Option, none, some, Bool, true, false, ◌&&◌, if◌then◌else◌, ite, dec_lt, dec_le, ℕ_discrete,
  length,
}
use eddwise.Event.{
  Event, room_create, room_join, room_left, ClientRoomEvent, create_request, join_request,
  left_request,
}
use eddwise.World.{World, Env, Room, set_room, get_rooms, add_room, del_room, user_id}
use eddwise.Send.{
  Error, already_in_room, not_in_room, limit_reached, unknown_room, room_exists, send_error,
  SendError, send, broadcast,
}

pub record RoomManager : Type 0 where
  pub ch : Text
  pub rooms : Dict Text ℕ
  pub multi_room_limit_per_user : ℕ
  pub multi_room_mode : Bool

unfoldable pub room_manager_init : Text → RoomManager → RoomManager
room_manager_init ch rm = record rm { ch = ch; rooms = [] }

unfoldable pub set_rooms_per_user_limit : ℕ → RoomManager → RoomManager
set_rooms_per_user_limit n rm = record rm { multi_room_limit_per_user = n }

unfoldable pub set_multi_room_mode : Bool → RoomManager → RoomManager
set_multi_room_mode b rm = record rm { multi_room_mode = b }

-- Room.Has.
unfoldable pub has : ℕ → ℕ → World → Bool
has r c w = elim (get c (w.rooms r).clients_map) [ none ↦ false | some _ ↦ true ]

-- The entry of Join into both maps.
unfoldable pub enter : ℕ → ℕ → World → World
unfolding set_room add_room
enter r c w =
    add_room c r
      (set_room w r (record (w.rooms r) { clients_map = insert c c (w.rooms r).clients_map }))

-- The removal of Left from both maps.
unfoldable pub leave : ℕ → ℕ → World → World
unfolding set_room del_room
leave r c w =
    del_room c r
      (set_room w r (record (w.rooms r) { clients_map = delete c (w.rooms r).clients_map }))

module _ (env : Env) where
  -- Room.Clients.
  unfoldable pub room_clients : ℕ → World → List ℕ
  room_clients r w = env.order ℕ (values (w.rooms r).clients_map)

  -- "send list of connected players to new user"
  send_members : ℕ → ℕ → List ℕ → World → World
  send_members r c [] w = w
  send_members r c (d ∷ ds) w =
      let told = send env c (w.rooms r).ch (room_join (user_id w d) (w.rooms r).id) w in
      send_members r c ds (ite (ℕ_discrete d c) w told.0)

  announce_join : ℕ → ℕ → List ℕ → World → World
  unfolding send_members
  announce_join r c clients w =
      send_members r c clients
        (broadcast env (w.rooms r).ch (room_join (user_id w c) (w.rooms r).id) clients w).0

  unfoldable pub join : ℕ → ℕ → World → World × Option Error
  unfolding enter announce_join room_clients
  join r c w = elim (get c (w.rooms r).clients_map) [
    | some _ ↦ (w, some already_in_room)
    | none ↦ let w' = enter r c w in (announce_join r c (room_clients r w') w', none)
  ]

  announce_left : ℕ → ℕ → List ℕ → World → World
  announce_left r c clients w =
      (broadcast env (w.rooms r).ch (room_left (user_id w c) (w.rooms r).id) clients w).0

  unfoldable pub left : ℕ → ℕ → World → World × Option Error
  unfolding leave announce_left room_clients
  left r c w = elim (get c (w.rooms r).clients_map) [
    | none ↦ (w, some not_in_room)
    | some _ ↦ (announce_left r c (room_clients r w) (leave r c w), none)
  ]

  -- RoomManager.SendRoomEvent and BroadcastRoomEvent.
  unfoldable pub send_room_event : RoomManager → ℕ → Event → World → World × Option SendError
  send_room_event rm c ev w = send env c rm.ch ev w

  unfoldable pub broadcast_room_event : RoomManager → List ℕ → Event → World → World × Option Error
  broadcast_room_event rm cs ev w = broadcast env rm.ch ev cs w

-- RoomManager.Room.
unfoldable pub find_room : Text → RoomManager → Option ℕ
find_room id rm = get id rm.rooms

-- The room that Create makes, empty.
unfoldable pub allocate : Text → Bool → RoomManager → World → World
unfolding set_room
allocate id public rm w =
    record (set_room w w.next_room
      (record { id = id; public = public; ch = rm.ch; clients_map = [] })) {
        next_room = suc w.next_room;
      }

-- RoomManager.Create: the manager, the world and the new room, or none where the id is taken.
unfoldable pub create : Text → Bool → RoomManager → World → Option (RoomManager × World × ℕ)
unfolding allocate
create id public rm w = elim (get id rm.rooms) [
  | some _ ↦ none
  | none ↦
      some
        (record rm { rooms = insert id w.next_room rm.rooms }, allocate id public rm w, w.next_room)
]

module _ (env : Env) where
  -- `activeRooms[0].Left(client)`, if there is one.
  leave_first : ℕ → List ℕ → World → World × Option Error
  leave_first c [] w = (w, none)
  leave_first c (r ∷ rs) w = left env r c w

  join_if_left : ℕ → ℕ → World × Option Error → World × Option Error
  join_if_left r c (w, some e) = (w, some e)
  join_if_left r c (w, none) = join env r c w

  at_limit : RoomManager → ℕ → World → Bool
  at_limit rm c w =
      rm.multi_room_mode
      && (ite (dec_lt 0 rm.multi_room_limit_per_user)
          (ite (dec_le rm.multi_room_limit_per_user (length (get_rooms env c w))) true false) false)

  join_known : RoomManager → ℕ → ℕ → World → World × Option Error
  unfolding leave_first join_if_left at_limit dec_lt dec_le
  join_known rm c r w =
      if has r c w
      then (w, some already_in_room)
      else if at_limit rm c w
      then (w, some limit_reached)
      else if rm.multi_room_mode
      then join env r c w
      else join_if_left r c (leave_first c (get_rooms env c w) w)

  on_join_request : RoomManager → ℕ → Text → World → World × Option Error
  unfolding join_known
  on_join_request rm c room w = elim (find_room room rm) [
    | none ↦ (w, some (unknown_room room))
    | some r ↦ join_known rm c r w
  ]

  on_left_request : RoomManager → ℕ → Text → World → World × Option Error
  on_left_request rm c room w = elim (find_room room rm) [
    | none ↦ (w, some (unknown_room room))
    | some r ↦ left env r c w
  ]

  -- The announcement of a new room: to all clients of the server, or to its creator.
  pub announce_room : RoomManager → List ℕ → ℕ → Text → Bool → World → World
  announce_room rm online c room public w =
      if public
      then (broadcast_room_event env rm online (room_create room) w).0
      else (send_room_event env rm c (room_create room) w).0

  on_create_request :
      RoomManager → List ℕ → ℕ → Text → Bool → World → RoomManager × World × Option Error
  unfolding announce_room
  on_create_request rm online c room public w = elim (create room public rm w) [
    | none ↦ (rm, w, some (room_exists room))
    | some (rm', w', r) ↦
        let joined = join env r c (announce_room rm' online c room public w') in
        (rm', joined.0, joined.1)
  ]

  -- RoomManager.OnRoomEvent; `online` is what the server's GetClients returns.
  unfoldable pub on_room_event :
      RoomManager → List ℕ → ℕ → ClientRoomEvent → World → RoomManager × World × Option Error
  unfolding on_join_request on_left_request on_create_request
  on_room_event rm online c (join_request room) w =
      let done = on_join_request rm c room w in (rm, done.0, done.1)
  on_room_event rm online c (left_request room) w =
      let done = on_left_request rm c room w in (rm, done.0, done.1)
  on_room_event rm online c (create_request room public) w =
      on_create_request rm online c room public w

  -- RoomManager.SendPublicRooms: the loop ends at the first error.
  send_public : RoomManager → ℕ → List (Text × ℕ) → World → World × Option SendError
  send_public rm c [] w = (w, none)
  send_public rm c ((k, r) ∷ rest) w =
      let told = send_room_event env rm c (room_create k) w in
      let after_told = send_public rm c rest told.0 in
      let skipped = send_public rm c rest w in
      if (w.rooms r).public
      then elim told.1 [ none ↦ after_told | some e ↦ (told.0, some e) ]
      else skipped

  unfoldable pub send_public_rooms : RoomManager → ℕ → World → World × Option SendError
  unfolding send_public
  send_public_rooms rm c w = send_public rm c (env.order (Text × ℕ) rm.rooms) w

  leave_all : ℕ → List ℕ → World → World
  leave_all c [] w = w
  leave_all c (r ∷ rs) w = leave_all c rs (left env r c w).0

  -- RoomManager.RoomClientQuit, which returns nil always.
  unfoldable pub room_client_quit : ℕ → World → World
  unfolding leave_all
  room_client_quit c w = leave_all c (get_rooms env c w) w
