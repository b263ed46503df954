-- ===== src/Room/Overfull.antt =====
-- RoomCreateRequest heeds neither the single-room mode nor the limit.
use eddwise.Base.{ℕ, Text, text_key, nat_key, get, insert, List, none, some, Bool, ◌≡◌, ◌≢◌, arith}
use eddwise.Event.{create_request}
use eddwise.World.{World, Env}
use eddwise.Room.{RoomManager, allocate, create, announce_room, on_create_request, on_room_event}
use eddwise.Room.Views.{held, member}
use eddwise.Room.Managed.{IsManaged, member-allocate}
use eddwise.Room.Moves.{held-join, join_absent}
use eddwise.Room.Requests.{announce_room-SameHeap}

module _ (env : Env) (rm : RoomManager) (online : List ℕ) (c : ℕ) (room : Text) (public : Bool)
    (w : World) where
  -- A client that is in a room and creates another one, in any mode and with any limit, is let into
  -- the new room and stays in the old one.
  pub create_request-keeps :
      {k : Text} {s : ℕ}
      → IsManaged rm w
      → get room rm.rooms ≡ none
      → held w c k ≡ some s
      → let done = on_room_event env rm online c (create_request room public) w in
        (done.2 ≡ none)
        × (k ≢ room)
        × (held done.1 c k ≡ some s)
        × (held done.1 c room ≡ some w.next_room)
  unfolding on_room_event on_create_request create allocate
  create_request-keeps {k} {s} v free inside =
      let rm' = record rm { rooms = insert room w.next_room rm.rooms } in
      let w1 = announce_room env rm' online c room public (allocate room public rm w) in
      let same = announce_room-SameHeap env rm' online c room public (allocate room public rm w) in
      let absent : member w1 w.next_room c ≡ none =
        rw same.rooms (ground (arith, member-allocate rm room public w w.next_room c)) in
      let id : (w1.rooms w.next_room).id ≡ room = rw same.rooms (ground arith) in
      let other : k ≢ room = λ e. ground (arith, v.holds c k s inside) in
      let before : held w1 c k ≡ some s = rw same.clients inside in
      rw (free, on_room_event, on_create_request, create)
        (
          (join_absent env w.next_room c w1 absent).1,
          other,
          ground (arith, held-join env w.next_room c w1 c k absent),
          ground (arith, held-join env w.next_room c w1 c room absent),
        )
