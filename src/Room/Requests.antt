-- ===== src/Room/Requests.antt =====
-- OnRoomEvent: the invariant after any request, and where a request leaves its client.
use eddwise.Base.{
  ℕ, Text, text_key, nat_key, get, insert, get-insert_self, List, [], ◌∷◌, Option, none, some, Bool,
  true, false, ◌≡◌, inl, inr, arith, Option-cases,
}
use eddwise.Event.{ClientRoomEvent, create_request, join_request, left_request}
use eddwise.World.{World, Env, get_rooms}
use eddwise.Send.{Error}
use eddwise.Send.Delivery.{SameHeap, send-SameHeap, broadcast-SameHeap}
use eddwise.Room.{
  RoomManager, create, allocate, find_room, leave_first, join_if_left, join_known, on_join_request,
  on_left_request, on_create_request, announce_room, on_room_event, send_room_event,
  broadcast_room_event,
}
use eddwise.Room.Managed.{IsManaged, IsManaged-SameHeap, allocate-IsManaged}
use eddwise.Room.Moves.{join-IsManaged, left-IsManaged}

pub filed_self :
    {rm : RoomManager} {w : World} (k : Text) (r : ℕ)
    → IsManaged rm w
    → get k rm.rooms ≡ some r
    → get (w.rooms r).id rm.rooms ≡ some r
filed_self k r v known = rw (v.filed k r known).0 known

module _ (env : Env) where
  pub announce_room-SameHeap :
      (rm : RoomManager) (online : List ℕ) (c : ℕ) (room : Text) (public : Bool) (w : World)
      → SameHeap w (announce_room env rm online c room public w)
  unfolding announce_room send_room_event broadcast_room_event
  announce_room-SameHeap rm online c room true w = broadcast-SameHeap env _ _ online w
  announce_room-SameHeap rm online c room false w = send-SameHeap env _ _ c w

  leave_first-IsManaged :
      {rm : RoomManager} (c : ℕ) (rs : List ℕ) (w : World)
      → IsManaged rm w
      → IsManaged rm (leave_first env c rs w).0
  unfolding leave_first
  leave_first-IsManaged c [] w v = v
  leave_first-IsManaged c (r ∷ rs) w v = left-IsManaged env r c w v

  join_if_left-IsManaged :
      {rm : RoomManager} (r c : ℕ) (k : Text) (out : World × Option Error)
      → IsManaged rm out.0
      → get k rm.rooms ≡ some r
      → IsManaged rm (join_if_left env r c out).0
  unfolding join_if_left
  join_if_left-IsManaged r c k (w, some e) v known = v
  join_if_left-IsManaged r c k (w, none) v known =
      join-IsManaged env r c w v (filed_self k r v known)

  join_known-IsManaged :
      (rm : RoomManager) (r c : ℕ) (k : Text) (w : World)
      → IsManaged rm w
      → get k rm.rooms ≡ some r
      → IsManaged rm (join_known env rm c r w).0
  unfolding join_known
  join_known-IsManaged rm r c k w v known = ground (
    arith,
    join-IsManaged env r c w v (filed_self k r v known),
    join_if_left-IsManaged r c k (leave_first env c (get_rooms env c w) w)
        (leave_first-IsManaged c (get_rooms env c w) w v) known,
  )

  on_create-IsManaged :
      (rm : RoomManager) (online : List ℕ) (c : ℕ) (room : Text) (public : Bool) (w : World)
      → IsManaged rm w
      → let done = on_create_request env rm online c room public w in IsManaged done.0 done.1
  unfolding on_create_request create
  on_create-IsManaged rm online c room public w v = elim (Option-cases (get room rm.rooms)) [
    | inl free ↦
        let v' = allocate-IsManaged rm room public w v free in
        let v'' =
          IsManaged-SameHeap
            (announce_room-SameHeap (record rm { rooms = insert room w.next_room rm.rooms }) online
              c room public (allocate room public rm w))
            v' in
        rw (free, on_create_request, create)
          (join-IsManaged env w.next_room c _ v''
            (filed_self room w.next_room v'' (get-insert_self room w.next_room rm.rooms)))
    | inr (r, taken) ↦ rw (taken, on_create_request, create) v
  ]

  -- After any request of any client, refused or not, the maps of the rooms and of the clients still
  -- agree: a client holds a room exactly if the room lists it, and each room stands under its id.
  pub on_room_event-IsManaged :
      (rm : RoomManager) (online : List ℕ) (c : ℕ) (event : ClientRoomEvent) (w : World)
      → IsManaged rm w
      → let done = on_room_event env rm online c event w in IsManaged done.0 done.1
  unfolding on_room_event on_join_request on_left_request find_room
  on_room_event-IsManaged rm online c (join_request room) w v =
      elim (Option-cases (get room rm.rooms)) [
        | inl free ↦ rw (free, on_join_request, find_room) v
        | inr (r, known) ↦
            rw (known, on_join_request, find_room) (join_known-IsManaged rm r c room w v known)
      ]
  on_room_event-IsManaged rm online c (left_request room) w v =
      elim (Option-cases (get room rm.rooms)) [
        | inl free ↦ rw (free, on_left_request, find_room) v
        | inr (r, known) ↦ rw (known, on_left_request, find_room) (left-IsManaged env r c w v)
      ]
  on_room_event-IsManaged rm online c (create_request room public) w v =
      on_create-IsManaged rm online c room public w v
