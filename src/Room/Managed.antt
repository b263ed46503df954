-- ===== src/Room/Managed.antt =====
-- The invariant that ties the maps of a RoomManager's rooms to the maps of their clients, where the
-- server has one RoomManager; that the moves of the methods keep it.
use eddwise.Base.{
  ℕ, ◌<◌, Text, text_key, nat_key, get, insert, get-insert, Distinct, none, some, Bool, ◌≡◌, arith,
  ite, ℕ_discrete,
}
use eddwise.World.{World}
use eddwise.Send.Delivery.{SameHeap}
use eddwise.Room.{RoomManager, enter, leave, allocate}
use eddwise.Room.Views.{
  held, member, held-enter, member-enter, held-leave, member-leave, enter_keeps, leave_keeps,
  enter-Distinct, enter-Distinct_rooms, leave-Distinct, leave-Distinct_rooms,
}

pub record IsManaged (rm : RoomManager) (w : World) : Type 0 where
  -- The manager files each room under its own id, and rooms are allocated in order.
  pub filed :
      (k : Text) (r : ℕ) → get k rm.rooms ≡ some r → ((w.rooms r).id ≡ k) × (r < w.next_room)
  -- A room that a client holds is one of the manager's, and lists the client.
  pub holds :
      (c : ℕ) (k : Text) (r : ℕ)
      → held w c k ≡ some r
      → (get k rm.rooms ≡ some r) × (member w r c ≡ some c)
  -- A client that a room lists holds the room.
  pub lists :
      (r c d : ℕ)
      → member w r c ≡ some d
      → (d ≡ c) × (r < w.next_room) × (held w c (w.rooms r).id ≡ some r)
  pub distinct_members : (r : ℕ) → Distinct (w.rooms r).clients_map
  pub distinct_rooms : (c : ℕ) → Distinct (w.clients c).rooms

pub IsManaged-SameHeap :
    {rm : RoomManager} {w w' : World} → SameHeap w w' → IsManaged rm w → IsManaged rm w'
IsManaged-SameHeap {rm} {w} {w'} same v = record {
  filed = λ k r. rw (same.rooms, same.next_room) (v.filed k r);
  holds = λ c k r. rw (same.rooms, same.clients) (v.holds c k r);
  lists = λ r c d. rw (same.rooms, same.clients, same.next_room) (v.lists r c d);
  distinct_members = λ r. rw same.rooms (v.distinct_members r);
  distinct_rooms = λ c. rw same.clients (v.distinct_rooms c);
}

-- A client that enters a room of the manager, which does not list it yet.
module _ {rm : RoomManager} (r c : ℕ) (w : World) (v : IsManaged rm w) where
  pub enter-IsManaged :
      get (w.rooms r).id rm.rooms ≡ some r → member w r c ≡ none → IsManaged rm (enter r c w)
  enter-IsManaged known new = record {
    filed = λ k s h. ground (arith, v.filed k s, enter_keeps r c w s);
    holds = λ d k s h.
        ground (arith, held-enter r c w d k, member-enter r c w s d, v.holds d k s, v.filed k s);
    lists = λ s d x h. ground (
      arith,
      held-enter r c w d (w.rooms s).id,
      member-enter r c w s d,
      v.lists s d x,
      enter_keeps r c w s,
      v.filed (w.rooms r).id r known,
      v.holds d (w.rooms s).id s,
    );
    distinct_members = λ s. enter-Distinct r c w s (v.distinct_members s);
    distinct_rooms = λ d. enter-Distinct_rooms r c w d (v.distinct_rooms d);
  }

  pub leave-IsManaged : member w r c ≡ some c → IsManaged rm (leave r c w)
  leave-IsManaged old = record {
    filed = λ k s h. ground (arith, v.filed k s, leave_keeps r c w s);
    holds = λ d k s h.
        ground (arith, held-leave r c w d k, member-leave r c w s d, v.holds d k s, v.filed k s);
    lists = λ s d x h. ground (
      arith,
      held-leave r c w d (w.rooms s).id,
      member-leave r c w s d,
      v.lists s d x,
      v.lists r d x,
      leave_keeps r c w s,
      v.filed (w.rooms r).id r,
      v.holds c (w.rooms r).id s,
      v.holds c (w.rooms r).id r,
    );
    distinct_members = λ s. leave-Distinct r c w s (v.distinct_members s);
    distinct_rooms = λ d. leave-Distinct_rooms r c w d (v.distinct_rooms d);
  }

-- A new room, empty and filed under an id that is free.
module _ (rm : RoomManager) (id : Text) (public : Bool) (w : World) where
  pub member-allocate :
      (s d : ℕ)
      → member (allocate id public rm w) s d ≡ ite (ℕ_discrete w.next_room s) none (member w s d)
  unfolding allocate get
  member-allocate s d = ground arith

  pub allocate-IsManaged :
      IsManaged rm w
      → get id rm.rooms ≡ none
      → IsManaged (record rm { rooms = insert id w.next_room rm.rooms }) (allocate id public rm w)
  unfolding allocate
  allocate-IsManaged v free = record {
    filed = λ k s h. ground (arith, v.filed k s, get-insert id k w.next_room rm.rooms);
    holds = λ d k s h. ground (
      arith,
      v.holds d k s,
      v.filed k s,
      member-allocate s d,
      get-insert id k w.next_room rm.rooms,
    );
    lists = λ s d x h. ground (arith, v.lists s d x, member-allocate s d);
    distinct_members = λ s. ground (arith, v.distinct_members s);
    distinct_rooms = λ d. v.distinct_rooms d;
  }
