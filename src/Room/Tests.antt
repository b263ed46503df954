-- ===== src/Room/Tests.antt =====
-- Runs of the room methods, and the theorems about them at concrete states.
use eddwise.Base.{
  ℕ, suc, ◌≤◌, ◌<◌, Text, Text-discrete, codes, text_key, nat_key, get, insert, delete, sprint, [],
  ◌∷◌, Option, none, some, true, false, ◌≡◌, ◌≢◌, refl, arith, ite, ℕ_discrete, length,
}
use eddwise.Event.{create_request, join_request, left_request, check_send_fields, protocol_alias}
use eddwise.World.{World, user_id, set_room, add_room, del_room, get_rooms}
use eddwise.Send.{Error, limit_reached, message, frame_of, send, broadcast}
use eddwise.Samples.{env, env-IsFair, start}
use eddwise.Room.{
  RoomManager, join, left, on_room_event, room_client_quit, enter, leave, create, send_room_event,
  broadcast_room_event,
}
use eddwise.Room.Views.{held}
use eddwise.Room.Managed.{IsManaged}
use eddwise.Room.Moves.{left-join}
use eddwise.Room.Requests.{on_room_event-IsManaged}
use eddwise.Room.Quit.{room_client_quit_lem}
use eddwise.Room.Limits.{join_request-single, join_request-limit}
use eddwise.Room.Overfull.{create_request-keeps}

program : Unit {0}
unfolding on_room_event create join left enter leave send broadcast get insert delete ℕ_discrete
    Text-discrete user_id sprint set_room add_room del_room get_rooms message frame_of
    check_send_fields protocol_alias send_room_event broadcast_room_event
program = tt

abbrev lobby : Text
lobby = codes "lobby"

abbrev hall : Text
hall = codes "hall"

abbrev manager : RoomManager
manager = record {
  ch = codes "chat";
  rooms = [];
  multi_room_limit_per_user = 0;
  multi_room_mode = false;
}

manager-IsManaged : IsManaged manager start
unfolding get
manager-IsManaged = record {
  filed = λ k r h. cc;
  holds = λ c k r h. cc;
  lists = λ r c d h. cc;
  distinct_members = λ r. tt;
  distinct_rooms = λ c. tt;
}

-- Client 1 opens the lobby, client 2 the hall.
abbrev opened : RoomManager × World × Option Error
opened = on_room_event env manager (1 ∷ 2 ∷ []) 1 (create_request lobby true) start

abbrev both : RoomManager × World × Option Error
both = on_room_event env opened.0 (1 ∷ 2 ∷ []) 2 (create_request hall false) opened.1

opened-IsManaged : IsManaged opened.0 opened.1
opened-IsManaged =
    on_room_event-IsManaged env manager (1 ∷ 2 ∷ []) 1 (create_request lobby true) start
      manager-IsManaged

both-IsManaged : IsManaged both.0 both.1
both-IsManaged =
    on_room_event-IsManaged env opened.0 (1 ∷ 2 ∷ []) 2 (create_request hall false) opened.1
      opened-IsManaged

both_runs : held both.1 1 lobby ≡ some 0
unfolding program
both_runs = refl

-- Five messages: the public lobby is announced to both clients, the hall to its creator, and each
-- creator is told of its own entry.
sent_runs : length both.1.sent ≡ 5
unfolding program
sent_runs = refl

on_room_event-IsManaged_example :
    let done = on_room_event env both.0 (1 ∷ 2 ∷ []) 1 (left_request lobby) both.1 in
    IsManaged done.0 done.1
on_room_event-IsManaged_example =
    on_room_event-IsManaged env both.0 (1 ∷ 2 ∷ []) 1 (left_request lobby) both.1 both-IsManaged

left-join_example : (join env 0 2 both.1).1 ≡ none
unfolding program
left-join_example = (left-join env 0 2 both.1 both-IsManaged refl refl).0

join_request-single_example :
    let done = on_room_event env both.0 [] 1 (join_request hall) both.1 in
    (done.2 ≡ none)
    × ((k : Text) → held done.1 1 k ≡ ite (Text-discrete hall k) (some 1) none)
    × ((d : ℕ) (k : Text) → d ≢ 1 → held done.1 d k ≡ held both.1 d k)
unfolding program
join_request-single_example =
    join_request-single env both.0 1 1 hall both.1 [] env-IsFair both-IsManaged refl refl refl
      (omega arith)

-- Each client may be in one room.
abbrev strict : RoomManager
strict = record both.0 { multi_room_mode = true; multi_room_limit_per_user = 1 }

strict-IsManaged : IsManaged strict both.1
strict-IsManaged = record {
  filed = both-IsManaged.filed;
  holds = both-IsManaged.holds;
  lists = both-IsManaged.lists;
  distinct_members = both-IsManaged.distinct_members;
  distinct_rooms = both-IsManaged.distinct_rooms;
}

join_request-limit_example :
    (length (both.1.clients 1).rooms < 1
      → ((on_room_event env strict [] 1 (join_request hall) both.1).2 ≡ none)
        × (length ((on_room_event env strict [] 1 (join_request hall) both.1).1.clients 1).rooms
            ≡ suc (length (both.1.clients 1).rooms)))
    × (1 ≤ length (both.1.clients 1).rooms
        → on_room_event env strict [] 1 (join_request hall) both.1
          ≡ (strict, both.1, some limit_reached))
unfolding program
join_request-limit_example =
    join_request-limit env strict 1 1 hall both.1 [] env-IsFair strict-IsManaged refl (omega arith)
      refl refl

create_request-keeps_example :
    held (on_room_event env both.0 [] 1 (create_request (codes "den") true) both.1).1 1 lobby
    ≡ some 0
unfolding program
create_request-keeps_example =
    (create_request-keeps env both.0 [] 1 (codes "den") true both.1 {k = lobby} {s = 0}
      both-IsManaged refl refl).2

room_client_quit_lem_example : held (room_client_quit env 1 both.1) 1 lobby ≡ none
room_client_quit_lem_example =
    (room_client_quit_lem env {rm = both.0} 1 both.1 env-IsFair both-IsManaged).0 lobby
