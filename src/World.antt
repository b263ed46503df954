-- ===== src/World.antt =====
-- The mutable objects that clients and rooms share: a heap of clients (ClientSocket with its
-- embedded ClientContextMap, eddwise.go), a heap of rooms (room.go), and what was written to the
-- connections. A pointer to a client is its id, which ClientAutoInc makes unique; a pointer to a
-- room is the place of its allocation.
use mathlib.Core.List.{Perm}
use eddwise.Base.{
  ℕ, Text, List, Option, none, some, Bool, true, Dict, text_key, get, insert, delete, values, ite,
  ℕ_discrete, sprint,
}
use eddwise.Event.{EventMessageToSend}
use eddwise.Errors.{Report}

pub record Auth : Type 0 where
  pub id : Text
  pub payload : Text

-- UserState: a value, with the name of its Go type.
pub record UserState : Type 0 where
  pub type_name : Text
  pub value : Text

pub record Client : Type 0 where
  pub auth : Option Auth
  pub rooms : Dict Text ℕ
  pub state : Option UserState
  pub m : Dict Text Text
  pub closed : Bool

pub record Room : Type 0 where
  pub id : Text
  pub public : Bool
  pub ch : Text
  pub clients_map : Dict ℕ ℕ

-- One WriteMessage: the client, the kind of frame, and the message that was encoded.
pub record Packet : Type 0 where
  pub client : ℕ
  pub frame : ℕ
  pub message : EventMessageToSend

pub record World : Type 0 where
  pub clients : ℕ → Client
  pub rooms : ℕ → Room
  pub next_room : ℕ
  pub sent : List Packet
  pub reports : List (ℕ × Report)

-- What the code calls and does not define: the order in which a map is ranged over and in which
-- goroutines run, the codec, and the connection.
pub data Handle : Type 0 where
  json_handle msgpack_handle other_handle : Handle

pub record Env : Type 1 where
  pub order : (A : Type 0) → List A → List A
  pub handle : Handle
  pub encode : EventMessageToSend → Option Text
  pub write_message : ℕ → Text → Bool
  pub write_json : ℕ → Report → Bool

-- A range visits every entry once, in some order.
abbrev pub IsFair : Env → Type 1
IsFair env = (A : Type 0) (xs : List A) → Perm (env.order A xs) xs

module _ (w : World) where
  unfoldable pub set_client : ℕ → Client → World
  set_client c v = record w { clients = λ d. ite (ℕ_discrete c d) v (w.clients d) }

  unfoldable pub set_room : ℕ → Room → World
  set_room r v = record w { rooms = λ s. ite (ℕ_discrete r s) v (w.rooms s) }

-- The methods of ClientContextMap.
unfoldable pub has_value : ℕ → Text → World → Bool
has_value c key w = elim (get key (w.clients c).m) [ none ↦ Bool.false | some _ ↦ true ]

unfoldable pub get_value : ℕ → Text → World → Option Text
get_value c key w = get key (w.clients c).m

unfoldable pub set_value : ℕ → Text → Text → World → World
unfolding set_client
set_value c key v w = set_client w c (record (w.clients c) { m = insert key v (w.clients c).m })

unfoldable pub set_raw_auth : ℕ → Option Auth → World → World
unfolding set_client
set_raw_auth c auth w = set_client w c (record (w.clients c) { auth = auth })

unfoldable pub get_raw_auth : ℕ → World → Option Auth
get_raw_auth c w = (w.clients c).auth

unfoldable pub set_state : ℕ → UserState → World → World
unfolding set_client
set_state c state w = set_client w c (record (w.clients c) { state = some state })

unfoldable pub get_state : ℕ → World → Option UserState
get_state c w = (w.clients c).state

unfoldable pub get_rooms : Env → ℕ → World → List ℕ
get_rooms env c w = env.order ℕ (values (w.clients c).rooms)

unfoldable pub add_room : ℕ → ℕ → World → World
unfolding set_client
add_room c r w =
    set_client w c (record (w.clients c) { rooms = insert (w.rooms r).id r (w.clients c).rooms })

unfoldable pub del_room : ℕ → ℕ → World → World
unfolding set_client
del_room c r w =
    set_client w c (record (w.clients c) { rooms = delete (w.rooms r).id (w.clients c).rooms })

-- The name by which others know a client: its user's id, or its own number.
unfoldable pub user_id : World → ℕ → Text
user_id w c = elim (w.clients c).auth [ none ↦ sprint c | some a ↦ a.id ]

-- ClientSocket.Close, but for the error of closing the connection.
unfoldable pub close : ℕ → World → World
unfolding set_client
close c w = set_client w c (record (w.clients c) { closed = true })
