-- ===== src/Event.antt =====
-- room_events.go, the events of user_join.go and auth.go, and EventMessageToSend of eddwise.go.
-- An event type that the generator writes is `app`: its names, its body, and the answer of its
-- generated CheckSendFields.
use eddwise.Base.{Text, codes, List, Option, none, Bool}

pub record AppEvent : Type 0 where
  pub name : Text
  pub alias : Text
  pub body : Text
  pub check_send : Option Text

pub data Event : Type 0 where
  auth_challenge : List Text → Event
  auth_pass user_join user_left room_create : Text → Event
  room_join room_left : Text → Text → Event
  app : AppEvent → Event

-- GetEventName; ProtocolAlias is the same text but for a generated event.
pub get_event_name : Event → Text
get_event_name (Event.auth_challenge ms) = codes "edd:auth:challenge"
get_event_name (Event.auth_pass id) = codes "edd:auth:pass"
get_event_name (Event.user_join id) = codes "edd:user:join"
get_event_name (Event.user_left id) = codes "edd:user:left"
get_event_name (Event.room_create room) = codes "edd:room:create"
get_event_name (Event.room_join id room) = codes "edd:room:join"
get_event_name (Event.room_left id room) = codes "edd:room:left"
get_event_name (Event.app e) = e.name

unfoldable pub protocol_alias : Event → Text
protocol_alias (Event.auth_challenge ms) = codes "edd:auth:challenge"
protocol_alias (Event.auth_pass id) = codes "edd:auth:pass"
protocol_alias (Event.user_join id) = codes "edd:user:join"
protocol_alias (Event.user_left id) = codes "edd:user:left"
protocol_alias (Event.room_create room) = codes "edd:room:create"
protocol_alias (Event.room_join id room) = codes "edd:room:join"
protocol_alias (Event.room_left id room) = codes "edd:room:left"
protocol_alias (Event.app e) = e.alias

-- The CheckSendFields that Send and Broadcast call where an event has one.
unfoldable pub check_send_fields : Event → Option Text
check_send_fields (Event.app e) = e.check_send
check_send_fields _ = none

-- ClientRoomEvent, the requests of a client.
pub data ClientRoomEvent : Type 0 where
  create_request : Text → Bool → ClientRoomEvent
  join_request left_request : Text → ClientRoomEvent

pub record EventMessageToSend : Type 0 where
  pub channel : Text
  pub name : Text
  pub body : Event
