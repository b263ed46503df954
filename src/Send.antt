-- ===== src/Send.antt =====
-- ClientSocket.Send and Broadcast of eddwise.go. A Go error is a value beside the new world, and
-- `none` is nil.
pub mod Delivery
mod Tests
use eddwise.Base.{ℕ, Text, List, [], ◌∷◌, ◌++◌, Option, none, some, if◌then◌else◌}
use eddwise.Event.{Event, EventMessageToSend, check_send_fields, protocol_alias}
use eddwise.World.{World, Env, Handle}
pub use eddwise.Errors.{
  SendError, invalid_field, closed_client, cannot_encode, write_failed, Error, send_error,
  broadcast_errors, already_in_room, not_in_room, limit_reached, unknown_room, room_exists,
  decode_error, empty_channel, room_events_not_handled, auth_read, channel_mismatch,
  basic_auth_unsupported, unknown_auth_method, unknown_channel, already_registered, app_error,
}

unfoldable pub message : Text → Event → EventMessageToSend
message ch ev = record { channel = ch; name = protocol_alias ev; body = ev }

-- websocket.TextMessage is 1 and BinaryMessage is 2; the switch leaves 0 for another codec.
unfoldable pub frame_of : Handle → ℕ
frame_of Handle.json_handle = 1
frame_of Handle.msgpack_handle = 2
frame_of Handle.other_handle = 0

module _ (env : Env) where
  write : ℕ → Text → Event → Option Text → World → World × Option SendError
  write c ch ev none w = (w, some cannot_encode)
  write c ch ev (some bytes) w =
      if env.write_message c bytes
      then (
        record w {
          sent =
              w.sent
              ++ record { client = c; frame = frame_of env.handle; message = message ch ev } ∷ [];
        },
        none,
      )
      else (w, some write_failed)

  check_then_write : ℕ → Text → Event → Option Text → World → World × Option SendError
  unfolding write
  check_then_write c ch ev (some e) w = (w, some (invalid_field e))
  check_then_write c ch ev none w =
      if (w.clients c).closed
      then (w, some closed_client)
      else write c ch ev (env.encode (message ch ev)) w

  unfoldable pub send : ℕ → Text → Event → World → World × Option SendError
  unfolding check_then_write
  send c ch ev w = check_then_write c ch ev (check_send_fields ev) w

  collect : Option SendError → List SendError → List SendError
  collect none es = es
  collect (some e) es = e ∷ es

  -- The goroutines of Broadcast, in the order in which they write.
  send_each : Text → Event → List ℕ → World → World × List SendError
  unfolding collect
  send_each ch ev [] w = (w, [])
  send_each ch ev (c ∷ cs) w =
      let (w1, e) = send c ch ev w in let (w2, es) = send_each ch ev cs w1 in (w2, collect e es)

  summary : World × List SendError → World × Option Error
  summary (w, []) = (w, none)
  summary (w, e ∷ es) = (w, some (broadcast_errors (e ∷ es)))

  check_then_broadcast : Text → Event → List ℕ → Option Text → World → World × Option Error
  unfolding send_each summary
  check_then_broadcast ch ev cs (some e) w = (w, some (send_error (invalid_field e)))
  check_then_broadcast ch ev cs none w = summary (send_each ch ev (env.order ℕ cs) w)

  unfoldable pub broadcast : Text → Event → List ℕ → World → World × Option Error
  unfolding check_then_broadcast
  broadcast ch ev cs w = check_then_broadcast ch ev cs (check_send_fields ev) w
