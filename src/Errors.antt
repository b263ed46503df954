-- ===== src/Errors.antt =====
-- The error values of the package: one constructor for each errors.New and fmt.Errorf of eddwise.go,
-- room.go and auth.go, and the reports that a connection handler writes with SendJSON.
use eddwise.Base.{Text, List}

pub data SendError : Type 0 where
  invalid_field : Text → SendError
  closed_client cannot_encode write_failed : SendError

pub data Error : Type 0 where
  send_error : SendError → Error
  broadcast_errors : List SendError → Error
  already_in_room not_in_room limit_reached : Error
  unknown_room room_exists : Text → Error
  decode_error empty_channel room_events_not_handled auth_read : Error
  channel_mismatch basic_auth_unsupported unknown_auth_method : Error
  unknown_channel already_registered app_error : Text → Error

-- The messages on the channel "errors" of the connection handler.
pub data Report : Type 0 where
  auth_report : Error → Report
  connect_report : Text → Error → Report
  process_report : Error → Report
