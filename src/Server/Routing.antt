-- ===== src/Server/Routing.antt =====
-- ProcessEvent: which messages are left to the Route of their channel.
use eddwise.Base.{ℕ, Text, text_key, nat_key, get, [], none, some, ◌≡◌, ◌≢◌, arith}
use eddwise.World.{Env}
use eddwise.Server.{
  State, Channel, App, EventMessage, room_event_of, dispatch, on_channel, process_decoded,
  process_event,
}

module _ (app : App) (env : Env) (c : ℕ) (raw_event : Text) (st : State) where
  -- A message to a registered channel that is no room request is left to the Route of the channel.
  pub process_event-route :
      (event : EventMessage) (ch : Channel)
      → app.decode_event raw_event ≡ some event
      → event.channel ≢ []
      → get event.channel st.server.registered_channels ≡ some ch
      → room_event_of app event ≡ none
      → process_event app env c raw_event st ≡ app.route ch.alias c event st
  unfolding process_event process_decoded on_channel dispatch
  process_event-route event ch h named known no_request = ground arith
