-- ===== src/Session.antt =====
-- auth.go (CheckAuth, ProcessEventAuth, RevokeAuth) and the connection handler of eddwise.go's initWS,
-- from the new client to the last deferred call. `none` is a panic. The messages that the connection
-- will deliver are a list: its end is the read error that ends the loop. A range over the channels is
-- over the aliases that stand in the registry when it begins.
pub mod Handler
use eddwise.Base.{
  ℕ, Text, Text-discrete, codes, text_key, nat_key, Dict, get, insert, keys, List, [], ◌∷◌, Option,
  none, some, Bool, true, false, if◌then◌else◌, ite,
}
use eddwise.Event.{auth_challenge, auth_pass}
use eddwise.World.{World, Env, Auth, set_raw_auth}
use eddwise.Send.{
  SendError, Error, send_error, decode_error, empty_channel, unknown_channel, channel_mismatch,
  auth_read, basic_auth_unsupported, unknown_auth_method, send,
}
use eddwise.Conn.{ConnManager, set_auth, remove_auth}
use eddwise.Server.{State, Channel, App, EventMessage, BasicAuth, put_channel}
use eddwise.Users.{on_join, on_left}

-- The channel under an alias as it now is.
abbrev pub current : Text → State → Option Channel
current k st = get k st.server.registered_channels

-- A result of a method on the world alone, in the state.
abbrev pub in_state : State → Option (World × Option Error) → Option (State × Option Error)
in_state st none = none
in_state st (some (w, e)) = some (record st { world = w }, e)

module _ (env : Env) where
  -- "if chAuthMan, ok := ch.(ImplConnManager)", with the client's auth read again.
  enrol : Channel → ConnManager → ℕ → Option Auth → State → Option (State × Option Error)
  unfolding put_channel
  enrol ch cm c none st = none
  enrol ch cm c (some a) st =
      let done = set_auth c a cm st.world in
      let ch' = record ch { conn_manager = some done.0 } in
      let st' = put_channel ch' (record st { world = done.1 }) in
      if ch.user_join_left
      then in_state st' (on_join env ch' c done.2 st'.server st'.world)
      else some (st', none)

  enrol_if_managed : ℕ → Option Channel → State → Option (State × Option Error)
  unfolding enrol
  enrol_if_managed c none st = some (st, none)
  enrol_if_managed c (some ch) st = elim ch.conn_manager [
    | none ↦ some (st, none)
    | some cm ↦ enrol ch cm c (st.world.clients c).auth st
  ]

  authenticated : Text → ℕ → State × Option Error × Option Auth → Option (State × Option Error)
  unfolding enrol_if_managed
  authenticated k c (st, some e, auth) = some (st, some e)
  authenticated k c (st, none, auth) =
      let st' = record st { world = set_raw_auth c auth st.world } in
      enrol_if_managed c (current k st') st'

  module _ (app : App) where
    basic : Channel → Text → ℕ → Option BasicAuth → State → Option (State × Option Error)
    unfolding authenticated
    basic ch k c none st = some (st, some decode_error)
    basic ch k c (some ba) st = authenticated k c (app.on_basic_auth k c ba st)

    by_method : Channel → Text → ℕ → EventMessage → State → Option (State × Option Error)
    unfolding basic
    by_method ch k c event st =
        ite (Text-discrete event.name (codes "edd:auth:basic"))
          (if ch.basic_auth
            then basic ch k c (app.decode_basic event.body) st
            else some (st, some basic_auth_unsupported))
          (some (st, some unknown_auth_method))

    on_auth_channel :
        Text → ℕ → EventMessage → Option Channel → State → Option (State × Option Error)
    unfolding by_method
    on_auth_channel k c event none st = some (st, some (unknown_channel event.channel))
    on_auth_channel k c event (some ch) st =
        ite (Text-discrete event.channel k) (by_method ch k c event st)
          (some (st, some channel_mismatch))

    on_auth_event : Text → ℕ → Option EventMessage → State → Option (State × Option Error)
    unfolding on_auth_channel
    on_auth_event k c none st = some (st, some decode_error)
    on_auth_event k c (some event) st =
        ite (Text-discrete event.channel []) (some (st, some empty_channel))
          (on_auth_channel k c event (current event.channel st) st)

    -- ServerSocket.ProcessEventAuth, for the channel under the alias k.
    unfoldable pub process_event_auth : Text → ℕ → Text → State → Option (State × Option Error)
    unfolding on_auth_event
    process_event_auth k c raw_event st = on_auth_event k c (app.decode_event raw_event) st

    -- ChannelAuthMethods.
    unfoldable pub channel_auth_methods : Channel → List Text
    channel_auth_methods ch = if ch.basic_auth then codes "edd:auth:basic" ∷ [] else []

    -- What CheckAuth returns: the state, the messages not yet read, and the error.
    abbrev pub Checked : Type 0
    Checked = State × List Text × Option Error

    send_pass : Text → ℕ → List Text → Option Auth → State → Option Checked
    send_pass k c rest none st = none
    send_pass k c rest (some a) st =
        let told = send env c k (auth_pass a.id) st.world in
        some (
          record st { world = told.0 },
          rest,
          elim told.1 [ none ↦ none | some e ↦ some (send_error e) ],
        )

    after_answer : Text → ℕ → List Text → Option (State × Option Error) → Option Checked
    unfolding send_pass
    after_answer k c rest none = none
    after_answer k c rest (some (st, some e)) = some (st, rest, some e)
    after_answer k c rest (some (st, none)) = send_pass k c rest (st.world.clients c).auth st

    read_answer : Text → ℕ → List Text → State → Option Checked
    unfolding after_answer process_event_auth
    read_answer k c [] st = some (st, [], some auth_read)
    read_answer k c (raw_event ∷ rest) st =
        after_answer k c rest (process_event_auth k c raw_event st)

    after_challenge : Text → ℕ → List Text → State → World × Option SendError → Option Checked
    unfolding read_answer
    after_challenge k c inbox st (w, some e) =
        some (record st { world = w }, inbox, some (send_error e))
    after_challenge k c inbox st (w, none) = read_answer k c inbox (record st { world = w })

    -- One round of CheckAuth's loop.
    check_channel : Text → ℕ → List Text → State → Option Channel → Option Checked
    unfolding after_challenge channel_auth_methods
    check_channel k c inbox st none = some (st, inbox, none)
    check_channel k c inbox st (some ch) = elim (channel_auth_methods ch) [
      | [] ↦ some (st, inbox, none)
      | method ∷ more ↦
          after_challenge k c inbox st (send env c k (auth_challenge (method ∷ more)) st.world)
    ]

    check_each : ℕ → List Text → List Text → State → Option Checked
    unfolding check_channel
    check_each c [] inbox st = some (st, inbox, none)
    check_each c (k ∷ ks) inbox st = elim (check_channel k c inbox st (current k st)) [
      | none ↦ none
      | some (st', rest, some e) ↦ some (st', rest, some e)
      | some (st', rest, none) ↦ check_each c ks rest st'
    ]

    -- ServerSocket.CheckAuth.
    unfoldable pub check_auth : ℕ → List Text → State → Option Checked
    unfolding check_each
    check_auth c inbox st =
        check_each c (env.order Text (keys st.server.registered_channels)) inbox st

  -- One round of RevokeAuth's loop.
  revoke_managed : Channel → ℕ → State → Option (ConnManager × Bool) → Option (State × Option Error)
  revoke_managed ch c st none = none
  revoke_managed ch c st (some (cm, anyone)) =
      let ch' = record ch { conn_manager = some cm } in
      let st' = put_channel ch' st in
      if anyone
      then some (st', none)
      else if ch.user_join_left
      then in_state st' (on_left env ch' c st'.server st'.world)
      else some (st', none)

  revoke_channel : ℕ → State → Option Channel → Option (State × Option Error)
  unfolding revoke_managed
  revoke_channel c st none = some (st, none)
  revoke_channel c st (some ch) = elim ch.conn_manager [
    | none ↦ some (st, none)
    | some cm ↦ revoke_managed ch c st (remove_auth c cm st.world)
  ]

  revoke_each : ℕ → List Text → State → Option (State × Option Error)
  unfolding revoke_channel
  revoke_each c [] st = some (st, none)
  revoke_each c (k ∷ ks) st = elim (revoke_channel c st (current k st)) [
    | none ↦ none
    | some (st', some e) ↦ some (st', some e)
    | some (st', none) ↦ revoke_each c ks st'
  ]

  -- ServerSocket.RevokeAuth.
  unfoldable pub revoke_auth : ℕ → State → Option (State × Option Error)
  unfolding revoke_each
  revoke_auth c st = revoke_each c (env.order Text (keys st.server.registered_channels)) st
