-- ===== src/Session/Handler.antt =====
-- The connection handler of initWS: from the new client to the last deferred call.
pub mod Clears
mod Tests
use eddwise.Base.{
  ℕ, Text, text_key, Dict, get, insert, keys, List, [], ◌∷◌, ◌++◌, Option, none, some, Bool, true,
  false, if◌then◌else◌,
}
use eddwise.World.{World, Env, Client, set_client, close}
use eddwise.Errors.{Report, auth_report, connect_report, process_report}
use eddwise.Send.{Error}
use eddwise.Room.{send_public_rooms, room_client_quit}
use eddwise.Server.{State, Server, Channel, App, next_id, add_client, remove_client, process_event}
use eddwise.Users.{on_join, on_left}
use eddwise.Session.{current, check_auth, revoke_auth}

-- The client that initWS makes.
abbrev pub fresh_client : Client
fresh_client = record { auth = none; rooms = []; state = none; m = []; closed = false }

unfoldable pub new_client : State → State
unfolding set_client next_id
new_client st = record {
  server = record (st.server) { client_auto_inc = next_id st.server };
  world = set_client st.world (next_id st.server) fresh_client;
}

-- A loop over channels whose methods panic or change the state; the errors are dropped.
visit : (Channel → State → Option State) → State → Option Channel → Option State
visit f st none = some st
visit f st (some ch) = f ch st

unfoldable pub over_channels : (Channel → State → Option State) → List Text → State → Option State
unfolding visit
over_channels f [] st = some st
over_channels f (k ∷ ks) st = elim (visit f st (current k st)) [
  | none ↦ none
  | some st' ↦ over_channels f ks st'
]

unfoldable pub world_only : State → Option (World × Option Error) → Option State
world_only st none = none
world_only st (some (w, e)) = some (record st { world = w })

module _ (env : Env) (c : ℕ) where
  -- SendJSON of a report, whose own error is only logged.
  unfoldable pub send_report : Report → State → State
  send_report report st =
      if env.write_json c report
      then record st {
        world = record (st.world) { reports = st.world.reports ++ (c, report) ∷ [] };
      }
      else st

  abbrev pub ranged : State → List Text
  ranged st = env.order Text (keys st.server.registered_channels)

  -- "Auto broadcast Join" and "Auto broadcast Left", on the channels with no ConnManager.
  join_user : Channel → State → Option State
  unfolding world_only
  join_user ch st = elim ch.conn_manager [
    | some _ ↦ some st
    | none ↦
        if ch.user_join_left
        then world_only st (on_join env ch c true st.server st.world)
        else some st
  ]

  left_user : Channel → State → Option State
  unfolding world_only
  left_user ch st = elim ch.conn_manager [
    | some _ ↦ some st
    | none ↦
        if ch.user_join_left then world_only st (on_left env ch c st.server st.world) else some st
  ]

  -- "Auto broadcast RoomList" and "Auto broadcast RoomLeft".
  list_rooms : Channel → State → Option State
  list_rooms ch st = elim ch.room_manager [
    | none ↦ some st
    | some rm ↦ some (record st { world = (send_public_rooms env rm c st.world).0 })
  ]

  quit_rooms : Channel → State → Option State
  quit_rooms ch st = elim ch.room_manager [
    | none ↦ some st
    | some rm ↦ some (record st { world = room_client_quit env c st.world })
  ]

  module _ (app : App) where
    disconnect : Channel → State → Option State
    disconnect ch st = some (if ch.disconnected then app.on_disconnected ch.alias c st else st)

    -- "check if it is able to connect to all channels": the state, and whether all accepted.
    connect_each : List Text → State → State × Bool
    connect_each [] st = (st, true)
    connect_each (k ∷ ks) st = elim (current k st) [
      | none ↦ connect_each ks st
      | some ch ↦ elim ch.connected [
        | false ↦ connect_each ks st
        | true ↦
            let done = app.on_connected k c st in
            elim done.1 [
              | none ↦ connect_each ks done.0
              | some e ↦ (send_report (connect_report ch.name e) done.0, false)
            ]
      ]
    ]

    -- The loop of ReadMessage, which ends at the read error and closes the client.
    read_loop : List Text → State → State
    read_loop [] st = record st { world = close c st.world }
    read_loop (msg ∷ rest) st =
        let done = process_event app env c msg st in
        read_loop rest
          (elim done.1 [ none ↦ done.0 | some e ↦ send_report (process_report e) done.0 ])

    -- The deferred calls, the last one first.
    unregister : State → Option State
    unregister st =
        let st' = record st { server = remove_client c st.server } in
        elim (revoke_auth env c st') [ none ↦ none | some (st'', e) ↦ some st'' ]

    after_loop : State → Option State
    unfolding unregister
    after_loop st = elim (over_channels quit_rooms (ranged st) st) [
      | none ↦ none
      | some st1 ↦ elim (over_channels left_user (ranged st1) st1) [
        | none ↦ none
        | some st2 ↦ elim (over_channels disconnect (ranged st2) st2) [
          | none ↦ none
          | some st3 ↦ unregister st3
        ]
      ]
    ]

    pub serve : List Text → State → Option State
    unfolding after_loop read_loop
    serve inbox st =
        let st0 = record st { server = add_client c st.server } in
        elim (over_channels join_user (ranged st0) st0) [
          | none ↦ none
          | some st1 ↦ elim (over_channels list_rooms (ranged st1) st1) [
            | none ↦ none
            | some st2 ↦ after_loop (read_loop inbox st2)
          ]
        ]

    -- A client that a channel does not accept is only revoked.
    connected_or_not : List Text → State × Bool → Option State
    unfolding serve
    connected_or_not inbox (st, true) = serve inbox st
    connected_or_not inbox (st, false) = elim (revoke_auth env c st) [
      | none ↦ none
      | some (st', e) ↦ some st'
    ]

    after_auth : Option (State × List Text × Option Error) → Option State
    unfolding connected_or_not connect_each
    after_auth none = none
    after_auth (some (st, rest, some e)) = some (send_report (auth_report e) st)
    after_auth (some (st, rest, none)) = connected_or_not rest (connect_each (ranged st) st)

-- The handler of one connection, which delivers the messages of the inbox and then fails to read.
pub handle : Env → App → List Text → State → Option State
unfolding after_auth new_client next_id
handle env app inbox st =
    let c = next_id st.server in
    let st' = new_client st in after_auth env c app (check_auth env app c inbox st')
