-- ===== src/Server/Managed.antt =====
-- The rooms of a running server: whatever its connections do one after another, the maps of its
-- RoomManager and those of the clients agree.
use eddwise.Base.{
  ℕ, Text, Text-discrete, text_key, nat_key, get, get-insert, [], Option, none, some, ◌≡◌, ◌⊎◌, inl,
  inr, refl, subst, arith, Option-cases,
}
use eddwise.Event.{ClientRoomEvent}
use eddwise.World.{Env, World}
use eddwise.Room.{RoomManager, on_room_event, room_client_quit}
use eddwise.Room.Managed.{IsManaged}
use eddwise.Room.Requests.{on_room_event-IsManaged}
use eddwise.Room.Quit.{room_client_quit-IsManaged}
use eddwise.Server.{
  Server, State, Channel, App, EventMessage, get_clients, add_client, remove_client, put_channel,
  room_event_of, handle_room, dispatch, on_channel, process_decoded, process_event,
}

-- The channel of the alias has the one RoomManager of the server, whose rooms agree with the clients,
-- and each channel stands under its own alias.
pub record HasRooms (k : Text) (st : State) : Type 0 where
  pub home : Channel
  pub manager : RoomManager
  pub registered : get k st.server.registered_channels ≡ some home
  pub managed : home.room_manager ≡ some manager
  pub agrees : IsManaged manager st.world
  pub own : (j : Text) (ch : Channel) → get j st.server.registered_channels ≡ some ch → ch.alias ≡ j
  pub only :
      (j : Text) (ch : Channel)
      → get j st.server.registered_channels ≡ some ch
      → (j ≡ k) ⊎ (ch.room_manager ≡ none)

-- What a server may come to: clients are added and removed, they send messages and quit their rooms,
-- in any order.
pub data Later (app : App) (env : Env) (st : State) : State → Type 0 where
  now : Later app env st st
  received :
      {before after : State} (c : ℕ) (raw_event : Text)
      → Later app env st before
      → (process_event app env c raw_event before).0 ≡ after
      → Later app env st after
  added :
      {before after : State} (c : ℕ)
      → Later app env st before
      → record before { server = add_client c before.server } ≡ after
      → Later app env st after
  removed :
      {before after : State} (c : ℕ)
      → Later app env st before
      → record before { server = remove_client c before.server } ≡ after
      → Later app env st after
  quit :
      {before after : State} (c : ℕ)
      → Later app env st before
      → record before { world = room_client_quit env c before.world } ≡ after
      → Later app env st after

module _ (app : App) (env : Env) (k : Text) where
  answered-HasRooms :
      (c : ℕ) (event : ClientRoomEvent) (st : State) (v : HasRooms k st)
      → let done = on_room_event env v.manager (get_clients env [] st.server) c event st.world in
        HasRooms k (
          put_channel
            (record (v.home) { room_manager = some done.0 })
            (record st { world = done.1 }))
  unfolding put_channel
  answered-HasRooms c event st v =
      let done = on_room_event env v.manager (get_clients env [] st.server) c event st.world in
      let home' : Channel = record (v.home) { room_manager = some done.0 } in
      let same : v.home.alias ≡ k = v.own k v.home v.registered in
      record {
        home = home';
        manager = done.0;
        registered =
            ground (arith, get-insert v.home.alias k home' st.server.registered_channels, same);
        managed = refl;
        agrees =
            on_room_event-IsManaged env v.manager (get_clients env [] st.server) c event st.world
              v.agrees;
        own = λ j ch h.
            ground
              (arith, get-insert v.home.alias j home' st.server.registered_channels, v.own j ch);
        only = λ j ch h. ground (
          arith,
          get-insert v.home.alias j home' st.server.registered_channels,
          v.only j ch,
          same,
        );
      }

  handle_room-HasRooms :
      (j : Text) (ch : Channel) (c : ℕ) (event : ClientRoomEvent) (st : State)
      → get j st.server.registered_channels ≡ some ch
      → HasRooms k st
      → HasRooms k (handle_room app env ch c event st).0
  unfolding handle_room
  handle_room-HasRooms j ch c event st known v = elim (Option-cases ch.room_manager) [
    | inl e ↦ rw e v
    | inr (rm, e) ↦ elim (v.only j ch known) [
      | inl same ↦
          let here : ch ≡ v.home = ground arith in
          rw (here, v.managed) (answered-HasRooms c event st v)
      | inr without ↦ absurd (ground arith)
    ]
  ]

  dispatch-HasRooms :
      (j : Text) (ch : Channel) (c : ℕ) (event : EventMessage)
      (request : Option (Option ClientRoomEvent)) (st : State)
      → ((s : State) → HasRooms k s → HasRooms k (app.route ch.alias c event s).0)
      → get j st.server.registered_channels ≡ some ch
      → HasRooms k st
      → HasRooms k (dispatch app env ch c event request st).0
  unfolding dispatch
  dispatch-HasRooms j ch c event none st routes known v = routes st v
  dispatch-HasRooms j ch c event (some none) st routes known v = v
  dispatch-HasRooms j ch c event (some (some request)) st routes known v =
      handle_room-HasRooms j ch c request st known v

  on_channel-HasRooms :
      (c : ℕ) (event : EventMessage) (o : Option Channel) (st : State)
      → ((j : Text) (s : State) → HasRooms k s → HasRooms k (app.route j c event s).0)
      → get event.channel st.server.registered_channels ≡ o
      → HasRooms k st
      → HasRooms k (on_channel app env c event o st).0
  unfolding on_channel
  on_channel-HasRooms c event none st routes known v = v
  on_channel-HasRooms c event (some ch) st routes known v =
      dispatch-HasRooms event.channel ch c event (room_event_of app event) st (routes ch.alias)
        known v

  process_event-HasRooms :
      (c : ℕ) (raw_event : Text) (st : State)
      → ((j : Text) (event : EventMessage) (s : State)
          → HasRooms k s
          → HasRooms k (app.route j c event s).0)
      → HasRooms k st
      → HasRooms k (process_event app env c raw_event st).0
  unfolding process_event process_decoded
  process_event-HasRooms c raw_event st routes v =
      elim (Option-cases (app.decode_event raw_event)) [
        | inl e ↦ rw e v
        | inr (event, e) ↦ elim (Text-discrete event.channel []) [
          | yes p ↦ rw e (ground arith)
          | no p ↦ ground (
            arith,
            on_channel-HasRooms c event (get event.channel st.server.registered_channels) st
                (λ j s. routes j event s) refl v,
          )
        ]
      ]

moved-HasRooms :
    (k : Text) (st : State) (server : Server) (world : World)
    → server.registered_channels ≡ st.server.registered_channels
    → ((rm : RoomManager) → IsManaged rm st.world → IsManaged rm world)
    → HasRooms k st
    → HasRooms k (record { server = server; world = world })
moved-HasRooms k st server world same keeps v = record {
  home = v.home;
  manager = v.manager;
  registered = rw same v.registered;
  managed = v.managed;
  agrees = keeps v.manager v.agrees;
  own = λ j ch. rw same (v.own j ch);
  only = λ j ch. rw same (v.only j ch);
}

-- In a server in which one RoomManager belongs to a channel, each channel stands under its own
-- alias, and a client holds a room exactly if the room lists it, all of this stays so in any
-- order in which clients are added and removed, send messages and quit their rooms, if the
-- Routes of the channels, which get the messages that are no room requests, keep it.
pub Later-HasRooms :
    (app : App) (env : Env) (k : Text) (st s : State)
    → ((j : Text) (c : ℕ) (event : EventMessage) (t : State)
        → HasRooms k t
        → HasRooms k (app.route j c event t).0)
    → HasRooms k st
    → Later app env st s
    → HasRooms k s
unfolding add_client remove_client
Later-HasRooms app env k st s routes v now = v
Later-HasRooms app env k st s routes v (received {before} c raw_event since same) =
    subst (HasRooms k) same (
      process_event-HasRooms app env k c raw_event before (λ j. routes j c)
        (Later-HasRooms app env k st before routes v since))
Later-HasRooms app env k st s routes v (added {before} c since same) = subst (HasRooms k) same (
    moved-HasRooms k before (add_client c before.server) before.world refl (λ rm u. u)
      (Later-HasRooms app env k st before routes v since))
Later-HasRooms app env k st s routes v (removed {before} c since same) = subst (HasRooms k) same (
    moved-HasRooms k before (remove_client c before.server) before.world refl (λ rm u. u)
      (Later-HasRooms app env k st before routes v since))
Later-HasRooms app env k st s routes v (quit {before} c since same) = subst (HasRooms k) same (
    moved-HasRooms k before before.server (room_client_quit env c before.world) refl
      (λ rm. room_client_quit-IsManaged env c before.world)
      (Later-HasRooms app env k st before routes v since))
