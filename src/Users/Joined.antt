-- ===== src/Users/Joined.antt =====
-- Who is told that a user has joined a channel without a ConnManager, and whom the user is told of.
use eddwise.Base.{
  ℕ, Text, true, false, List, [], ◌∷◌, ◌++◌, map, append-nil, append_assoc, Option, none, some, All,
  ◌≡◌, refl, sym, ap, ◌∙◌, sprint,
}
use eddwise.Event.{user_join, check_send_fields}
use eddwise.World.{World, Env, IsFair}
use eddwise.Send.{Error, SendError, send_error}
use eddwise.Send.Delivery.{reaches, packet, send_open}
use eddwise.Server.{Server, Channel, get_clients}
use eddwise.Users.{announce, send_ids, broadcast_user, on_join}
use eddwise.Users.Left.{Told, announce-Told}

module _ (env : Env) (ch : Channel) (c : ℕ) where
  -- The joining client hears of these users, in this order.
  abbrev pub greeted : List Text → World → World
  greeted ids w = record w { sent = w.sent ++ map (λ id. packet env ch.alias (user_join id) c) ids }

  send_ids-All :
      (ids : List Text) (w : World)
      → All (λ id. reaches env ch.alias (user_join id) w c ≡ true) ids
      → send_ids env ch c ids w ≡ (greeted ids w, none)
  unfolding send_ids check_send_fields reaches
  send_ids-All [] w h = ap (λ s. (record w { sent = s }, none)) (sym (append-nil w.sent))
  send_ids-All (id ∷ ids) w h =
      ap
        (λ (told : World × Option SendError). elim told.1 as (λ x. World × Option Error) [
          | none ↦ send_ids env ch c ids told.0
          | some e ↦ (told.0, some (send_error e))
        ])
        (send_open env ch.alias (user_join id) c w refl h.0)
      ∙ send_ids-All ids (greeted (id ∷ []) w) h.1
      ∙ ap (λ s. (record w { sent = s }, none))
          (append_assoc w.sent (packet env ch.alias (user_join id) c ∷ [])
            (map (λ i. packet env ch.alias (user_join i) c) ids))

  -- In a channel without a ConnManager, onJoin of a client that can be reached does not panic: it tells the
  -- client of each other client of the server, and then, if it is asked to, tells each other client that can be
  -- reached of the client; it reports an error exactly when some other client could not be reached.
  pub on_join-Told :
      (fair : IsFair env) (s : Server) (w : World)
      → ch.conn_manager ≡ none
      → All
          (λ id. reaches env ch.alias (user_join id) w c ≡ true)
          (map sprint (get_clients env (c ∷ []) s))
      → let others = get_clients env (c ∷ []) s in
        let met = greeted (map sprint others) w in
        (on_join env ch c false s w ≡ some (met, none))
        × ((r : World × Option Error) × (on_join env ch c true s w ≡ some r)
            × Told env fair ch (user_join (sprint c)) others met r)
  unfolding on_join broadcast_user check_send_fields
  on_join-Told fair s w absent h =
      let others = get_clients env (c ∷ []) s in
      let met = greeted (map sprint others) w in
      let told = send_ids-All (map sprint others) w h in
      (
        rw (absent, told, on_join) refl,
        (
          announce env ch (user_join (sprint c)) others met,
          rw (absent, told, on_join) refl,
          announce-Told env fair ch (user_join (sprint c)) others met refl,
        ),
      )
