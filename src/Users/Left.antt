-- ===== src/Users/Left.antt =====
-- Who is told that a user has left a channel without a ConnManager.
use mathlib.Core.List.{Perm, Mem, not-mem-nil}
use mathlib.Core.List.Perm
use eddwise.Base.{
  ℕ, List, [], ◌∷◌, ◌++◌, map, append-nil, Option, none, some, true, ◌≡◌, ◌↔◌, refl, sym, ap,
  sprint,
}
use eddwise.Event.{Event, user_left, check_send_fields}
use eddwise.World.{World, Env, Packet, IsFair}
use eddwise.Send.{Error}
use eddwise.Send.Delivery.{reaches, packet, reached, broadcast-reached}
use eddwise.Server.{Server, Channel, get_clients}
use eddwise.Users.{announce, on_left}

module _ (env : Env) (fair : IsFair env) (ch : Channel) where
  -- A message to these clients, as far as they can be reached, and nothing else.
  abbrev pub Told : Event → List ℕ → World → World × Option Error → Type 0
  Told event cs w r =
      (out : List Packet) × (r.0 ≡ record w { sent = w.sent ++ out })
      × Perm out (map (packet env ch.alias event) (reached env ch.alias event w cs))
      × ((r.1 ≡ none) ↔ ((d : ℕ) → Mem d cs → reaches env ch.alias event w d ≡ true))

  pub announce-Told :
      (event : Event) (cs : List ℕ) (w : World)
      → check_send_fields event ≡ none
      → Told event cs w (announce env ch event cs w)
  unfolding announce reached
  announce-Told event [] w valid = (
    [],
    ap (λ s. record w { sent = s }) (sym (append-nil w.sent)),
    Perm.refl [],
    (λ h d m. absurd (not-mem-nil m), λ h. refl),
  )
  announce-Told event (d ∷ ds) w valid = broadcast-reached env ch.alias event (d ∷ ds) w fair valid

  -- In a channel without a ConnManager, onLeft does not panic: it writes once that the user has left to
  -- each other client of the server that can be reached, and to nobody else, and reports an error exactly
  -- when some other client could not be reached.
  pub on_left-Told :
      (c : ℕ) (s : Server) (w : World)
      → ch.conn_manager ≡ none
      → (r : World × Option Error) × (on_left env ch c s w ≡ some r)
        × Told (user_left (sprint c)) (get_clients env (c ∷ []) s) w r
  unfolding on_left check_send_fields
  on_left-Told c s w absent =
      let others = get_clients env (c ∷ []) s in
      (
        announce env ch (user_left (sprint c)) others w,
        rw (absent, on_left) refl,
        announce-Told (user_left (sprint c)) others w refl,
      )
