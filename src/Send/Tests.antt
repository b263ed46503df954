-- ===== src/Send/Tests.antt =====
-- The delivery theorems at concrete worlds.
use mathlib.Core.List.{Perm, Mem}
use eddwise.Base.{
  ℕ, Text, codes, List, [], ◌∷◌, ◌++◌, map, none, some, true, ◌≡◌, ◌↔◌, refl, ℕ_discrete, length,
}
use eddwise.Event.{Event, room_create, app, check_send_fields, protocol_alias}
use eddwise.World.{World, Packet, set_client, close}
use eddwise.Send.{send, broadcast, message, frame_of}
use eddwise.Send.Delivery.{reaches, packet, reached, broadcast-reached}
use eddwise.Samples.{env, env-IsFair, start}

abbrev chat : Text
chat = codes "chat"

abbrev news : Event
news = room_create (codes "lobby")

-- Client 2 is closed, client 9 has lost its connection.
abbrev partly : World
partly = close 2 start

reached_runs : reached env chat news partly (1 ∷ 2 ∷ 9 ∷ 4 ∷ []) ≡ 1 ∷ 4 ∷ []
unfolding reached reaches close set_client ℕ_discrete message protocol_alias
reached_runs = refl

broadcast_runs : length (broadcast env chat news (1 ∷ 2 ∷ 9 ∷ 4 ∷ []) partly).0.sent ≡ 2
unfolding broadcast send close set_client ℕ_discrete message protocol_alias frame_of
    check_send_fields
broadcast_runs = refl

broadcast-reached_example :
    (out : List Packet) × ((broadcast env chat news (1 ∷ 2 ∷ []) partly).0
      ≡ record partly { sent = partly.sent ++ out })
    × Perm out (map (packet env chat news) (reached env chat news partly (1 ∷ 2 ∷ [])))
    × (((broadcast env chat news (1 ∷ 2 ∷ []) partly).1 ≡ none)
        ↔ ((c : ℕ) → Mem c (1 ∷ 2 ∷ []) → reaches env chat news partly c ≡ true))
unfolding check_send_fields
broadcast-reached_example = broadcast-reached env chat news (1 ∷ 2 ∷ []) partly env-IsFair refl

abbrev forbidden : Event
forbidden = app (record {
  name = codes "move";
  alias = codes "m";
  body = [];
  check_send = some (codes "Move.By must not be set");
})
