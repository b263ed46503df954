-- ===== src/Codegen/Unordered.antt =====
-- The order in which a file lists the events of a channel does not matter for the code.
use eddwise.Base.{
  Text, text_key, Dict, get, List, none, some, Bool, ◌≡◌, ◌↔◌, refl, sym, ◌∙◌, Option-cases, inl,
  inr,
}
use eddwise.Design.{Direction, client_to_server, server_to_client, Struct, DesignChannel}
use eddwise.Design.Directions.{enabled_map, get_direction_events}
use eddwise.Design.Directions.Sendable.{reverse_marks, get_direction_events_iff}
use eddwise.Design.Fill.{in_key_order}
use eddwise.Design.Sort.Unique.{sort_by-same}
use eddwise.Codegen.{events, channel_alias}
use eddwise.Codegen.Channel.{
  recv_method, route_case, unhandled_method, send_method, broadcast_method, channel_methods,
  channel_code,
}
use eddwise.Codegen.Client.{client_methods, client_channel_code}
use eddwise.Codegen.Events.{fixed_sender, handler_field, client_case, handler_code, sender_code}
use eddwise.Codegen.Routing.Agreed.{get_direction_events-Distinct}

-- Two channels enable the same structs under the same names, and mark the same names.
abbrev IsAlike : DesignChannel → DesignChannel → Type 0
IsAlike a b =
    ((k : Text) → get k (enabled_map a) ≡ get k (enabled_map b))
    × ((direction : Direction) (k : Text)
        → (get k (reverse_marks direction a) ≡ none) ↔ (get k (reverse_marks direction b) ≡ none))

IsAlike-sym : (a b : DesignChannel) → IsAlike a b → IsAlike b a
IsAlike-sym a b (enabled, marks) =
    (λ k. sym (enabled k), λ direction k. ((marks direction k).1, (marks direction k).0))

alike-some :
    (direction : Direction) (a b : DesignChannel) (k : Text) (s : Struct)
    → IsAlike a b
    → get k (get_direction_events direction a) ≡ some s
    → get k (get_direction_events direction b) ≡ some s
alike-some direction a b k s (enabled, marks) h =
    let (known, free) = (get_direction_events_iff direction a k s).0 h in
    (get_direction_events_iff direction b k s).1
      (sym (enabled k) ∙ known, (marks direction k).0 free)

get_direction_events-same :
    (direction : Direction) (a b : DesignChannel) (k : Text)
    → IsAlike a b
    → get k (get_direction_events direction a) ≡ get k (get_direction_events direction b)
get_direction_events-same direction a b k v =
    elim (Option-cases (get k (get_direction_events direction a))) [
      | inr (s, e) ↦ e ∙ sym (alike-some direction a b k s v e)
      | inl e ↦ elim (Option-cases (get k (get_direction_events direction b))) [
        | inl f ↦ e ∙ sym f
        | inr (s, f) ↦ let back = alike-some direction b a k s (IsAlike-sym a b v) f in cc
      ]
    ]

events-same :
    (direction : Direction) (a b : DesignChannel)
    → IsAlike a b
    → events direction a ≡ events direction b
unfolding events in_key_order
events-same direction a b v =
    sort_by-same (get_direction_events direction a) (get_direction_events direction b)
      (get_direction_events-Distinct direction a) (get_direction_events-Distinct direction b)
      (λ k. get_direction_events-same direction a b k v)

-- The code that GenerateServer and GenerateClient print for a channel does not change when its events are
-- enabled in another order, or its maps of directions hold their names in another one: it is enough that
-- each name is enabled with the same struct and marked with the same directions.
pub channel_code-same :
    (ch : DesignChannel) (enabled : List Struct) (to_client to_server : Dict Text Bool)
    → let other : DesignChannel = record ch {
      enabled = enabled;
      server_to_client = to_client;
      client_to_server = to_server;
    } in
      ((k : Text) → get k (enabled_map ch) ≡ get k (enabled_map other))
      → ((direction : Direction) (k : Text)
          → (get k (reverse_marks direction ch) ≡ none)
            ↔ (get k (reverse_marks direction other) ≡ none))
      → (channel_code ch ≡ channel_code other)
        × (client_channel_code ch ≡ client_channel_code other)
unfolding channel_code client_channel_code recv_method route_case unhandled_method send_method
    broadcast_method channel_methods client_methods fixed_sender handler_field client_case
    handler_code sender_code channel_alias
channel_code-same ch enabled to_client to_server alike marks =
    let other : DesignChannel = record ch {
      enabled = enabled;
      server_to_client = to_client;
      client_to_server = to_server;
    } in
    let sent = events-same server_to_client ch other (alike, marks) in
    let received = events-same client_to_server ch other (alike, marks) in
    (rw (sent, received) refl, rw (sent, received) refl)
