-- ===== src/Design/Directions/Sendable.antt =====
-- Which events of a channel can be sent in a direction.
use eddwise.Base.{
  Text, text_key, Dict, get, delete, get-delete, [], ◌∷◌, none, some, Bool, ◌≡◌, ◌↔◌, refl, arith,
}
use eddwise.Design.{Direction, any, server_to_client, client_to_server, Struct, DesignChannel}
use eddwise.Design.Directions.{enabled_map, delete_each, get_direction_events}

-- The marks of the other direction.
abbrev pub reverse_marks : Direction → DesignChannel → Dict Text Bool
reverse_marks any ch = ch.client_to_server
reverse_marks server_to_client ch = ch.client_to_server
reverse_marks client_to_server ch = ch.server_to_client

get-delete_each_iff :
    (k : Text) (s : Struct) (marks : Dict Text Bool) (m : Dict Text Struct)
    → (get k (delete_each marks m) ≡ some s) ↔ ((get k m ≡ some s) × (get k marks ≡ none))
unfolding get delete_each
get-delete_each_iff k s [] m = (λ h. (h, refl), λ h. h.0)
get-delete_each_iff k s ((j, b) ∷ marks) m = (
  λ h.
      let (kept, unmarked) = (get-delete_each_iff k s marks (delete j m)).0 h in
      (ground (arith, get-delete j k m), ground (arith, get-delete j k m)),
  λ (known, unmarked).
      (get-delete_each_iff k s marks (delete j m)).1
        (ground (arith, get-delete j k m), ground arith),
)

-- An event can be sent in a direction exactly if the channel enables it and it is not marked with the
-- other direction.
pub get_direction_events_iff :
    (direction : Direction) (ch : DesignChannel) (k : Text) (s : Struct)
    → (get k (get_direction_events direction ch) ≡ some s)
      ↔ ((get k (enabled_map ch) ≡ some s) × (get k (reverse_marks direction ch) ≡ none))
unfolding get_direction_events
get_direction_events_iff any ch k s = get-delete_each_iff k s ch.client_to_server (enabled_map ch)
get_direction_events_iff server_to_client ch k s =
    get-delete_each_iff k s ch.client_to_server (enabled_map ch)
get_direction_events_iff client_to_server ch k s =
    get-delete_each_iff k s ch.server_to_client (enabled_map ch)
