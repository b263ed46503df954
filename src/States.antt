-- ===== src/States.antt =====
-- auth.go: StateManager, by which a channel keeps a value of a type of its own with each client. A client
-- has one such value, whatever channel stored it.
pub mod Stored
use eddwise.Base.{ℕ, Text, Text-discrete, Option, none, some, ite}
use eddwise.World.{World, UserState, set_state, get_state}

-- StateManager of the type of that name.
unfoldable pub set_client_state : Text → ℕ → Text → World → World
unfolding set_state
set_client_state type_name c value w =
    set_state c (record { type_name = type_name; value = value }) w

-- The type assertion panics on a nil state and on one of another type.
unfoldable pub client_state : Text → ℕ → World → Option Text
unfolding get_state
client_state type_name c w = elim (get_state c w) [
  | none ↦ none
  | some u ↦ ite (Text-discrete u.type_name type_name) (some u.value) none
]
