-- ===== src/States/Stored.antt =====
-- What ClientState finds after SetClientState.
use eddwise.Base.{ℕ, ℕ_discrete, Text, Text-discrete, none, some, ite, ◌≡◌, arith}
use eddwise.World.{World, set_client, set_state, get_state}
use eddwise.States.{set_client_state, client_state}

-- After SetClientState of a client, a StateManager of the same type reads the value, one of another
-- type panics, and the states of the other clients are as they were.
pub client_state-set_client_state :
    (type_name other_type : Text) (c d : ℕ) (value : Text) (w : World)
    → client_state other_type d (set_client_state type_name c value w)
      ≡ ite
          (ℕ_discrete c d)
          (ite (Text-discrete type_name other_type) (some value) none)
          (client_state other_type d w)
unfolding client_state set_client_state set_state get_state set_client
client_state-set_client_state type_name other_type c d value w = ground arith
