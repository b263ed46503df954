-- ===== src/Conn/Tests.antt =====
-- The theorems on ConnManager at concrete states: client 1 is alice, and authenticates.
use eddwise.Base.{
  ℕ, Text, Text-discrete, codes, text_key, nat_key, get, insert, delete, [], ◌∷◌, ◌≢◌, none, some,
  Bool, true, false, ◌≡◌, ◌↔◌, refl, ite, arith, ℕ_discrete,
}
use eddwise.World.{World, Auth, set_raw_auth, set_client}
use eddwise.Samples.{start}
use eddwise.Conn.{ConnManager, set_auth, remove_auth, is_user_connected}
use eddwise.Conn.Connected.{user_of, connection, IsConnected, set_auth_lem}
use eddwise.Conn.Ghost.{revoked, then_authenticated, remove_auth-ghost}
use eddwise.Conn.Revoke.{remove_auth_lem, is_user_connected_iff}

abbrev alice : Auth
alice = record { id = codes "alice"; payload = [] }

abbrev bob : Auth
bob = record { id = codes "bob"; payload = [] }

abbrev nobody : ConnManager
nobody = record { clients = []; user_connections = [] }

nobody-IsConnected : IsConnected nobody start
unfolding get
nobody-IsConnected = record {
  tracked = λ c d h. cc;
  grouped = λ u c d h. cc;
  nonempty = λ u inner h. cc;
}

abbrev one : ConnManager × World × Bool
one = set_auth 1 alice nobody start

one-IsConnected : IsConnected one.0 one.1
unfolding get
one-IsConnected = (set_auth_lem 1 alice nobody start nobody-IsConnected refl).0

set_auth_lem_example :
    ((set_auth 2 alice one.0 one.1).2 ≡ true) ↔ (is_user_connected alice.id one.0 ≡ false)
unfolding set_auth get insert delete ℕ_discrete
set_auth_lem_example = (set_auth_lem 2 alice one.0 one.1 one-IsConnected refl).2

second_runs : (set_auth 2 alice one.0 one.1).2 ≡ false
unfolding set_auth get insert delete ℕ_discrete Text-discrete
second_runs = refl

remove_auth_lem_example :
    (u : Text) × (cm' : ConnManager) × (left : Bool) × (user_of one.1 1 ≡ some u)
    × (remove_auth 1 one.0 one.1 ≡ some (cm', left))
    × IsConnected cm' one.1
    × ((e : ℕ) → get e cm'.clients ≡ ite (ℕ_discrete 1 e) none (get e one.0.clients))
    × (is_user_connected u cm' ≡ left)
unfolding set_auth get insert delete ℕ_discrete
remove_auth_lem_example = remove_auth_lem 1 one.0 one.1 one-IsConnected 1 refl

is_user_connected_iff_example :
    (is_user_connected alice.id one.0 ≡ true)
    ↔ ((c : ℕ) × (get c one.0.clients ≡ some c) × (user_of one.1 c ≡ some alice.id))
is_user_connected_iff_example = is_user_connected_iff alice.id one.0 one.1 one-IsConnected

-- Another channel has since made client 1 bob.
abbrev later : ConnManager
later = record { clients = []; user_connections = (alice.id, (1, 1) ∷ []) ∷ [] }

-- Client 2 comes as bob afterwards.
abbrev latest : ConnManager
latest = (set_auth 2 bob later start).0

remove_auth-ghost_example :
    (remove_auth 1 one.0 (set_raw_auth 1 (some bob) one.1) ≢ none)
    × (get 1 latest.clients ≡ none)
    × (connection latest alice.id 1 ≡ some 1)
    × (is_user_connected alice.id latest ≡ true)
unfolding set_auth get insert delete ℕ_discrete Text-discrete set_raw_auth set_client remove_auth
remove_auth-ghost_example =
    remove_auth-ghost 1 1 alice.id bob one.0 (set_raw_auth 1 (some bob) one.1) latest refl refl refl
      (λ e. cc)
      (then_authenticated {m = later} 2 bob start (revoked false refl) (λ e. omega arith) refl)
