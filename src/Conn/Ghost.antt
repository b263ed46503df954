-- ===== src/Conn/Ghost.antt =====
-- A client that a ConnManager keeps under a user for good.
use eddwise.Base.{
  ℕ, Text, text_key, nat_key, Dict, get, insert, delete, ◌⊎◌, sym, get-insert, get-delete,
  get-delete_self, [], none, some, Bool, true, ◌≡◌, ◌≢◌, inl, inr, subst, arith, Option-cases,
}
use eddwise.World.{World, Auth}
use eddwise.Conn.{ConnManager, inner_map, drop_connection, set_auth, remove_auth, is_user_connected}
use eddwise.Conn.Connected.{connection}
use eddwise.Conn.Revoke.{connection-drop, connected_of_connection}

-- What a ConnManager may be after it has revoked a client: any client is revoked and any other one is
-- authenticated, in whatever worlds. The ids of clients are not used again.
pub data Since (c : ℕ) (cm : ConnManager) (w : World) : ConnManager → Type 0 where
  revoked : {m : ConnManager} (left : Bool) → remove_auth c cm w ≡ some (m, left) → Since c cm w m
  then_revoked :
      {m m' : ConnManager} (e : ℕ) (w' : World) (left : Bool)
      → Since c cm w m
      → remove_auth e m w' ≡ some (m', left)
      → Since c cm w m'
  then_authenticated :
      {m m' : ConnManager} (e : ℕ) (a : Auth) (w' : World)
      → Since c cm w m
      → e ≢ c
      → (set_auth e a m w').0 ≡ m'
      → Since c cm w m'

-- A client that the manager has no longer, and that it lists under a user all the same.
abbrev IsGhost : ℕ → Text → ConnManager → Type 0
IsGhost c u m = (get c m.clients ≡ none) × (connection m u c ≡ some c)

dropped-IsGhost :
    (c e : ℕ) (u : Text) (a : Auth) (m : ConnManager)
    → (e ≢ c) ⊎ (a.id ≢ u)
    → connection m u c ≡ some c
    → get c
        (inner_map u (drop_connection a.id e (get a.id m.user_connections) m.user_connections).0)
      ≡ some c
dropped-IsGhost c e u a m other listed =
    ground (arith, connection-drop e a.id u c m.user_connections)

remove_auth-cases :
    (e : ℕ) (m m' : ConnManager) (w : World) (left : Bool)
    → remove_auth e m w ≡ some (m', left)
    → (d : ℕ) × (a : Auth) × (get e m.clients ≡ some d)
      × ((w.clients d).auth ≡ some a)
      × (m' ≡ record {
        clients = delete e m.clients;
        user_connections =
            (drop_connection a.id e (get a.id m.user_connections) m.user_connections).0;
      })
unfolding remove_auth
remove_auth-cases e m m' w left h = elim (Option-cases (get e m.clients)) [
  | inl p ↦ absurd (ground arith)
  | inr (d, p) ↦ elim (Option-cases (w.clients d).auth) [
    | inl q ↦ absurd (ground arith)
    | inr (a, q) ↦ (d, a, p, q, ground arith)
  ]
]

absent-delete : (c e : ℕ) (m : Dict ℕ ℕ) → get c m ≡ none → get c (delete e m) ≡ none
absent-delete c e m h = ground (arith, get-delete e c m)

set_auth-IsGhost :
    (c e : ℕ) (u : Text) (a : Auth) (m : ConnManager) (w : World)
    → e ≢ c
    → IsGhost c u m
    → IsGhost c u (set_auth e a m w).0
unfolding set_auth
set_auth-IsGhost c e u a m w other (gone, listed) = (
  ground (arith, get-insert e c e m.clients),
  elim (Option-cases (get a.id m.user_connections)) [
    | inl p ↦
        ground
          (arith, get-insert a.id u (insert e e []) m.user_connections, get-insert {V = ℕ} e c e [])
    | inr (inner, p) ↦
        ground
          (arith, get-insert a.id u (insert e e inner) m.user_connections, get-insert e c e inner)
  ],
)

Since-IsGhost :
    (c d : ℕ) (u : Text) (a : Auth) (cm : ConnManager) (w : World)
    → get c cm.clients ≡ some d
    → (w.clients d).auth ≡ some a
    → connection cm u c ≡ some c
    → a.id ≢ u
    → {m : ConnManager} → Since c cm w m
    → IsGhost c u m
Since-IsGhost c d u a cm w known auth listed other (revoked left h) =
    let (x, b, p, q, same) = remove_auth-cases c cm _ w left h in
    let who : d ≡ x = cc in
    let auth' : a ≡ b = cc in
    let elsewhere : b.id ≢ u = subst (λ (y : Auth). y.id ≢ u) auth' other in
    subst (IsGhost c u) (sym same)
      (get-delete_self c cm.clients, dropped-IsGhost c c u b cm (inr elsewhere) listed)
Since-IsGhost c d u a cm w known auth listed other (then_revoked {m} {m'} e w' left since h) =
    let (gone, still) = Since-IsGhost c d u a cm w known auth listed other since in
    let (x, b, p, q, same) = remove_auth-cases e m m' w' left h in
    let another : e ≢ c = λ i. ground arith in
    subst (IsGhost c u) (sym same)
      (absent-delete c e m.clients gone, dropped-IsGhost c e u b m (inl another) still)
Since-IsGhost c d u a cm w known auth listed other
      (then_authenticated {m} e b w' since another same) =
    subst (IsGhost c u) same (
      set_auth-IsGhost c e u b m w' another
        (Since-IsGhost c d u a cm w known auth listed other since))

-- A client that a ConnManager lists under a user, and that has since been authenticated as another user, is
-- listed under the first one for good: revoking it does not panic and leaves the entry, and after any
-- later revocations, and authentications of other clients, the manager does not know the client and
-- the first user counts as connected.
pub remove_auth-ghost :
    (c d : ℕ) (u : Text) (a : Auth) (cm : ConnManager) (w : World) (m : ConnManager)
    → get c cm.clients ≡ some d
    → (w.clients d).auth ≡ some a
    → connection cm u c ≡ some c
    → a.id ≢ u
    → Since c cm w m
    → (remove_auth c cm w ≢ none)
      × (get c m.clients ≡ none)
      × (connection m u c ≡ some c)
      × (is_user_connected u m ≡ true)
unfolding remove_auth
remove_auth-ghost c d u a cm w m known auth listed other since =
    let (gone, still) = Since-IsGhost c d u a cm w known auth listed other since in
    (λ panic. ground arith, gone, still, connected_of_connection u c c m still)
