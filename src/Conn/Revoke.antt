-- ===== src/Conn/Revoke.antt =====
-- What removeAuth does to a ConnManager, and which users count as connected.
use eddwise.Base.{
  ℕ, Text, Text-discrete, text_key, nat_key, Dict, get, delete, get-insert, get-delete, Distinct,
  delete-Distinct, [], ◌∷◌, none, some, Bool, true, ◌≡◌, ◌≢◌, ◌↔◌, inl, inr, refl, subst, arith,
  ite, ℕ_discrete, Option-cases,
}
use eddwise.World.{World}
use eddwise.Conn.{ConnManager, inner_map, drop_connection, remove_auth, is_user_connected}
use eddwise.Conn.Connected.{user_of, connection, IsConnected}

module _ (c : ℕ) where
  pub connection-drop :
      (u t : Text) (d : ℕ) (m : Dict Text (Dict ℕ ℕ))
      → get d (inner_map t (drop_connection u c (get u m) m).0)
        ≡ ite
            (Text-discrete u t)
            (ite (ℕ_discrete c d) none (get d (inner_map u m)))
            (get d (inner_map t m))
  unfolding drop_connection get
  connection-drop u t d m = elim (Option-cases (get u m)) [
    | inl e ↦ rw e (ground (arith, get-delete u t m))
    | inr (inner, e) ↦
        rw e (
          ground (arith, get-delete u t m, get-insert u t (delete c inner) m, get-delete c d inner))
  ]

  nonempty-drop :
      (u t : Text) (m : Dict Text (Dict ℕ ℕ)) (inner : Dict ℕ ℕ)
      → ((s : Text) (i : Dict ℕ ℕ) → get s m ≡ some i → Distinct i × (i ≢ []))
      → get t (drop_connection u c (get u m) m).0 ≡ some inner
      → Distinct inner × (inner ≢ [])
  unfolding drop_connection
  nonempty-drop u t m inner v h = elim (Option-cases (get u m)) [
    | inl e ↦ v t inner (ground (arith, get-delete u t m))
    | inr (old, e) ↦ elim (Text-discrete u t) [
      | yes p ↦
          let d = delete-Distinct c old (v u old e).0 in
          ground (arith, get-delete u t m, get-insert u t (delete c old) m, d)
      | no p ↦ v t inner (ground (arith, get-delete u t m, get-insert u t (delete c old) m))
    ]
  ]

module _ (c : ℕ) (cm : ConnManager) (w : World) (v : IsConnected cm w) where
  -- The manager without the client, and the answer.
  removed : Text → ConnManager × Bool
  removed u =
      let dropped = drop_connection u c (get u cm.user_connections) cm.user_connections in
      (record { clients = delete c cm.clients; user_connections = dropped.0 }, dropped.1)

  remove_auth-removed :
      (d : ℕ) (u : Text)
      → get c cm.clients ≡ some d
      → user_of w c ≡ some u
      → remove_auth c cm w ≡ some (removed u)
  unfolding remove_auth removed
  remove_auth-removed d u known is_user = ground (arith, v.tracked c d known)

  removed-IsConnected : (u : Text) → user_of w c ≡ some u → IsConnected (removed u).0 w
  unfolding removed
  removed-IsConnected u is_user = record {
    tracked = λ d e h.
        let (t, same, is_t, listed) = v.tracked d e (ground (arith, get-delete c d cm.clients)) in
        (
          t,
          same,
          is_t,
          ground (arith, connection-drop c u t d cm.user_connections, get-delete c d cm.clients),
        );
    grouped = λ t d e h. ground (
      arith,
      connection-drop c u t d cm.user_connections,
      get-delete c d cm.clients,
      v.grouped t d e,
    );
    nonempty = λ t inner h. nonempty-drop c u t cm.user_connections inner v.nonempty h;
  }

  connected-removed : (u : Text) → is_user_connected u (removed u).0 ≡ (removed u).1
  unfolding is_user_connected removed drop_connection
  connected-removed u = elim (Option-cases (get u cm.user_connections)) [
    | inl e ↦ ground (arith, get-delete u u cm.user_connections)
    | inr (inner, e) ↦ ground (
      arith,
      get-delete u u cm.user_connections,
      get-insert u u (delete c inner) cm.user_connections,
    )
  ]

  clients-removed :
      (u : Text) (e : ℕ)
      → get e (removed u).0.clients ≡ ite (ℕ_discrete c e) none (get e cm.clients)
  unfolding removed
  clients-removed u e = get-delete c e cm.clients

  -- Revoking a client of the manager does not panic: it removes that client, keeps every other one,
  -- keeps the invariant, and answers whether the client's user has a connection left.
  pub remove_auth_lem :
      (d : ℕ)
      → get c cm.clients ≡ some d
      → (u : Text) × (cm' : ConnManager) × (left : Bool) × (user_of w c ≡ some u)
        × (remove_auth c cm w ≡ some (cm', left))
        × IsConnected cm' w
        × ((e : ℕ) → get e cm'.clients ≡ ite (ℕ_discrete c e) none (get e cm.clients))
        × (is_user_connected u cm' ≡ left)
  remove_auth_lem d known =
      let (u, same, is_user, listed) = v.tracked c d known in
      (
        u,
        (removed u).0,
        (removed u).1,
        is_user,
        remove_auth-removed d u known is_user,
        removed-IsConnected u is_user,
        clients-removed u,
        connected-removed u,
      )

pub connected_of_connection :
    (u : Text) (c d : ℕ) (cm : ConnManager)
    → connection cm u c ≡ some d
    → is_user_connected u cm ≡ true
unfolding is_user_connected get
connected_of_connection u c d cm h = elim (Option-cases (get u cm.user_connections)) [
  | inl e ↦ absurd (ground arith)
  | inr (inner, e) ↦ ground arith
]

get-first : (c d : ℕ) (rest : Dict ℕ ℕ) → get c ((c, d) ∷ rest) ≡ some d
unfolding get
get-first c d rest = ground arith

-- A user counts as connected exactly if some client of the manager is authenticated as that user.
pub is_user_connected_iff :
    (u : Text) (cm : ConnManager) (w : World)
    → IsConnected cm w
    → (is_user_connected u cm ≡ true)
      ↔ ((c : ℕ) × (get c cm.clients ≡ some c) × (user_of w c ≡ some u))
unfolding is_user_connected
is_user_connected_iff u cm w v = (
  λ h. elim (Option-cases (get u cm.user_connections)) [
    | inl e ↦ absurd (ground arith)
    | inr (inner, e) ↦ someone inner e (v.nonempty u inner e).1
  ],
  λ (c, known, is_u).
      let (t, same, is_t, listed) = v.tracked c c known in
      let e : t ≡ u = ground arith in
      connected_of_connection u c c cm (subst (λ x. connection cm x c ≡ some c) e listed),
)
  where
    someone :
        (inner : Dict ℕ ℕ)
        → get u cm.user_connections ≡ some inner
        → inner ≢ []
        → (c : ℕ) × (get c cm.clients ≡ some c) × (user_of w c ≡ some u)
    someone [] e h = absurd (h refl)
    someone ((c, d) ∷ rest) e h =
        let at : connection cm u c ≡ some d = rw (e, inner_map) (get-first c d rest) in
        let (same, known, is_u) = v.grouped u c d at in (c, known, is_u)

-- Revoking a client that the manager does not know panics.
pub remove_auth-unknown :
    (c : ℕ) (cm : ConnManager) (w : World)
    → (get c cm.clients ≡ none → remove_auth c cm w ≡ none)
      × ((d : ℕ)
          → get c cm.clients ≡ some d
          → (w.clients d).auth ≢ none
          → remove_auth c cm w ≢ none)
unfolding remove_auth
remove_auth-unknown c cm w = (λ h. rw (h, remove_auth), λ d h k. ground arith)
