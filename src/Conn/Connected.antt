-- ===== src/Conn/Connected.antt =====
-- The invariant of a ConnManager, and what setAuth and removeAuth do to it.
use eddwise.Base.{
  ℕ, Text, Text-discrete, text_key, nat_key, Dict, get, insert, delete, get-insert, get-insert_self,
  Distinct, insert-Distinct, delete_absent, [], Option, none, some, true, false, ◌≡◌, ◌≢◌, ◌↔◌, inl,
  inr, arith, ite, ℕ_discrete, Option-cases,
}
use eddwise.World.{World, Auth, set_raw_auth, set_client}
use eddwise.Conn.{ConnManager, inner_map, set_auth, is_user_connected}

-- The user that a client is authenticated as, and the entry for a client among a user's connections.
abbrev pub user_of : World → ℕ → Option Text
user_of w c = elim (w.clients c).auth [ none ↦ none | some a ↦ some a.id ]

abbrev pub connection : ConnManager → Text → ℕ → Option ℕ
connection cm u c = get c (inner_map u cm.user_connections)

pub record IsConnected (cm : ConnManager) (w : World) : Type 0 where
  -- A client of the manager is authenticated and stands among its user's connections.
  pub tracked :
      (c d : ℕ)
      → get c cm.clients ≡ some d
      → (u : Text) × (d ≡ c) × (user_of w c ≡ some u) × (connection cm u c ≡ some c)
  -- Whoever stands among a user's connections is a client of the manager and is that user.
  pub grouped :
      (u : Text) (c d : ℕ)
      → connection cm u c ≡ some d
      → (d ≡ c) × (get c cm.clients ≡ some c) × (user_of w c ≡ some u)
  -- No user is listed without a connection.
  pub nonempty :
      (u : Text) (inner : Dict ℕ ℕ)
      → get u cm.user_connections ≡ some inner
      → Distinct inner × (inner ≢ [])

inner_map-Distinct :
    {cm : ConnManager} {w : World} (u : Text)
    → IsConnected cm w
    → Distinct (inner_map u cm.user_connections)
inner_map-Distinct {cm} u v = elim (Option-cases (get u cm.user_connections)) [
  | inl e ↦ rw (e, inner_map) tt
  | inr (inner, e) ↦ rw (e, inner_map) (v.nonempty u inner e).0
]

module _ (c : ℕ) (a : Auth) (cm : ConnManager) (w : World) where
  connection-set_auth :
      (u : Text) (d : ℕ)
      → connection (set_auth c a cm w).0 u d
        ≡ ite
            (Text-discrete a.id u)
            (ite (ℕ_discrete c d) (some c) (connection cm a.id d))
            (connection cm u d)
  unfolding set_auth
  connection-set_auth u d = ground (
    arith,
    get-insert a.id u (insert c c (inner_map a.id cm.user_connections)) cm.user_connections,
    get-insert c d c (inner_map a.id cm.user_connections),
  )

  user_of-set_auth :
      (d : ℕ) → user_of (set_auth c a cm w).1 d ≡ ite (ℕ_discrete c d) (some a.id) (user_of w d)
  unfolding set_auth set_raw_auth set_client
  user_of-set_auth d = ground arith

  clients-set_auth :
      (d : ℕ)
      → get d (set_auth c a cm w).0.clients ≡ ite (ℕ_discrete c d) (some c) (get d cm.clients)
  unfolding set_auth
  clients-set_auth d = get-insert c d c cm.clients

  nonempty-set_auth :
      IsConnected cm w
      → (u : Text) (inner : Dict ℕ ℕ) → get u (set_auth c a cm w).0.user_connections ≡ some inner
      → Distinct inner × (inner ≢ [])
  unfolding set_auth insert
  nonempty-set_auth v u inner h = elim (Text-discrete a.id u) [
    | yes p ↦
        let e : insert c c (inner_map a.id cm.user_connections) ≡ inner = ground (
          arith,
          get-insert a.id u (insert c c (inner_map a.id cm.user_connections)) cm.user_connections,
        ) in
        rw (← e) (
          insert-Distinct c c (inner_map a.id cm.user_connections) (inner_map-Distinct a.id v),
          λ z. cc,
        )
    | no p ↦ v.nonempty u inner (
        ground (
          arith,
          get-insert a.id u (insert c c (inner_map a.id cm.user_connections)) cm.user_connections,
        ))
  ]

  pub set_auth-IsConnected :
      IsConnected cm w
      → get c cm.clients ≡ none
      → IsConnected (set_auth c a cm w).0 (set_auth c a cm w).1
  set_auth-IsConnected v new = record {
    tracked = λ d e h. elim (ℕ_discrete c d) [
      | yes p ↦ (
        a.id,
        ground (arith, clients-set_auth d),
        ground (arith, user_of-set_auth d),
        ground (arith, connection-set_auth a.id d),
      )
      | no p ↦
          let (u, same, is_user, listed) = v.tracked d e (ground (arith, clients-set_auth d)) in
          (u, same, ground (arith, user_of-set_auth d), ground (arith, connection-set_auth u d))
    ];
    grouped = λ u d e h. ground (
      arith,
      connection-set_auth u d,
      user_of-set_auth d,
      clients-set_auth d,
      v.grouped u d e,
      v.grouped a.id d e,
    );
    nonempty = nonempty-set_auth v;
  }

  unlisted : IsConnected cm w → get c cm.clients ≡ none → connection cm a.id c ≡ none
  unlisted v new = elim (Option-cases (connection cm a.id c)) [
    | inl e ↦ e
    | inr (d, e) ↦ absurd (ground (arith, v.grouped a.id c d e))
  ]

  first-set_auth :
      IsConnected cm w
      → get c cm.clients ≡ none
      → ((set_auth c a cm w).2 ≡ true) ↔ (is_user_connected a.id cm ≡ false)
  unfolding set_auth is_user_connected insert delete
  first-set_auth v new = elim (Option-cases (get a.id cm.user_connections)) [
    | inl e ↦ rw (e, inner_map, delete) (ground arith)
    | inr (inner, e) ↦
        let absent : get c inner ≡ none = ground (arith, unlisted v new) in
        ground (arith, delete_absent c inner absent, v.nonempty a.id inner e)
  ]

  -- Authenticating a client that the manager does not know yet keeps the invariant, adds exactly
  -- that client and that user's connection, and answers whether the user had no connection before.
  pub set_auth_lem :
      IsConnected cm w
      → get c cm.clients ≡ none
      → let done = set_auth c a cm w in
        IsConnected done.0 done.1
        × ((d : ℕ) → get d done.0.clients ≡ ite (ℕ_discrete c d) (some c) (get d cm.clients))
        × ((done.2 ≡ true) ↔ (is_user_connected a.id cm ≡ false))
        × (is_user_connected a.id done.0 ≡ true)
  unfolding set_auth is_user_connected insert
  set_auth_lem v new = (
    set_auth-IsConnected v new,
    clients-set_auth,
    first-set_auth v new,
    ground (
      arith,
      get-insert_self a.id (insert c c (inner_map a.id cm.user_connections)) cm.user_connections,
    ),
  )
