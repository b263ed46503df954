-- ===== src/Session/Handler/Clears.antt =====
-- What a connection leaves behind in the registry of clients.
use eddwise.Base.{
  ℕ, Text, text_key, nat_key, Dict, get, get-delete_self, keys, List, [], ◌∷◌, Option, none, some,
  Bool, true, false, ◌≡◌, refl, subst, arith, Option-cases, inl, inr, if◌then◌else◌,
}
use eddwise.World.{World, Env}
use eddwise.Send.{Error}
use eddwise.Conn.{ConnManager, remove_auth}
use eddwise.Server.{State, Channel, App, put_channel, remove_client, add_client}
use eddwise.Users.{on_left}
use eddwise.Session.{current, in_state, revoke_managed, revoke_channel, revoke_each, revoke_auth}
use eddwise.Session.Handler.{
  unregister, over_channels, quit_rooms, left_user, disconnect, ranged, join_user, list_rooms,
  read_loop, after_loop, serve,
}

-- The registry of clients is this one, where there is a result.
abbrev Kept : Dict ℕ ℕ → Option (State × Option Error) → Type 0
Kept m none = Unit
Kept m (some (st, e)) = st.server.clients ≡ m

in_state-Kept :
    (st : State) (r : Option (World × Option Error)) → Kept st.server.clients (in_state st r)
in_state-Kept st none = tt
in_state-Kept st (some (w, e)) = refl

module _ (env : Env) (c : ℕ) where
  revoke_managed-Kept :
      (ch : Channel) (st : State) (r : Option (ConnManager × Bool))
      → Kept st.server.clients (revoke_managed env ch c st r)
  unfolding revoke_managed put_channel
  revoke_managed-Kept ch st none = tt
  revoke_managed-Kept ch st (some (cm, true)) = refl
  revoke_managed-Kept ch st (some (cm, false)) = branch ch.user_join_left
    where
      ch' : Channel
      ch' = record ch { conn_manager = some cm }

      st' : State
      st' = put_channel ch' st

      branch :
          (b : Bool)
          → Kept st.server.clients (
              if b then in_state st' (on_left env ch' c st'.server st'.world) else some (st', none))
      branch true = in_state-Kept st' (on_left env ch' c st'.server st'.world)
      branch false = refl

  revoke_channel-Kept :
      (st : State) (o : Option Channel) → Kept st.server.clients (revoke_channel env c st o)
  unfolding revoke_channel
  revoke_channel-Kept st none = refl
  revoke_channel-Kept st (some ch) = elim (Option-cases ch.conn_manager) [
    | inl e ↦ rw e refl
    | inr (cm, e) ↦ rw e (revoke_managed-Kept ch st (remove_auth c cm st.world))
  ]

  next_round :
      (ks : List Text) (m : Dict ℕ ℕ) (r : Option (State × Option Error))
      → ((st : State) → Kept st.server.clients (revoke_each env c ks st))
      → Kept m r
      → Kept m (elim r [
        | none ↦ none
        | some (st', some e) ↦ some (st', some e)
        | some (st', none) ↦ revoke_each env c ks st'
      ])
  next_round ks m none rest h = tt
  next_round ks m (some (st, some e)) rest h = h
  next_round ks m (some (st, none)) rest h =
      subst (λ x. Kept x (revoke_each env c ks st)) h (rest st)

  revoke_each-Kept :
      (ks : List Text) (st : State) → Kept st.server.clients (revoke_each env c ks st)
  unfolding revoke_each
  revoke_each-Kept [] st = refl
  revoke_each-Kept (k ∷ ks) st =
      next_round ks st.server.clients (revoke_channel env c st (current k st)) (revoke_each-Kept ks)
        (revoke_channel-Kept st (current k st))

  revoke_auth-clients :
      (st st' : State) (e : Option Error)
      → revoke_auth env c st ≡ some (st', e)
      → st'.server.clients ≡ st.server.clients
  unfolding revoke_auth
  revoke_auth-clients st st' e h =
      subst (Kept st.server.clients) h
        (revoke_each-Kept (env.order Text (keys st.server.registered_channels)) st)

  module _ (app : App) where
    dropped :
        (st st' : State) (r : Option (State × Option Error))
        → Kept st.server.clients r
        → (elim r [ none ↦ none | some (st'', e) ↦ some st'' ]) ≡ some st'
        → st'.server.clients ≡ st.server.clients
    dropped st st' none kept h = cc
    dropped st st' (some (st'', e)) kept h = cc

    unregister-clients :
        (st st' : State)
        → unregister env c app st ≡ some st'
        → st'.server.clients ≡ (remove_client c st.server).clients
    unfolding unregister revoke_auth
    unregister-clients st st' h =
        let st0 : State = record st { server = remove_client c st.server } in
        dropped st0 st' (revoke_auth env c st0)
          (revoke_each-Kept (env.order Text (keys st0.server.registered_channels)) st0) h

    unregister-gone :
        (st st' : State) → unregister env c app st ≡ some st' → get c st'.server.clients ≡ none
    unfolding remove_client
    unregister-gone st st' h =
        rw (unregister-clients st st' h) (get-delete_self c st.server.clients)

    -- The deferred calls end with the client out of the registry.
    after_loop-gone :
        (st st' : State) → after_loop env c app st ≡ some st' → get c st'.server.clients ≡ none
    unfolding after_loop
    after_loop-gone st st' h =
        elim (Option-cases (over_channels (quit_rooms env c) (ranged env c st) st)) [
          | inl e1 ↦ ground arith
          | inr (st1, e1) ↦
              elim (Option-cases (over_channels (left_user env c) (ranged env c st1) st1)) [
                | inl e2 ↦ ground arith
                | inr (st2, e2) ↦
                    elim (Option-cases
                      (over_channels (disconnect env c app) (ranged env c st2) st2)) [
                        | inl e3 ↦ ground arith
                        | inr (st3, e3) ↦ unregister-gone st3 st' (ground arith)
                      ]
              ]
        ]

    -- A connection that is accepted by every channel and served until its read fails has left the
    -- registry of clients when its handler returns, whatever the channels' methods did meanwhile.
    pub serve-unregistered :
        (inbox : List Text) (st st' : State)
        → serve env c app inbox st ≡ some st'
        → get c st'.server.clients ≡ none
    unfolding serve
    serve-unregistered inbox st st' h =
        let st0 : State = record st { server = add_client c st.server } in
        elim (Option-cases (over_channels (join_user env c) (ranged env c st0) st0)) [
          | inl e1 ↦ ground arith
          | inr (st1, e1) ↦
              elim (Option-cases (over_channels (list_rooms env c) (ranged env c st1) st1)) [
                | inl e2 ↦ ground arith
                | inr (st2, e2) ↦ after_loop-gone (read_loop env c app inbox st2) st' (ground arith)
              ]
        ]
