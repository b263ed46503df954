-- ===== src/Server/Registry.antt =====
-- Which clients the server lists, and that a channel keeps its alias.
use mathlib.Core.List.{
  Perm, Mem, filter, mem-filter, not-mem-nil, mem-cons, mem-cons_self, mem-cons_of_mem,
}
use mathlib.Core.List.Perm
use mathlib.Core.Logic.Or
use native.Mathlib.Nat.{ℕ_set}
use mathlib.Core.Bool.{Bool-discrete}
use mathlib.Core.Option
use eddwise.Base.{
  ℕ, Text, text_key, nat_key, Dict, get, insert, delete, get-insert, values, List, [], ◌∷◌, Option,
  none, some, false, sym, ◌≡◌, ◌≢◌, ◌↔◌, ◌⊎◌, inl, inr, refl, arith, ℕ_discrete, Option-cases,
}
use eddwise.World.{Env, IsFair}
use eddwise.Send.{Error, already_registered}
use eddwise.Conn.{contains_id}
use eddwise.Server.{
  Server, State, Channel, App, add_client, remove_client, without, get_clients, init_managers,
  put_channel, after_bind, register,
}

-- Each client stands under its own id.
abbrev pub Own : Dict ℕ ℕ → Type 0
Own [] = Unit
Own ((c, d) ∷ m) = (d ≡ c) × Own m

delete-Own : (c : ℕ) (m : Dict ℕ ℕ) → Own m → Own (delete c m)
unfolding delete
delete-Own c [] o = tt
delete-Own c ((k, d) ∷ m) o = ground (arith, delete-Own c m o.1)

pub add_client-Own : (c : ℕ) (s : Server) → Own s.clients → Own (add_client c s).clients
unfolding add_client insert
add_client-Own c s o = (refl, delete-Own c s.clients o)

pub remove_client-Own : (c : ℕ) (s : Server) → Own s.clients → Own (remove_client c s).clients
unfolding remove_client
remove_client-Own c s o = delete-Own c s.clients o

get-mem_values : (c d : ℕ) (m : Dict ℕ ℕ) → get c m ≡ some d → Mem d (values m)
unfolding get
get-mem_values c d [] h = cc
get-mem_values c d ((k, e) ∷ m) h = elim (ℕ_discrete k c) [
  | yes p ↦ let same : e ≡ d = ground arith in rw same mem-cons_self
  | no p ↦ mem-cons_of_mem e (get-mem_values c d m (ground arith))
]

mem_values-get : (c : ℕ) (m : Dict ℕ ℕ) → Own m → Mem c (values m) → get c m ≡ some c
unfolding get
mem_values-get c [] o h = absurd (not-mem-nil h)
mem_values-get c ((k, e) ∷ m) o h =
    Or.elim (Option.is_set ℕ_set _ _) (mem-cons.0 h) (λ p. ground arith)
      (λ later. ground (arith, mem_values-get c m o.1 later))

without-filter :
    (exclude cs : List ℕ)
    → without exclude cs ≡ filter (λ c. Bool-discrete (contains_id exclude c) false) cs
unfolding without
without-filter exclude [] = refl
without-filter exclude (c ∷ cs) = ground (arith, without-filter exclude cs)

contains_id_iff : (xs : List ℕ) (c : ℕ) → (contains_id xs c ≡ false) ↔ (¬ Mem c xs)
unfolding contains_id
contains_id_iff [] c = (λ h. not-mem-nil, λ h. refl)
contains_id_iff (x ∷ xs) c = elim (ℕ_discrete x c) [
  | yes p ↦ (λ h. absurd (ground arith), λ h. absurd (h (rw p mem-cons_self)))
  | no p ↦ (
    λ h m.
        Or.elim (λ a b. absurd a) (mem-cons.0 m) (λ e. p (sym e))
          ((contains_id_iff xs c).0 (ground arith)),
    λ h. let rest = (contains_id_iff xs c).1 (λ m. h (mem-cons_of_mem x m)) in ground arith,
  )
]

get_clients-perm :
    (env : Env) (exclude : List ℕ) (s : Server)
    → IsFair env
    → Perm
        (get_clients env exclude s)
        (filter (λ c. Bool-discrete (contains_id exclude c) false) (values s.clients))
unfolding get_clients
get_clients-perm env exclude s fair =
    rw (without-filter exclude (env.order ℕ (values s.clients)))
      (Perm.filter (λ c. Bool-discrete (contains_id exclude c) false) (fair ℕ (values s.clients)))

-- In a registry that holds each client under its own id, GetClients lists exactly the clients that
-- stand there and are not excluded, if the range over the map visits each entry once, in whatever
-- order; and adding or removing a client keeps each client under its own id.
pub get_clients-mem :
    (env : Env) (exclude : List ℕ) (c : ℕ) (s : Server)
    → IsFair env
    → Own s.clients
    → (Mem c (get_clients env exclude s) ↔ ((get c s.clients ≡ some c) × (¬ Mem c exclude)))
      × Own (add_client c s).clients
      × Own (remove_client c s).clients
get_clients-mem env exclude c s fair own = (
  (
    λ m.
        let (listed, kept) =
          (mem-filter _).0 ((Perm.mem_iff (get_clients-perm env exclude s fair)).0 m) in
        (mem_values-get c s.clients own listed, (contains_id_iff exclude c).0 kept),
    λ (listed, kept). (Perm.mem_iff (get_clients-perm env exclude s fair)).1 (
        (mem-filter _).1 (get-mem_values c c s.clients listed, (contains_id_iff exclude c).1 kept)),
  ),
  add_client-Own c s own,
  remove_client-Own c s own,
)

after_bind-keeps :
    (app : App) (ch old : Channel) (k : Text) (r : State × Option Error)
    → ((b : State) → (app.set_receiver ch.alias b).0.server ≡ b.server)
    → ch.alias ≢ k
    → get k r.0.server.registered_channels ≡ some old
    → get k (after_bind app ch r).0.server.registered_channels ≡ some old
unfolding after_bind put_channel init_managers
after_bind-keeps app ch old k (st, some e) receives other known = known
after_bind-keeps app ch old k (st, none) receives other known =
    rw (receives (put_channel (init_managers ch) st))
      (ground (arith, get-insert ch.alias k (init_managers ch) st.server.registered_channels))

-- Whatever another channel's Register does, a channel that stands under an alias stays there
-- unchanged: a second registration of the alias is refused with the server as it was, and one of
-- another alias leaves the entry alone, if the channel's own Bind and SetReceiver do.
pub register-keeps :
    (app : App) (ch old : Channel) (k : Text) (st : State)
    → ((b : State) → (app.bind ch.alias b).0.server ≡ b.server)
    → ((b : State) → (app.set_receiver ch.alias b).0.server ≡ b.server)
    → get k st.server.registered_channels ≡ some old
    → (get k (register app ch st).0.server.registered_channels ≡ some old)
      × ((ch.alias ≢ k) ⊎ (register app ch st ≡ (st, some (already_registered ch.name))))
unfolding register
register-keeps app ch old k st binds receives known =
    elim (Option-cases (get ch.alias st.server.registered_channels)) [
      | inl free ↦
          let other : ch.alias ≢ k = λ e. ground arith in
          (
            rw (free, register)
                (after_bind-keeps app ch old k (app.bind ch.alias st) receives other
                  (rw (binds st) known)),
            inl other,
          )
      | inr (x, taken) ↦ (rw (taken, register) known, inr (rw (taken, register) refl))
    ]
