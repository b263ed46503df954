-- ===== src/Room/Limits.antt =====
-- How many rooms a client is in: the single-room mode, the limit, and the requests that heed them.
use mathlib.Core.List.{Perm, Mem, mem-cons_self, mem-cons, not-mem-nil}
use mathlib.Core.List
use mathlib.Core.List.Perm
use native.Mathlib.Bridge.{from_ℕ}
use mathlib.Core.Logic.Or
use native.Mathlib.Nat.{ℕ_set}
use eddwise.Base.{
  Key, ℕ, suc, ◌≤◌, ◌<◌, Text, Text-discrete, text_key, nat_key, Dict, get, values, insert, delete,
  delete_absent, List, [], ◌∷◌, none, some, true, false, ◌≡◌, ◌≢◌, ◌⊎◌, inl, inr, refl, sym, ◌∙◌,
  ap, subst, arith, ite, length, if_pos,
}
use eddwise.Event.{join_request}
use eddwise.World.{World, Env, IsFair, get_rooms}
use eddwise.Send.{limit_reached}
use eddwise.Room.{
  RoomManager, join, left, enter, has, find_room, leave_first, join_if_left, at_limit, join_known,
  on_join_request, on_room_event,
}
use eddwise.Room.Views.{held, member}
use eddwise.Room.Managed.{IsManaged}
use eddwise.Room.Moves.{
  held-join, held-left, member-left, join_absent, left_present, id-left, unheld,
}
use eddwise.Room.Requests.{filed_self}

insert_lem {ℓ} :
    {K V : Type ℓ} ⦃e : Key K⦄ (k : K) (v : V) (m : Dict K V) → insert k v m ≡ (k, v) ∷ delete k m
unfolding insert
insert_lem k v m = refl

length-native {ℓ} : {A : Type ℓ} (xs : List A) → length xs ≡ from_ℕ (List.length xs)
unfolding List.length
length-native [] = refl
length-native (x ∷ xs) = ap suc (length-native xs)

length-values {ℓ} : {K V : Type ℓ} (m : Dict K V) → length (values m) ≡ length m
length-values [] = refl
length-values (e ∷ m) = ap suc (length-values m)

length-order :
    (env : Env) → IsFair env → (m : Dict Text ℕ) → length (env.order ℕ (values m)) ≡ length m
length-order env fair m =
    length-native _
    ∙ ap from_ℕ (Perm.length-eq (fair ℕ (values m)))
    ∙ sym (length-native _)
    ∙ length-values m

-- A range over at most one entry has one order.
perm-singleton : (xs : List ℕ) (x : ℕ) → Perm xs (x ∷ []) → xs ≡ x ∷ []
perm-singleton [] x p = sym (Perm.eq-nil (Perm.symm p))
perm-singleton (y ∷ ys) x p =
    let same : y ≡ x =
      Or.elim (ℕ_set y x) (mem-cons.0 ((Perm.mem_iff p).0 mem-cons_self)) (λ e. e)
        (λ m. absurd (not-mem-nil m)) in
    let rest : ys ≡ [] = Perm.eq-nil (Perm.cons_inv (subst (λ z. Perm (z ∷ ys) (x ∷ [])) same p)) in
    rw (same, rest) refl

at_most_one {ℓ} : {A : Type ℓ} (xs : List A) → length xs ≤ 1 → (xs ≡ []) ⊎ ((x : A) × (xs ≡ x ∷ []))
at_most_one [] h = inl refl
at_most_one (x ∷ []) h = inr (x, refl)
at_most_one (x ∷ y ∷ xs) h = absurd (omega arith)

order-nil : (env : Env) → IsFair env → env.order ℕ [] ≡ []
order-nil env fair = Perm.eq-nil (fair ℕ [])

order-singleton : (env : Env) (r : ℕ) → IsFair env → env.order ℕ (r ∷ []) ≡ r ∷ []
order-singleton env r fair = perm-singleton _ r (fair ℕ (r ∷ []))

module _ (w : World) (c : ℕ) where
  held_empty : (w.clients c).rooms ≡ [] → (j : Text) → held w c j ≡ none
  unfolding get
  held_empty empty j = rw empty

  held_one :
      {k : Text} {s : ℕ}
      → (w.clients c).rooms ≡ (k, s) ∷ []
      → (j : Text) → held w c j ≡ ite (Text-discrete k j) (some s) none
  unfolding get
  held_one one j = rw (one, get)

  held_one_self : {k : Text} {s : ℕ} → (w.clients c).rooms ≡ (k, s) ∷ [] → held w c k ≡ some s
  held_one_self {k} one = held_one one k ∙ if_pos (Text-discrete k k) refl _ _

module _ (env : Env) (rm : RoomManager) (c r : ℕ) (room : Text) (w : World) where
  -- Where the client held no room.
  single_from_none :
      IsFair env
      → IsManaged rm w
      → rm.multi_room_mode ≡ false
      → get room rm.rooms ≡ some r
      → member w r c ≡ none
      → (w.clients c).rooms ≡ []
      → on_join_request env rm c room w ≡ join env r c w
  unfolding on_join_request join_known join_if_left leave_first at_limit has find_room get_rooms
  single_from_none fair v single known new empty =
      let visited : get_rooms env c w ≡ [] =
        ap (λ m. env.order ℕ (values m)) empty ∙ order-nil env fair in
      ground arith

  single_from_one :
      (k : Text) (s : ℕ)
      → IsFair env
      → IsManaged rm w
      → rm.multi_room_mode ≡ false
      → get room rm.rooms ≡ some r
      → member w r c ≡ none
      → (w.clients c).rooms ≡ (k, s) ∷ []
      → on_join_request env rm c room w ≡ join env r c (left env s c w).0
  unfolding on_join_request join_known join_if_left leave_first at_limit has find_room get_rooms
  single_from_one k s fair v single known new one =
      let visited : get_rooms env c w ≡ s ∷ [] =
        ap (λ m. env.order ℕ (values m)) one ∙ order-singleton env s fair in
      let inside : member w s c ≡ some c = (v.holds c k s (held_one_self w c one)).1 in
      ground (arith, left_present env s c w inside)

  -- In the single-room mode, a client that is in one room at most and asks to join another room is
  -- let in and is then in that room alone; the rooms of the other clients stay as they were.
  pub join_request-single :
      (online : List ℕ)
      → IsFair env
      → IsManaged rm w
      → rm.multi_room_mode ≡ false
      → get room rm.rooms ≡ some r
      → member w r c ≡ none
      → length (w.clients c).rooms ≤ 1
      → let done = on_room_event env rm online c (join_request room) w in
        (done.2 ≡ none)
        × ((k : Text) → held done.1 c k ≡ ite (Text-discrete room k) (some r) none)
        × ((d : ℕ) (k : Text) → d ≢ c → held done.1 d k ≡ held w d k)
  unfolding on_room_event
  join_request-single online fair v single known new few =
      elim (at_most_one (w.clients c).rooms few) [
        | inl empty ↦ rw (single_from_none fair v single known new empty) (
          (join_absent env r c w new).1,
          λ k.
              ground
                (arith, held-join env r c w c k new, held_empty w c empty k, v.filed room r known),
          λ d k h. ground (arith, held-join env r c w d k new),
        )
        | inr ((k0, s), one) ↦
            let w' = (left env s c w).0 in
            let inside : member w s c ≡ some c = (v.holds c k0 s (held_one_self w c one)).1 in
            let new' : member w' r c ≡ none = ground (arith, member-left env s c w r c inside) in
            let same : (w'.rooms r).id ≡ (w.rooms r).id = id-left env s c w r inside in
            rw (single_from_one k0 s fair v single known new one) (
              (join_absent env r c w' new').1,
              λ k. ground (
                arith,
                held-join env r c w' c k new',
                held-left env s c w c k inside,
                held_one w c one k,
                v.filed room r known,
                same,
                v.holds c k0 s (held_one_self w c one),
                v.filed k0 s,
              ),
              λ d k h.
                  ground (arith, held-join env r c w' d k new', held-left env s c w d k inside),
            )
      ]

  rooms-join :
      {rm : RoomManager}
      → IsManaged rm w
      → get (w.rooms r).id rm.rooms ≡ some r
      → member w r c ≡ none
      → length ((join env r c w).0.clients c).rooms ≡ suc (length (w.clients c).rooms)
  unfolding enter
  rooms-join v known new = rw (join_absent env r c w new).0.clients (
      ground (
        arith,
        delete_absent (w.rooms r).id (w.clients c).rooms,
        unheld env r c w v known new,
        insert_lem (w.rooms r).id r (w.clients c).rooms,
      ))

  -- In the multi-room mode with a limit, a client that asks to join a known room which it is not in
  -- is let in exactly if it is in fewer rooms than the limit, and is then in one more; otherwise it
  -- is told that the limit is reached and nothing changes.
  pub join_request-limit :
      (online : List ℕ)
      → IsFair env
      → IsManaged rm w
      → rm.multi_room_mode ≡ true
      → 0 < rm.multi_room_limit_per_user
      → get room rm.rooms ≡ some r
      → member w r c ≡ none
      → let done = on_room_event env rm online c (join_request room) w in
        (length (w.clients c).rooms < rm.multi_room_limit_per_user
          → (done.2 ≡ none) × (length (done.1.clients c).rooms ≡ suc (length (w.clients c).rooms)))
        × (rm.multi_room_limit_per_user ≤ length (w.clients c).rooms
            → done ≡ (rm, w, some limit_reached))
  unfolding on_room_event on_join_request join_known at_limit has find_room get_rooms
  join_request-limit online fair v multi positive known new =
      let count : length (get_rooms env c w) ≡ length (w.clients c).rooms =
        length-order env fair (w.clients c).rooms in
      (
        λ few.
            let inside : on_join_request env rm c room w ≡ join env r c w = ground (arith, count) in
            rw inside ((join_absent env r c w new).1, rooms-join v (filed_self room r v known) new),
        λ many. ground (arith, count),
      )
