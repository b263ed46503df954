-- ===== src/Room/Quit.antt =====
-- RoomClientQuit: a client that disconnects is in no room afterwards.
use mathlib.Core.List.{Mem, not-mem-nil, mem-cons, mem-cons_self, mem-cons_of_mem}
use mathlib.Core.List.Perm
use mathlib.Core.Logic.Or
use mathlib.Core.HLevel.{⊥_prop}
use eddwise.Base.{
  ℕ, Text, Text-discrete, text_key, nat_key, Dict, get, values, List, [], ◌∷◌, none, some, ◌≡◌, ◌≢◌,
  ◌∙◌, inl, inr, refl, arith, Option-cases,
}
use eddwise.World.{World, Env, IsFair, get_rooms}
use eddwise.Room.{RoomManager, left, leave_all, room_client_quit}
use eddwise.Room.Views.{held, member}
use eddwise.Room.Managed.{IsManaged}
use eddwise.Room.Moves.{left-IsManaged, held-left, refused_moves}

values-get : (k : Text) (m : Dict Text ℕ) {r : ℕ} → get k m ≡ some r → Mem r (values m)
unfolding get
values-get k [] h = cc
values-get k ((j, s) ∷ m) {r} h = elim (Text-discrete j k) [
  | yes p ↦ let e : s ≡ r = ground arith in rw e mem-cons_self
  | no p ↦ mem-cons_of_mem s (values-get k m (ground arith))
]

module _ (env : Env) (c : ℕ) where
  others_left : (r d : ℕ) (k : Text) (w : World) → d ≢ c → held (left env r c w).0 d k ≡ held w d k
  others_left r d k w h = elim (Option-cases (member w r c)) [
    | inl out ↦ ground (arith, (refused_moves env r c w).1 out)
    | inr (x, inside) ↦ ground (arith, held-left env r c w d k inside)
  ]

  leave_all_others :
      (rs : List ℕ) (d : ℕ) (k : Text) (w : World)
      → d ≢ c
      → held (leave_all env c rs w) d k ≡ held w d k
  unfolding leave_all
  leave_all_others [] d k w h = refl
  leave_all_others (r ∷ rs) d k w h = leave_all_others rs d k _ h ∙ others_left r d k w h

module _ (env : Env) {rm : RoomManager} (c : ℕ) where
  -- What a client holds after one Left it held before, and it is another room.
  left_lost :
      (r s : ℕ) (k : Text) (w : World)
      → IsManaged rm w
      → held (left env r c w).0 c k ≡ some s
      → (held w c k ≡ some s) × (s ≢ r)
  left_lost r s k w v h = elim (Option-cases (member w r c)) [
    | inl out ↦ ground (arith, (refused_moves env r c w).1 out, v.holds c k s)
    | inr (x, inside) ↦ ground (arith, held-left env r c w c k inside, v.holds c k s, v.filed k s)
  ]

  leave_all-IsManaged :
      (rs : List ℕ) (w : World) → IsManaged rm w → IsManaged rm (leave_all env c rs w)
  unfolding leave_all
  leave_all-IsManaged [] w v = v
  leave_all-IsManaged (r ∷ rs) w v = leave_all-IsManaged rs _ (left-IsManaged env r c w v)

  pub room_client_quit-IsManaged :
      (w : World) → IsManaged rm w → IsManaged rm (room_client_quit env c w)
  unfolding room_client_quit
  room_client_quit-IsManaged w v = leave_all-IsManaged (get_rooms env c w) w v

  leave_all_lost :
      (rs : List ℕ) (s : ℕ) (k : Text) (w : World)
      → IsManaged rm w
      → held (leave_all env c rs w) c k ≡ some s
      → (held w c k ≡ some s) × (¬ Mem s rs)
  unfolding leave_all
  leave_all_lost [] s k w v h = (h, not-mem-nil)
  leave_all_lost (r ∷ rs) s k w v h =
      let (later, absent) = leave_all_lost rs s k _ (left-IsManaged env r c w v) h in
      let (before, other) = left_lost r s k w v later in
      (before, λ m. Or.elim ⊥_prop (mem-cons.0 m) (λ e. other e) absent)

  -- After RoomClientQuit the client holds no room and no room lists it, whatever the order in which
  -- its rooms were visited; every other client holds the rooms that it held; and the maps agree.
  pub room_client_quit_lem :
      (w : World)
      → IsFair env
      → IsManaged rm w
      → let w' = room_client_quit env c w in
        ((k : Text) → held w' c k ≡ none)
        × ((r : ℕ) → member w' r c ≡ none)
        × ((d : ℕ) (k : Text) → d ≢ c → held w' d k ≡ held w d k)
        × IsManaged rm w'
  unfolding room_client_quit get_rooms
  room_client_quit_lem w fair v =
      let rs = get_rooms env c w in
      let v' = leave_all-IsManaged rs w v in
      (none_held, none_listed, λ d k. leave_all_others env c rs d k w, v')
    where
      none_held : (k : Text) → held (room_client_quit env c w) c k ≡ none
      none_held k = elim (Option-cases (held (room_client_quit env c w) c k)) [
        | inl e ↦ e
        | inr (s, e) ↦
            let (before, absent) = leave_all_lost (get_rooms env c w) s k w v e in
            absurd (
              absent (
                (Perm.mem_iff (fair ℕ (values (w.clients c).rooms))).1
                  (values-get k (w.clients c).rooms before)))
      ]

      none_listed : (r : ℕ) → member (room_client_quit env c w) r c ≡ none
      none_listed r = elim (Option-cases (member (room_client_quit env c w) r c)) [
        | inl e ↦ e
        | inr (s, e) ↦
            let v' = leave_all-IsManaged (get_rooms env c w) w v in
            ground (arith, v'.lists r c s e, none_held ((room_client_quit env c w).rooms r).id)
      ]
