-- ===== src/Room/Moves.antt =====
-- Join and Left: what they do to the two maps, and that they keep the invariant.
use eddwise.Base.{
  ℕ, Text, Text-discrete, text_key, nat_key, get, List, [], ◌∷◌, none, some, ◌≡◌, inl, inr, refl,
  ◌∙◌, ap, arith, ite, ℕ_discrete, if_pos, if_neg, Option-cases,
}
use eddwise.World.{World, Env}
use eddwise.Send.{already_in_room, not_in_room}
use eddwise.Send.Delivery.{
  SameHeap, SameHeap-refl, SameHeap-trans, send-SameHeap, broadcast-SameHeap,
}
use eddwise.Room.{
  RoomManager, enter, leave, room_clients, send_members, announce_join, announce_left, join, left,
}
use eddwise.Room.Views.{
  held, member, held-enter, member-enter, held-leave, member-leave, enter_keeps, leave_keeps,
}
use eddwise.Room.Managed.{IsManaged, IsManaged-SameHeap, enter-IsManaged, leave-IsManaged}

module _ (env : Env) (r c : ℕ) where
  send_members-SameHeap : (ds : List ℕ) (w : World) → SameHeap w (send_members env r c ds w)
  unfolding send_members
  send_members-SameHeap [] w = SameHeap-refl w
  send_members-SameHeap (d ∷ ds) w = elim (ℕ_discrete d c) [
    | yes p ↦ rw (if_pos _ p) (send_members-SameHeap ds w)
    | no p ↦
        rw (if_neg _ p) (SameHeap-trans (send-SameHeap env _ _ c w) (send_members-SameHeap ds _))
  ]

  announce_join-SameHeap : (ds : List ℕ) (w : World) → SameHeap w (announce_join env r c ds w)
  unfolding announce_join
  announce_join-SameHeap ds w =
      SameHeap-trans (broadcast-SameHeap env _ _ ds w) (send_members-SameHeap ds _)

  -- A client that is not in the room enters it, and the rest of Join only writes messages.
  pub join_absent :
      (w : World)
      → member w r c ≡ none
      → SameHeap (enter r c w) (join env r c w).0 × ((join env r c w).1 ≡ none)
  unfolding join
  join_absent w h = rw (h, join) (announce_join-SameHeap (room_clients env r (enter r c w)) _, refl)

  pub left_present :
      (w : World) {d : ℕ}
      → member w r c ≡ some d
      → SameHeap (leave r c w) (left env r c w).0 × ((left env r c w).1 ≡ none)
  unfolding left announce_left
  left_present w h = rw (h, left) (broadcast-SameHeap env _ _ _ _, refl)

  -- A second Join and a Left from outside are refused, and leave the world as it was.
  pub refused_moves :
      (w : World)
      → ((d : ℕ) → member w r c ≡ some d → join env r c w ≡ (w, some already_in_room))
        × (member w r c ≡ none → left env r c w ≡ (w, some not_in_room))
  unfolding join left
  refused_moves w = (λ d h. rw (h, join), λ h. rw (h, left))

  module _ {rm : RoomManager} (w : World) (v : IsManaged rm w) where
    pub join-IsManaged : get (w.rooms r).id rm.rooms ≡ some r → IsManaged rm (join env r c w).0
    join-IsManaged known = elim (Option-cases (member w r c)) [
      | inl new ↦ IsManaged-SameHeap (join_absent w new).0 (enter-IsManaged r c w v known new)
      | inr (d, old) ↦ rw ((refused_moves w).0 d old) v
    ]

    pub left-IsManaged : IsManaged rm (left env r c w).0
    left-IsManaged = elim (Option-cases (member w r c)) [
      | inl out ↦ rw ((refused_moves w).1 out) v
      | inr (d, inside) ↦
          IsManaged-SameHeap (left_present w inside).0
            (leave-IsManaged r c w v (inside ∙ ap some (v.lists r c d inside).0))
    ]

module _ (env : Env) (r c : ℕ) (w : World) where
  pub held-left :
      (d : ℕ) (k : Text) {x : ℕ}
      → member w r c ≡ some x
      → held (left env r c w).0 d k
        ≡ ite (ℕ_discrete c d) (ite (Text-discrete (w.rooms r).id k) none (held w c k)) (held w d k)
  held-left d k old = rw (left_present env r c w old).0.clients (held-leave r c w d k)

  pub id-left :
      (s : ℕ) {x : ℕ} → member w r c ≡ some x → ((left env r c w).0.rooms s).id ≡ (w.rooms s).id
  id-left s old = rw (left_present env r c w old).0.rooms (leave_keeps r c w s).0

  pub member-left :
      (s d : ℕ) {x : ℕ}
      → member w r c ≡ some x
      → member (left env r c w).0 s d
        ≡ ite (ℕ_discrete r s) (ite (ℕ_discrete c d) none (member w r d)) (member w s d)
  member-left s d old = rw (left_present env r c w old).0.rooms (member-leave r c w s d)

module _ (env : Env) (r c : ℕ) (w : World) where
  pub held-join :
      (d : ℕ) (k : Text)
      → member w r c ≡ none
      → held (join env r c w).0 d k
        ≡ ite
            (ℕ_discrete c d)
            (ite (Text-discrete (w.rooms r).id k) (some r) (held w c k))
            (held w d k)
  held-join d k new = rw (join_absent env r c w new).0.clients (held-enter r c w d k)

  pub member-join :
      (s d : ℕ)
      → member w r c ≡ none
      → member (join env r c w).0 s d
        ≡ ite (ℕ_discrete r s) (ite (ℕ_discrete c d) (some c) (member w r d)) (member w s d)
  member-join s d new = rw (join_absent env r c w new).0.rooms (member-enter r c w s d)

  id-join : member w r c ≡ none → ((join env r c w).0.rooms r).id ≡ (w.rooms r).id
  id-join new = rw (join_absent env r c w new).0.rooms (enter_keeps r c w r).0

  -- A client that is not in a room of the manager holds no room under its id.
  pub unheld :
      {rm : RoomManager}
      → IsManaged rm w
      → get (w.rooms r).id rm.rooms ≡ some r
      → member w r c ≡ none
      → held w c (w.rooms r).id ≡ none
  unheld v known new = elim (Option-cases (held w c (w.rooms r).id)) [
    | inl e ↦ e
    | inr (s, e) ↦ absurd (ground (arith, v.holds c (w.rooms r).id s e))
  ]

  -- A client that joins a room and leaves it again is in the rooms that it was in before, and so is
  -- every other client; neither call is refused.
  pub left-join :
      {rm : RoomManager}
      → IsManaged rm w
      → get (w.rooms r).id rm.rooms ≡ some r
      → member w r c ≡ none
      → let joined = join env r c w in
        let parted = left env r c joined.0 in
        (joined.1 ≡ none)
        × (parted.1 ≡ none)
        × ((s d : ℕ) → member parted.0 s d ≡ member w s d)
        × ((d : ℕ) (k : Text) → held parted.0 d k ≡ held w d k)
  left-join v known new =
      let w' = (join env r c w).0 in
      let inside : member w' r c ≡ some c = ground (arith, member-join r c new) in
      (
        (join_absent env r c w new).1,
        (left_present env r c w' inside).1,
        λ s d.
            ground
              (arith, member-left env r c w' s d inside, member-join s d new, member-join r d new),
        λ d k. ground (
          arith,
          held-left env r c w' d k inside,
          held-join d k new,
          held-join c k new,
          id-join new,
          unheld v known new,
        ),
      )
