-- ===== src/Room/Views.antt =====
-- What the two maps hold after a client enters or leaves a room, or a room is made.
use eddwise.Base.{
  ℕ, Text, Text-discrete, text_key, nat_key, get, get-insert, get-delete, Distinct, insert-Distinct,
  delete-Distinct, Option, none, some, ◌≡◌, arith, ite, ℕ_discrete,
}
use eddwise.World.{World}
use eddwise.Room.{enter, leave}

-- The room that a client holds under an id, and the entry of a room's map for a client.
abbrev pub held : World → ℕ → Text → Option ℕ
held w c k = get k (w.clients c).rooms

abbrev pub member : World → ℕ → ℕ → Option ℕ
member w r c = get c (w.rooms r).clients_map

module _ (r c : ℕ) (w : World) where
  pub held-enter :
      (d : ℕ) (k : Text)
      → held (enter r c w) d k
        ≡ ite
            (ℕ_discrete c d)
            (ite (Text-discrete (w.rooms r).id k) (some r) (held w c k))
            (held w d k)
  unfolding enter
  held-enter d k = ground (arith, get-insert (w.rooms r).id k r (w.clients c).rooms)

  pub member-enter :
      (s d : ℕ)
      → member (enter r c w) s d
        ≡ ite (ℕ_discrete r s) (ite (ℕ_discrete c d) (some c) (member w r d)) (member w s d)
  unfolding enter
  member-enter s d = ground (arith, get-insert c d c (w.rooms r).clients_map)

  pub held-leave :
      (d : ℕ) (k : Text)
      → held (leave r c w) d k
        ≡ ite (ℕ_discrete c d) (ite (Text-discrete (w.rooms r).id k) none (held w c k)) (held w d k)
  unfolding leave
  held-leave d k = ground (arith, get-delete (w.rooms r).id k (w.clients c).rooms)

  pub member-leave :
      (s d : ℕ)
      → member (leave r c w) s d
        ≡ ite (ℕ_discrete r s) (ite (ℕ_discrete c d) none (member w r d)) (member w s d)
  unfolding leave
  member-leave s d = ground (arith, get-delete c d (w.rooms r).clients_map)

  -- What neither changes.
  pub enter_keeps :
      (s : ℕ)
      → (((enter r c w).rooms s).id ≡ (w.rooms s).id)
        × (((enter r c w).rooms s).ch ≡ (w.rooms s).ch)
        × (((enter r c w).rooms s).public ≡ (w.rooms s).public)
        × (((enter r c w).clients s).auth ≡ (w.clients s).auth)
        × (((enter r c w).clients s).closed ≡ (w.clients s).closed)
        × ((enter r c w).next_room ≡ w.next_room)
  unfolding enter
  enter_keeps s = ground arith

  pub leave_keeps :
      (s : ℕ)
      → (((leave r c w).rooms s).id ≡ (w.rooms s).id)
        × (((leave r c w).rooms s).ch ≡ (w.rooms s).ch)
        × (((leave r c w).rooms s).public ≡ (w.rooms s).public)
        × (((leave r c w).clients s).auth ≡ (w.clients s).auth)
        × (((leave r c w).clients s).closed ≡ (w.clients s).closed)
        × ((leave r c w).next_room ≡ w.next_room)
  unfolding leave
  leave_keeps s = ground arith

  pub enter-Distinct :
      (s : ℕ) → Distinct (w.rooms s).clients_map → Distinct ((enter r c w).rooms s).clients_map
  unfolding enter
  enter-Distinct s d = ground (arith, insert-Distinct c c (w.rooms s).clients_map d)

  pub enter-Distinct_rooms :
      (d : ℕ) → Distinct (w.clients d).rooms → Distinct ((enter r c w).clients d).rooms
  unfolding enter
  enter-Distinct_rooms d h = ground (arith, insert-Distinct (w.rooms r).id r (w.clients d).rooms h)

  pub leave-Distinct :
      (s : ℕ) → Distinct (w.rooms s).clients_map → Distinct ((leave r c w).rooms s).clients_map
  unfolding leave
  leave-Distinct s d = ground (arith, delete-Distinct c (w.rooms s).clients_map d)

  pub leave-Distinct_rooms :
      (d : ℕ) → Distinct (w.clients d).rooms → Distinct ((leave r c w).clients d).rooms
  unfolding leave
  leave-Distinct_rooms d h = ground (arith, delete-Distinct (w.rooms r).id (w.clients d).rooms h)
