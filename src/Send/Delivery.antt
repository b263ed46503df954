-- ===== src/Send/Delivery.antt =====
-- What Send and Broadcast write, and to whom.
use mathlib.Core.Bool.{Bool-discrete, Bool-set}
use mathlib.Core.Logic.Or
use mathlib.Core.List.{filter, Perm, Mem, not-mem-nil, mem-cons, mem-cons_self, mem-cons_of_mem}
use mathlib.Core.List.Perm
use eddwise.Base.{
  ℕ, Text, List, [], ◌∷◌, ◌++◌, map, append-nil, append_assoc, Option, none, some, Bool, true,
  false, not, ◌&&◌, ◌≡◌, inl, inr, ◌↔◌, refl, sym, ◌∙◌, ap, arith, Option-cases, Bool-cases,
  if◌then◌else◌,
}
use eddwise.Event.{Event, check_send_fields}
use eddwise.World.{World, Env, Packet, IsFair}
use eddwise.Send.{
  SendError, closed_client, cannot_encode, write_failed, send_error, invalid_field, message,
  frame_of, send, send_each, summary, broadcast,
}

abbrev is_some {ℓ} : {A : Type ℓ} → Option A → Bool
is_some none = false
is_some (some a) = true

-- Writing to connections changes no client and no room.
pub record SameHeap (w w' : World) : Type 0 where
  pub clients : w'.clients ≡ w.clients
  pub rooms : w'.rooms ≡ w.rooms
  pub next_room : w'.next_room ≡ w.next_room

pub SameHeap-refl : (w : World) → SameHeap w w
SameHeap-refl w = record { clients = refl; rooms = refl; next_room = refl }

pub SameHeap-trans : {u v w : World} → SameHeap u v → SameHeap v w → SameHeap u w
SameHeap-trans p q = record {
  clients = q.clients ∙ p.clients;
  rooms = q.rooms ∙ p.rooms;
  next_room = q.next_room ∙ p.next_room;
}

module _ (env : Env) (ch : Text) (ev : Event) where
  pub send-SameHeap : (c : ℕ) (w : World) → SameHeap w (send env c ch ev w).0
  unfolding send
  send-SameHeap c w =
      ground (arith, Option-cases (check_send_fields ev), Option-cases (env.encode (message ch ev)))

  send_each-SameHeap : (cs : List ℕ) (w : World) → SameHeap w (send_each env ch ev cs w).0
  unfolding send_each
  send_each-SameHeap [] w = SameHeap-refl w
  send_each-SameHeap (c ∷ cs) w =
      SameHeap-trans (send-SameHeap c w) (send_each-SameHeap cs (send env c ch ev w).0)

  summary-world : (r : World × List SendError) → (summary env r).0 ≡ r.0
  unfolding summary
  summary-world (w, []) = refl
  summary-world (w, e ∷ es) = refl

  pub broadcast-SameHeap : (cs : List ℕ) (w : World) → SameHeap w (broadcast env ch ev cs w).0
  unfolding broadcast
  broadcast-SameHeap cs w = elim (Option-cases (check_send_fields ev)) [
    | inl e ↦ rw (e, summary-world) (send_each-SameHeap (env.order ℕ cs) w)
    | inr (x, e) ↦ rw e (SameHeap-refl w)
  ]

module _ (env : Env) (ch : Text) (ev : Event) where
  pub writes : ℕ → Option Text → Bool
  writes c none = false
  writes c (some bytes) = env.write_message c bytes

  -- The connection takes the message: it is open, the codec encodes it, the write succeeds.
  unfoldable pub reaches : World → ℕ → Bool
  unfolding writes
  reaches w c = not (w.clients c).closed && writes c (env.encode (message ch ev))

  pub packet : ℕ → Packet
  packet c = record { client = c; frame = frame_of env.handle; message = message ch ev }

  unfoldable pub reached : World → List ℕ → List ℕ
  reached w cs = filter (λ c. Bool-discrete (reaches w c) true) cs

  -- The world after the message was written to these clients.
  abbrev pub delivered : List ℕ → World → World
  delivered cs w = record w { sent = w.sent ++ map packet cs }

  pub send_open :
      (c : ℕ) (w : World)
      → check_send_fields ev ≡ none
      → reaches w c ≡ true
      → send env c ch ev w ≡ (delivered (c ∷ []) w, none)
  unfolding reaches packet send
  send_open c w valid h = ground (arith, Option-cases (env.encode (message ch ev)))

  -- Why a message does not reach a client.
  pub refusal : World → ℕ → SendError
  refusal w c =
      if (w.clients c).closed
      then closed_client
      else if is_some (env.encode (message ch ev))
      then write_failed
      else cannot_encode

  send_shut :
      (c : ℕ) (w : World)
      → check_send_fields ev ≡ none
      → reaches w c ≡ false
      → send env c ch ev w ≡ (w, some (refusal w c))
  unfolding reaches send refusal
  send_shut c w valid h = ground (arith, Option-cases (env.encode (message ch ev)))

  pub refused : World → List ℕ → List SendError
  unfolding refusal
  refused w cs = map (refusal w) (filter (λ c. Bool-discrete (reaches w c) false) cs)

  -- A loop of Sends writes to exactly the clients that can be reached, in the loop's order, and
  -- collects an error for each other one.
  send_each_lem :
      (cs : List ℕ) (w : World)
      → check_send_fields ev ≡ none
      → send_each env ch ev cs w ≡ (delivered (reached w cs) w, refused w cs)
  unfolding send_each reached refused reaches
  send_each_lem [] w valid = ap (λ s. (record w { sent = s }, [])) (sym (append-nil w.sent))
  send_each_lem (c ∷ cs) w valid = elim (Bool-cases (reaches w c)) [
    | inl open_ ↦
        rw (send_open c w valid open_, send_each_lem cs (delivered (c ∷ []) w) valid)
          (ground (arith, append_assoc w.sent (packet c ∷ []) (map packet (reached w cs))))
    | inr shut ↦ rw (send_shut c w valid shut, send_each_lem cs w valid) (ground arith)
  ]

  map-eq-nil {ℓ κ} : {A : Type ℓ} {B : Type κ} (f : A → B) (xs : List A) → map f xs ≡ [] → xs ≡ []
  map-eq-nil f [] h = refl
  map-eq-nil f (x ∷ xs) h = cc

  refused_none :
      (w : World) (xs : List ℕ) → refused w xs ≡ [] → (c : ℕ) → Mem c xs → reaches w c ≡ true
  unfolding refused
  refused_none w [] h c m = absurd (not-mem-nil m)
  refused_none w (x ∷ xs) h c m = elim (Bool-cases (reaches w x)) [
    | inl e ↦
        Or.elim (Bool-set (reaches w c) true) (mem-cons.0 m) (λ p. rw p e)
          (refused_none w xs (ground arith) c)
    | inr e ↦ absurd (ground arith)
  ]

  none_refused :
      (w : World) (xs : List ℕ) → ((c : ℕ) → Mem c xs → reaches w c ≡ true) → refused w xs ≡ []
  unfolding refused
  none_refused w [] h = refl
  none_refused w (x ∷ xs) h =
      let here_ = h x mem-cons_self in
      ground (arith, none_refused w xs (λ c m. h c (mem-cons_of_mem x m)))

  summary-none : (w : World) (es : List SendError) → ((summary env (w, es)).1 ≡ none) ↔ (es ≡ [])
  unfolding summary
  summary-none w [] = (λ _. refl, λ _. refl)
  summary-none w (e ∷ es) = (λ h. cc, λ h. cc)

  broadcast_valid :
      (cs : List ℕ) (w : World)
      → check_send_fields ev ≡ none
      → broadcast env ch ev cs w
        ≡ summary env (delivered (reached w (env.order ℕ cs)) w, refused w (env.order ℕ cs))
  unfolding broadcast
  broadcast_valid cs w valid = rw valid (ap (summary env) (send_each_lem (env.order ℕ cs) w valid))

  -- A broadcast of an event with valid fields writes the message once to each of the clients that
  -- can be reached and to no other, in an order of its own; nothing else of the world changes; and
  -- it reports an error exactly when some client could not be reached.
  pub broadcast-reached :
      (cs : List ℕ) (w : World)
      → IsFair env
      → check_send_fields ev ≡ none
      → (out : List Packet) × ((broadcast env ch ev cs w).0 ≡ record w { sent = w.sent ++ out })
        × Perm out (map packet (reached w cs))
        × (((broadcast env ch ev cs w).1 ≡ none) ↔ ((c : ℕ) → Mem c cs → reaches w c ≡ true))
  unfolding reached
  broadcast-reached cs w fair valid =
      let ordered = env.order ℕ cs in
      rw (broadcast_valid cs w valid) (
        map packet (reached w ordered),
        summary-world env ch ev _,
        Perm.map packet (Perm.filter (λ c. Bool-discrete (reaches w c) true) (fair ℕ cs)),
        (
          λ h c m.
              refused_none w ordered ((summary-none _ _).0 h) c ((Perm.mem_iff (fair ℕ cs)).1 m),
          λ h.
              (summary-none _ _).1
                (none_refused w ordered (λ c m. h c ((Perm.mem_iff (fair ℕ cs)).0 m))),
        ),
      )

  -- An event whose fields fail the sender's check is written to nobody, whether it is sent to one
  -- client or broadcast, and the sender gets the check's error.
  pub invalid-unsent :
      (c : ℕ) (cs : List ℕ) (w : World) (e : Text)
      → check_send_fields ev ≡ some e
      → (send env c ch ev w ≡ (w, some (invalid_field e)))
        × (broadcast env ch ev cs w ≡ (w, some (send_error (invalid_field e))))
  unfolding send broadcast
  invalid-unsent c cs w e h = (rw h, rw h)
