-- ===== src/Design/Sort/Unique.antt =====
-- Maps with the same entries are sorted alike.
use eddwise.Base.{
  Text, text_key, Text-discrete, Dict, get, At-get, Distinct, [], ◌∷◌, some, false, All, All-at,
  ◌≡◌, refl, sym, ◌∙◌, subst, arith, Bool-cases, inl, inr,
}
use eddwise.Design.Sort.{text_lt, place, sort_by}
use eddwise.Design.Sort.Entries.{sorted-Distinct, get-sort_by}
use eddwise.Design.Sort.Order.{text_lt_asymm}

text_lt_irrefl : (s : Text) → text_lt s s ≡ false
unfolding text_lt
text_lt_irrefl [] = refl
text_lt_irrefl (x ∷ s) = ground (arith, text_lt_irrefl s)

text_le_trans : (s t u : Text) → text_lt t s ≡ false → text_lt u t ≡ false → text_lt u s ≡ false
unfolding text_lt
text_le_trans [] t u h k = refl
text_le_trans (x ∷ s) [] u h k = cc
text_le_trans (x ∷ s) (y ∷ t) [] h k = cc
text_le_trans (x ∷ s) (y ∷ t) (z ∷ u) h k = ground (arith, text_le_trans s t u)

text_le_antisymm : (s t : Text) → text_lt s t ≡ false → text_lt t s ≡ false → s ≡ t
unfolding text_lt
text_le_antisymm [] [] h k = refl
text_le_antisymm [] (y ∷ t) h k = cc
text_le_antisymm (x ∷ s) [] h k = cc
text_le_antisymm (x ∷ s) (y ∷ t) h k = ground (arith, text_le_antisymm s t)

module _ {V : Type 0} where
  abbrev key : Text × V → Text
  key e = e.0

  -- No key is before an earlier one.
  abbrev IsOrdered : Dict Text V → Type 0
  IsOrdered [] = Unit
  IsOrdered (e ∷ m) = All (λ f. text_lt (key f) (key e) ≡ false) m × IsOrdered m

  later-All :
      (a b : Text) (m : Dict Text V)
      → text_lt b a ≡ false
      → All (λ f. text_lt (key f) b ≡ false) m
      → All (λ f. text_lt (key f) a ≡ false) m
  later-All a b [] h k = tt
  later-All a b (f ∷ m) h k = (text_le_trans a b (key f) h k.0, later-All a b m h k.1)

  place-All :
      (a : Text) (e : Text × V) (m : Dict Text V)
      → text_lt (key e) a ≡ false
      → All (λ f. text_lt (key f) a ≡ false) m
      → All (λ f. text_lt (key f) a ≡ false) (place key e m)
  unfolding place
  place-All a e [] h k = (h, tt)
  place-All a e (f ∷ m) h k = elim (Bool-cases (text_lt (key f) (key e))) [
    | inl p ↦ rw (p, place) (k.0, place-All a e m h k.1)
    | inr p ↦ rw (p, place) (h, k)
  ]

  place-IsOrdered : (e : Text × V) (m : Dict Text V) → IsOrdered m → IsOrdered (place key e m)
  unfolding place
  place-IsOrdered e [] h = (tt, tt)
  place-IsOrdered e (f ∷ m) h = elim (Bool-cases (text_lt (key f) (key e))) [
    | inl p ↦
        rw (p, place)
          (place-All (key f) e m (text_lt_asymm (key f) (key e) p) h.0, place-IsOrdered e m h.1)
    | inr p ↦ rw (p, place) ((p, later-All (key e) (key f) m p h.0), h)
  ]

  sort_by-IsOrdered : (m : Dict Text V) → IsOrdered (sort_by key m)
  unfolding sort_by
  sort_by-IsOrdered [] = tt
  sort_by-IsOrdered (e ∷ m) = place-IsOrdered e (sort_by key m) (sort_by-IsOrdered m)

  -- The first key of an ordered map comes after none of its keys.
  key_first :
      (k : Text) (v : V) (m : Dict Text V) (j : Text) (w : V)
      → IsOrdered ((k, v) ∷ m)
      → get j ((k, v) ∷ m) ≡ some w
      → text_lt j k ≡ false
  unfolding get
  key_first k v m j w h g = elim (Text-discrete k j) [
    | yes p ↦ subst (λ x. text_lt x k ≡ false) p (text_lt_irrefl k)
    | no p ↦ All-at (λ f. text_lt (key f) k ≡ false) (j, w) m h.0 (At-get j w m (ground arith))
  ]

  get-head : (k : Text) (v : V) (m : Dict Text V) → get k ((k, v) ∷ m) ≡ some v
  unfolding get
  get-head k v m = ground arith

  tails-same :
      (k : Text) (v w : V) (m n : Dict Text V)
      → Distinct ((k, v) ∷ m)
      → Distinct ((k, w) ∷ n)
      → ((j : Text) → get j ((k, v) ∷ m) ≡ get j ((k, w) ∷ n))
      → (j : Text) → get j m ≡ get j n
  unfolding get
  tails-same k v w m n d e h j = let same = h j in ground (arith, d.0, e.0)

  ordered_unique :
      (m n : Dict Text V)
      → IsOrdered m
      → IsOrdered n
      → Distinct m
      → Distinct n
      → ((j : Text) → get j m ≡ get j n)
      → m ≡ n
  unfolding get
  ordered_unique [] [] p q d e h = refl
  ordered_unique [] ((j, w) ∷ n) p q d e h = let found = get-head j w n in let gone = h j in cc
  ordered_unique ((k, v) ∷ m) [] p q d e h = let found = get-head k v m in let gone = h k in cc
  ordered_unique ((k, v) ∷ m) ((j, w) ∷ n) p q d e h =
      let here_k = get-head k v m in
      let here_j = get-head j w n in
      let before = key_first k v m j w p (h j ∙ here_j) in
      let after = key_first j w n k v q (sym (h k) ∙ here_k) in
      let same : k ≡ j = text_le_antisymm k j after before in
      let e' : Distinct ((k, w) ∷ n) = subst (λ x. Distinct ((x, w) ∷ n)) (sym same) e in
      let h' : (i : Text) → get i ((k, v) ∷ m) ≡ get i ((k, w) ∷ n) =
        subst (λ x. (i : Text) → get i ((k, v) ∷ m) ≡ get i ((x, w) ∷ n)) (sym same) h in
      let tails = ordered_unique m n p.1 q.1 d.1 e.1 (tails-same k v w m n d e' h') in
      let heads : some v ≡ some w = sym here_k ∙ h' k ∙ get-head k w n in cc

  pub sort_by-same :
      (m n : Dict Text V)
      → Distinct m
      → Distinct n
      → ((j : Text) → get j m ≡ get j n)
      → sort_by (λ e. e.0) m ≡ sort_by (λ e. e.0) n
  sort_by-same m n d e h =
      ordered_unique (sort_by key m) (sort_by key n) (sort_by-IsOrdered m) (sort_by-IsOrdered n)
        (sorted-Distinct m d) (sorted-Distinct n e)
        (λ j. get-sort_by j m d ∙ h j ∙ sym (get-sort_by j n e))
