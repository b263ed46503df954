-- ===== src/Codegen/Renames/Back.antt =====
-- Renaming the fields of a message and back.
use eddwise.Base.{
  Text, Text-discrete, text_key, Dict, get, get-insert, get-delete, insert, delete, At-get, get-At,
  At, here, there, Distinct, List, [], ◌∷◌, map, Option, none, some, ◌>>=◌, ◌≡◌, ◌≢◌, refl, sym, ap,
  subst, arith, Option-cases, inl, inr, ◌∙◌,
}
use eddwise.Design.{Fields}
use eddwise.Codegen.Events.{renamed}
use eddwise.Codegen.Renames.{swap, move_property, move_each, sent_fields, received_fields}

swap-At : (a b : Text) (ms : List (Text × Text)) → At (a, b) (map swap ms) → At (b, a) ms
swap-At a b [] m = elim m [ ]
swap-At a b ((x, y) ∷ ms) (here p) = here (cc)
swap-At a b ((x, y) ∷ ms) (there m) = there (swap-At a b ms m)

At-swap : (a b : Text) (ms : List (Text × Text)) → At (b, a) ms → At (a, b) (map swap ms)
At-swap a b [] m = elim m [ ]
At-swap a b ((x, y) ∷ ms) (here p) = here (cc)
At-swap a b ((x, y) ∷ ms) (there m) = there (At-swap a b ms m)

swap-swap : (ms : List (Text × Text)) → map swap (map swap ms) ≡ ms
swap-swap [] = refl
swap-swap ((x, y) ∷ ms) = ap (λ rest. (x, y) ∷ rest) (swap-swap ms)

module _ {V : Type 0} where
  -- The fields to be moved are there, and the places for them are free.
  abbrev pub IsMovable : List (Text × Text) → Dict Text V → Type 0
  IsMovable ms o = (from to : Text) → At (from, to) ms → (get from o ≢ none) × (get to o ≡ none)

  -- What a property is once all are moved.
  abbrev after : List (Text × Text) → Dict Text V → Text → Option V
  after ms o k = elim (get k (map swap ms)) [
    | some from ↦ get from o
    | none ↦ elim (get k ms) [ some to ↦ none | none ↦ get k o ]
  ]

  after-to :
      (from to : Text) (ms : List (Text × Text)) (o : Dict Text V)
      → Distinct (map swap ms)
      → At (from, to) ms
      → after ms o to ≡ get from o
  after-to from to ms o d m =
      let e = get-At to from (map swap ms) d (At-swap to from ms m) in rw (e, after) refl

  after-from :
      (from to : Text) (ms : List (Text × Text)) (o : Dict Text V)
      → IsMovable ms o
      → Distinct ms
      → At (from, to) ms
      → after ms o from ≡ none
  after-from from to ms o v d m = elim (Option-cases (get from (map swap ms))) [
    | inr (other, e) ↦ absurd (
        (v from to m).0
          (v other from (swap-At from other ms (At-get from other (map swap ms) e))).1)
    | inl e ↦ let f = get-At from to ms d m in rw (e, f, after) refl
  ]

  -- What is not there is not moved.
  unmoved :
      (k : Text) (ms : List (Text × Text)) (o : Dict Text V)
      → IsMovable ms o
      → get k o ≡ none
      → get k ms ≡ none
  unmoved k ms o h gone = elim (Option-cases (get k ms)) [
    | inl e ↦ e
    | inr (to, e) ↦ absurd ((h k to (At-get k to ms e)).0 gone)
  ]

  moved-get :
      (from to k : Text) (v : V) (o : Dict Text V)
      → from ≢ k
      → to ≢ k
      → get k (delete from (insert to v o)) ≡ get k o
  moved-get from to k v o p q =
      ground (arith, get-delete from k (insert to v o), get-insert to k v o)

  moved-IsMovable :
      (from to : Text) (v : V) (ms : List (Text × Text)) (o : Dict Text V)
      → IsMovable ((from, to) ∷ ms) o
      → Distinct ((from, to) ∷ ms)
      → Distinct (map swap ((from, to) ∷ ms))
      → IsMovable ms (delete from (insert to v o))
  moved-IsMovable from to v ms o h d e a b m =
      let first = h from to (here refl) in
      let next = h a b (there m) in
      let other : from ≢ a = λ p. let f = get-At a b ms d.1 m in cc in
      let place : to ≢ b = λ p. let f = get-At b a (map swap ms) e.1 (At-swap b a ms m) in cc in
      let kept : get a (delete from (insert to v o)) ≡ get a o =
        moved-get from to a v o other (λ p. next.0 (subst (λ x. get x o ≡ none) p first.1)) in
      let free : get b (delete from (insert to v o)) ≡ get b o =
        moved-get from to b v o (λ p. first.0 (subst (λ x. get x o ≡ none) (sym p) next.1)) place in
      (λ gone. next.0 (sym kept ∙ gone), free ∙ next.1)

  moved-after :
      (from to : Text) (v : V) (ms : List (Text × Text)) (o : Dict Text V)
      → IsMovable ((from, to) ∷ ms) o
      → Distinct ((from, to) ∷ ms)
      → Distinct (map swap ((from, to) ∷ ms))
      → get from o ≡ some v
      → (k : Text) → after ms (delete from (insert to v o)) k ≡ after ((from, to) ∷ ms) o k
  unfolding get
  moved-after from to v ms o h d e f k =
      let next = delete from (insert to v o) in
      let first = h from to (here refl) in
      let put = get-insert to k v o in
      let taken = get-delete from k (insert to v o) in
      elim (Text-discrete to k) [
        | yes p ↦
            let none_to : get k (map swap ms) ≡ none =
              subst (λ x. get x (map swap ms) ≡ none) p e.0 in
            let none_from : get k ms ≡ none =
              unmoved k ms o (λ a b m. h a b (there m)) (subst (λ x. get x o ≡ none) p first.1) in
            ground arith
        | no p ↦ elim (Option-cases (get k (map swap ms))) [
          | inr (a, q) ↦
              let m = swap-At k a ms (At-get k a (map swap ms) q) in
              let same : get a next ≡ get a o =
                moved-get from to a v o (λ s. let g = get-At a k ms d.1 m in cc)
                  (λ s. (h a k (there m)).0 (subst (λ x. get x o ≡ none) s first.1)) in
              ground arith
          | inl q ↦ ground arith
        ]
      ]

  move_each-lem :
      (ms : List (Text × Text)) (o : Dict Text V)
      → IsMovable ms o
      → Distinct ms
      → Distinct (map swap ms)
      → (o' : Dict Text V) × (move_each ms o ≡ some o') × ((k : Text) → get k o' ≡ after ms o k)
  unfolding move_each move_property get
  move_each-lem [] o h d e = (o, refl, λ k. refl)
  move_each-lem ((from, to) ∷ ms) o h d e = elim (Option-cases (get from o)) [
    | inl f ↦ absurd ((h from to (here refl)).0 f)
    | inr (v, f) ↦
        let next = delete from (insert to v o) in
        let once : move_property from to o ≡ some next = rw (f, move_property) refl in
        let (o', moved, each) =
          move_each-lem ms next (moved-IsMovable from to v ms o h d e) d.1 e.1 in
        (
          o',
          ap (λ x. x >>= move_each ms) once ∙ moved,
          λ k. each k ∙ moved-after from to v ms o h d e f k,
        )
  ]

  returned :
      (ms : List (Text × Text)) (o sent : Dict Text V)
      → IsMovable ms o
      → Distinct ms
      → Distinct (map swap ms)
      → ((k : Text) → get k sent ≡ after ms o k)
      → (k : Text) → after (map swap ms) sent k ≡ get k o
  returned ms o sent h d e each k =
      let twice : get k (map swap (map swap ms)) ≡ get k ms = ap (get k) (swap-swap ms) in
      elim (Option-cases (get k ms)) [
        | inr (alias, q) ↦
            let m = At-get k alias ms q in
            let moved = each alias ∙ after-to k alias ms o e m in ground arith
        | inl q ↦ elim (Option-cases (get k (map swap ms))) [
          | inr (name, p) ↦
              let gone = (h name k (swap-At k name ms (At-get k name (map swap ms) p))).1 in
              ground arith
          | inl p ↦ let kept = each k in ground arith
        ]
      ]

  -- In a message that has every field with an alias and none of the aliases, whose fields have distinct
  -- names and distinct aliases, a sender of the generated client puts each of these fields under its
  -- alias, a handler puts them back, neither throws, and in the end every property is what it was.
  pub received_fields-sent_fields :
      (fs : Fields) (o : Dict Text V)
      → ((name alias : Text)
          → At (name, alias) (renamed fs)
          → (get name o ≢ none) × (get alias o ≡ none))
      → Distinct (renamed fs)
      → Distinct (map swap (renamed fs))
      → (sent back : Dict Text V) × (sent_fields fs o ≡ some sent)
        × ((name alias : Text)
            → At (name, alias) (renamed fs)
            → (get alias sent ≡ get name o) × (get name sent ≡ none))
        × (received_fields fs sent ≡ some back)
        × ((k : Text) → get k back ≡ get k o)
  unfolding sent_fields received_fields
  received_fields-sent_fields fs o h d e =
      let ms = renamed fs in
      let (sent, ran, each) = move_each-lem ms o h d e in
      let places : (name alias : Text)
          → At (name, alias) ms
          → (get alias sent ≡ get name o) × (get name sent ≡ none) =
        λ name alias m. (
          each alias ∙ after-to name alias ms o e m,
          each name ∙ after-from name alias ms o h d m,
        ) in
      let movable : IsMovable (map swap ms) sent = λ alias name m.
        let at = swap-At alias name ms m in
        let (there_now, gone) = places name alias at in
        (λ missing. (h name alias at).0 (sym there_now ∙ missing), gone) in
      let (back, again, all) =
        move_each-lem (map swap ms) sent movable e (subst Distinct (sym (swap-swap ms)) d) in
      (sent, back, ran, places, again, λ k. all k ∙ returned ms o sent h d e each k)
