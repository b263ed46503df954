-- ===== src/Design/Nodes/Distinct.antt =====
-- What a mapping is read as.
use eddwise.Base.{
  ◌%◌, Text, text_key, Dict, get, insert, get-insert, get-insert_self, keys, values, Distinct, List,
  [], ◌∷◌, Option, none, Bool, true, ◌≡◌, ◌≢◌, refl, sym, ap, ◌∙◌, subst, map, arith, ℕ_discrete,
  length, Option-cases, Bool-cases, inl, inr,
}
use eddwise.Design.Nodes.{NodeView, MapError, MapSlice, items_of, unmarshal_yaml}

-- The nodes at the even and at the odd places.
abbrev pub evens : {N : Type 0} → List N → List N
evens [] = []
evens (k ∷ []) = []
evens (k ∷ v ∷ rest) = k ∷ evens rest

abbrev pub odds : {N : Type 0} → List N → List N
odds [] = []
odds (k ∷ []) = []
odds (k ∷ v ∷ rest) = v ∷ odds rest

module _ {N : Type 0} (view : NodeView N) where
  items_of-unseen :
      (content : List N) (unique : Dict Text Bool) (j : Text)
      → get j unique ≢ none
      → get j (items_of view content unique).0 ≡ none
  unfolding items_of get
  items_of-unseen [] unique j h = refl
  items_of-unseen (k ∷ []) unique j h = refl
  items_of-unseen (k ∷ v ∷ rest) unique j h = ground (
    arith,
    items_of-unseen rest (insert (view.value k) true unique) j,
    get-insert (view.value k) j true unique,
  )

  items_of-Distinct :
      (content : List N) (unique : Dict Text Bool) → Distinct (items_of view content unique).0
  unfolding items_of
  items_of-Distinct [] unique = tt
  items_of-Distinct (k ∷ []) unique = tt
  items_of-Distinct (k ∷ v ∷ rest) unique =
      let u : Dict Text Bool = insert (view.value k) true unique in
      let later = items_of-Distinct rest u in
      let unseen = items_of-unseen rest u (view.value k) in
      ground (arith, later, unseen, get-insert_self (view.value k) true unique)

  items_of-all :
      (content : List N) (unique : Dict Text Bool)
      → (items_of view content unique).1 ≡ none
      → (keys (items_of view content unique).0 ≡ map view.value (evens content))
        × (values (items_of view content unique).0 ≡ odds content)
  unfolding items_of
  items_of-all [] unique h = (refl, refl)
  items_of-all (k ∷ []) unique h = (refl, refl)
  items_of-all (k ∷ v ∷ rest) unique h = elim (Bool-cases (view.is_scalar k)) [
    | inr e ↦ absurd (ground arith)
    | inl e ↦ elim (Option-cases (get (view.value k) unique)) [
      | inr (b, f) ↦ absurd (ground arith)
      | inl f ↦
          let (ks, vs) = items_of-all rest (insert (view.value k) true unique) (ground arith) in
          (
            rw (e, f, items_of) (ap (λ x. view.value k ∷ x) ks),
            rw (e, f, items_of) (ap (λ x. v ∷ x) vs),
          )
    ]
  ]

  -- A mapping that is read without error is read in the order of the file, every key with the node
  -- after it, and no key stands twice.
  pub unmarshal_yaml_lem :
      (node : N)
      → (unmarshal_yaml view node).1 ≡ none
      → let ms = (unmarshal_yaml view node).0 in
        Distinct ms
        × (keys ms ≡ map view.value (evens (view.content node)))
        × (values ms ≡ odds (view.content node))
        × (length (view.content node) % 2 ≡ 0)
  unfolding unmarshal_yaml
  unmarshal_yaml_lem node h = elim (Bool-cases (view.is_mapping node)) [
    | inr e ↦ absurd (ground arith)
    | inl e ↦ elim (ℕ_discrete (length (view.content node) % 2) 0) [
      | no p ↦ absurd (ground arith)
      | yes p ↦
          let same : unmarshal_yaml view node ≡ items_of view (view.content node) [] =
            ground arith in
          let (ks, vs) =
            items_of-all (view.content node) []
              (sym (ap (λ (r : MapSlice N × Option MapError). r.1) same) ∙ h) in
          (
            subst (λ (r : MapSlice N × Option MapError). Distinct r.0) (sym same)
                (items_of-Distinct (view.content node) []),
            ap (λ (r : MapSlice N × Option MapError). keys r.0) same ∙ ks,
            ap (λ (r : MapSlice N × Option MapError). values r.0) same ∙ vs,
            p,
          )
    ]
  ]
