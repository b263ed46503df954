-- ===== src/Design/Parsing/Ends.antt =====
-- ParseStruct ends on every tree of nodes.
use eddwise.Base.{
  Bool, true, false, ℕ, zero, suc, ◌<◌, ◌≤◌, List, [], ◌∷◌, Option, none, some, At, here, there,
  length, ◌≡◌, ◌≢◌, refl, subst, values, arith,
}
use eddwise.Design.{TypeWithAttributes}
use eddwise.Design.Members.{Field}
use eddwise.Design.Nodes.{NodeView, MapSlice, MapError, unmarshal_yaml}
use eddwise.Design.Nodes.Distinct.{odds, unmarshal_yaml_lem}
use eddwise.Design.Types.{ParsedType, parsed, bad_key, parse_field_string_type}
use eddwise.Design.Types.Readback.{parse_field_string_type-ends}
use eddwise.Design.Parsing.{
  Outcome, no_fuel, panicked, failed, done, ◌>>>◌, by_kind, typed, scalar_field, nested_field,
  parse_fields, fields_or_error, parse_struct_by, parse_field, parse_struct,
}

abbrev pub Ends : {A : Type 0} → Outcome A → Type 0
Ends no_fuel = ⊥
Ends panicked = ⊥
Ends (failed e) = Unit
Ends (done a) = Unit

pub bind-Ends :
    {A B : Type 0} (o : Outcome A) (f : A → Outcome B)
    → Ends o
    → ((a : A) → Ends (f a))
    → Ends (o >>> f)
bind-Ends no_fuel f h k = h
bind-Ends panicked f h k = h
bind-Ends (failed e) f h k = tt
bind-Ends (done a) f h k = k a

typed-Ends : (o : Option ParsedType) (f : TypeWithAttributes → Field) → o ≢ none → Ends (typed o f)
unfolding typed
typed-Ends none f h = h refl
typed-Ends (some (bad_key k)) f h = tt
typed-Ends (some (parsed t)) f h = tt

odds-At : {N : Type 0} (v : N) (content : List N) → At v (odds content) → At v content
odds-At v [] m = m
odds-At v (k ∷ []) m = elim m [ ]
odds-At v (k ∷ w ∷ rest) (here e) = there (here e)
odds-At v (k ∷ w ∷ rest) (there m) = there (there (odds-At v rest m))

by_kind-Ends :
    (scalar mapping : Bool) (a b : Outcome Field)
    → Ends a
    → Ends b
    → Ends (by_kind scalar mapping a b)
by_kind-Ends true mapping a b h k = h
by_kind-Ends false true a b h k = k
by_kind-Ends false false a b h k = tt

module _ {N : Type 0} (view : NodeView N) where
  scalar_field-Ends : (node : N) → Ends (scalar_field view node)
  unfolding scalar_field
  scalar_field-Ends node =
      let (r, e) =
        parse_field_string_type-ends (suc (length (view.value node))) (view.value node)
          (omega arith) in
      typed-Ends (parse_field_string_type (suc (length (view.value node))) (view.value node)) _
        (λ h. cc)

  parse_fields-Ends :
      (parse : N → Outcome Field) (ms : MapSlice N)
      → ((v : N) → At v (values ms) → Ends (parse v))
      → Ends (parse_fields view parse ms)
  unfolding parse_fields
  parse_fields-Ends parse [] h = tt
  parse_fields-Ends parse ((k, v) ∷ ms) h = bind-Ends (parse v) _ (h v (here refl)) (λ f.
      bind-Ends (parse_fields view parse ms) _ (parse_fields-Ends parse ms (λ w m. h w (there m)))
        (λ fs. tt))

  fields_or_error-Ends :
      (parse : N → Outcome Field) (r : MapSlice N × Option MapError)
      → (r.1 ≡ none → (v : N) → At v (values r.0) → Ends (parse v))
      → Ends (fields_or_error view parse r)
  fields_or_error-Ends parse (items, some e) h = tt
  fields_or_error-Ends parse (items, none) h = parse_fields-Ends parse items (h refl)

  parse_struct_by-Ends :
      (parse : N → Outcome Field) (node : N)
      → ((v : N) → At v (view.content node) → Ends (parse v))
      → Ends (parse_struct_by view parse node)
  unfolding parse_struct_by
  parse_struct_by-Ends parse node h =
      bind-Ends (fields_or_error view parse (unmarshal_yaml view node)) _
        (fields_or_error-Ends parse (unmarshal_yaml view node) (λ fine v m.
          let (d, ks, vs, even) = unmarshal_yaml_lem view node fine in
          h v (odds-At v (view.content node) (subst (At v) vs m))))
        (λ fs. tt)

  module _ (depth : N → ℕ) (down : (n c : N) → At c (view.content n) → depth c < depth n) where
    parse_field-Ends : (fuel : ℕ) (node : N) → depth node < fuel → Ends (parse_field view fuel node)
    unfolding parse_field
    parse_field-Ends zero node h = absurd (omega arith)
    parse_field-Ends (suc n) node h =
        let inner : Ends (parse_struct_by view (parse_field view n) node) =
          parse_struct_by-Ends (parse_field view n) node
            (λ v m. parse_field-Ends n v (omega (arith, down node v m))) in
        by_kind-Ends (view.is_scalar node) (view.is_mapping node) (scalar_field view node) _
          (scalar_field-Ends node)
          (bind-Ends (parse_struct_by view (parse_field view n) node) (nested_field view node) inner
            (λ s. tt))

    -- With more fuel than the depth of a node, whose children are less deep than itself, ParseStruct ends
    -- with a struct or an error, and without a panic.
    pub parse_struct-ends :
        (fuel : ℕ) (node : N)
        → depth node ≤ fuel
        → (parse_struct view fuel node ≢ no_fuel) × (parse_struct view fuel node ≢ panicked)
    unfolding parse_struct
    parse_struct-ends fuel node h =
        let ends : Ends (parse_struct view fuel node) =
          parse_struct_by-Ends (parse_field view fuel) node
            (λ v m. parse_field-Ends fuel v (omega (arith, down node v m))) in
        (λ e. subst Ends e ends, λ e. subst Ends e ends)
