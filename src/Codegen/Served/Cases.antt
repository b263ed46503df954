-- ===== src/Codegen/Served/Cases.antt =====
-- Which case of the generated Route a message gets to, and what CheckReceivedFields refuses.
use eddwise.Base.{
  Text, Text-discrete, text_key, get, get-At, At, here, there, ◌⊎◌, Bool, List, [], ◌∷◌, map,
  Option, none, some, true, false, All, ◌≡◌, refl, ◌∙◌, sym, subst, arith, Bool-cases, Option-cases,
  inl, inr, if_pos, if_neg,
}
use eddwise.Design.{client_to_server, Struct, DesignChannel}
use eddwise.Design.Directions.{enabled_map, get_direction_events}
use eddwise.Design.Directions.Sendable.{reverse_marks, get_direction_events_iff}
use eddwise.Design.Fill.{in_key_order}
use eddwise.Design.Names.{struct_protocol_alias}
use eddwise.Design.Sort.Entries.{At-sort_by}
use eddwise.Codegen.{events}
use eddwise.Codegen.Routing.{labelled, case_events}
use eddwise.Codegen.Routing.Agreed.{IsRouted, get_direction_events-Distinct}
use eddwise.Codegen.Served.{err_invalid_field, switch_case, check_received_fields}

-- The channel's struct for an event that clients may send.
abbrev pub Sendable : DesignChannel → Text → Struct → Type 0
Sendable ch ev s =
    (get ev (enabled_map ch) ≡ some s) × (get ev (reverse_marks client_to_server ch) ≡ none)

switch_case-At :
    (a ev : Text) (s : Struct) (es : List (Text × Struct))
    → switch_case a es ≡ some (ev, s)
    → At (ev, s) es × (struct_protocol_alias s ≡ a)
unfolding switch_case
switch_case-At a ev s [] h = cc
switch_case-At a ev s ((k, t) ∷ es) h = elim (Text-discrete (struct_protocol_alias t) a) [
  | yes p ↦
      let same : ◌≡◌ {A = Option (Text × Struct)} (some (k, t)) (some (ev, s)) =
        sym (if_pos _ p (some (k, t)) (switch_case a es)) ∙ h in
      let name : k ≡ ev = cc in
      let value : t ≡ s = cc in (here (cc), subst (λ x. struct_protocol_alias x ≡ a) value p)
  | no p ↦
      let (m, e) =
        switch_case-At a ev s es (sym (if_neg _ p (some (k, t)) (switch_case a es)) ∙ h) in
      (there m, e)
]

switch_case-none :
    (a : Text) (es : List (Text × Struct))
    → switch_case a es ≡ none
    → get a (map labelled es) ≡ none
unfolding switch_case get
switch_case-none a [] h = refl
switch_case-none a ((k, t) ∷ es) h = elim (Text-discrete (struct_protocol_alias t) a) [
  | yes p ↦ absurd (ground arith)
  | no p ↦ ground (arith, switch_case-none a es)
]

pub switch_case-Sendable :
    (ch : DesignChannel) (a ev : Text) (s : Struct)
    → switch_case a (events client_to_server ch) ≡ some (ev, s)
    → Sendable ch ev s × (struct_protocol_alias s ≡ a)
unfolding events in_key_order
switch_case-Sendable ch a ev s h =
    let sorted = events client_to_server ch in
    let (m, e) = switch_case-At a ev s sorted h in
    let entry = (At-sort_by (λ e. e.0) (ev, s) (get_direction_events client_to_server ch)).0 m in
    let found = get-At ev s _ (get_direction_events-Distinct client_to_server ch) entry in
    ((get_direction_events_iff client_to_server ch ev s).0 found, e)

pub switch_case-found :
    (ch : DesignChannel) (a ev : Text) (s : Struct)
    → IsRouted client_to_server ch
    → Sendable ch ev s
    → struct_protocol_alias s ≡ a
    → switch_case a (events client_to_server ch) ≡ some (ev, s)
unfolding case_events
switch_case-found ch a ev s (distinct, routed) (known, free) e =
    let found = (routed a ev).1 (s, known, free, e) in
    elim (Option-cases (switch_case a (events client_to_server ch))) [
      | inl none_there ↦
          let gone = switch_case-none a (events client_to_server ch) none_there in absurd (cc)
      | inr ((k, t), there_is) ↦
          let ((known_t, free_t), alias_t) = switch_case-Sendable ch a k t there_is in
          let again = (routed a k).1 (t, known_t, free_t, alias_t) in
          let name : some k ≡ some ev = sym again ∙ found in
          let key : k ≡ ev = cc in
          let value : some t ≡ some s =
            sym (subst (λ x. get x (enabled_map ch) ≡ some t) key known_t) ∙ known in
          there_is ∙ cc
    ]

-- Where CheckReceivedFields refuses, it is for a path that is not nil.
pub check_received_fields-cases :
    (s : Struct) (is_set : Text → Bool) (paths : List Text)
    → ((check_received_fields s is_set paths ≡ none) × All (λ p. is_set p ≡ false) paths)
      ⊎ ((path : Text) × At path paths
          × (is_set path ≡ true)
          × (check_received_fields s is_set paths ≡ some (err_invalid_field s path)))
unfolding check_received_fields
check_received_fields-cases s is_set [] = inl (refl, tt)
check_received_fields-cases s is_set (p ∷ ps) = elim (Bool-cases (is_set p)) [
  | inl e ↦ inr (p, here refl, e, rw (e, check_received_fields) refl)
  | inr e ↦ elim (check_received_fields-cases s is_set ps) [
    | inl (fine, unset) ↦ inl (rw (e, check_received_fields) fine, (e, unset))
    | inr (path, m, h, refused) ↦ inr (path, there m, h, rw (e, check_received_fields) refused)
  ]
]
