-- ===== src/Codegen/Routing/Agreed.antt =====
-- What Route and route do with the names that the generated senders write.
use eddwise.Base.{
  ℕ, Text, text_key, Dict, get, get-insert, At-get, get-At, At, here, there, Distinct, insert,
  delete, Text-discrete, insert-Distinct, delete-Distinct, List, [], ◌∷◌, Option, none, some, Bool,
  All, All-at, ◌≡◌, ◌↔◌, ◌⊎◌, inl, inr, subst, arith,
}
use eddwise.Design.{
  Direction, any, server_to_client, client_to_server, Struct, DesignChannel, struct_name,
}
use eddwise.Design.Directions.{enabled_each, enabled_map, delete_each, get_direction_events}
use eddwise.Design.Directions.Known.{Known}
use eddwise.Design.Directions.Sendable.{reverse_marks, get_direction_events_iff}
use eddwise.Design.Accept.Conditions.{MarksEnabled}
use eddwise.Design.Fill.{in_key_order}
use eddwise.Design.Merge.{Design, map_of_structs, structs_map}
use eddwise.Design.Names.{struct_protocol_alias}
use eddwise.Design.Nodes.{NodeView}
use eddwise.Design.Parsing.{done}
use eddwise.Design.Parsing.Files.{RawDesign, RawChannel, parse_yaml}
use eddwise.Design.Parsing.Sound.{by_alias, parse_yaml-IsSound, parse_yaml-mapped}
use eddwise.Codegen.{events}
use eddwise.Codegen.Routing.{labelled, case_events}
use eddwise.Design.Sort.Entries.{sort_by-Distinct, At-sort_by}
use eddwise.Codegen.Routing.Labels.{At-labelled, labelled-Distinct}

enabled_each-At :
    (k : Text) (s : Struct) (ss : List Struct) (m : Dict Text Struct)
    → get k (enabled_each ss m) ≡ some s
    → (At s ss × (struct_name s ≡ k)) ⊎ (get k m ≡ some s)
unfolding enabled_each
enabled_each-At k s [] m h = inr h
enabled_each-At k s (t ∷ ss) m h = elim (enabled_each-At k s ss (insert (struct_name t) t m) h) [
  | inl (at, e) ↦ inl (there at, e)
  | inr e ↦ elim (Text-discrete (struct_name t) k) [
    | yes p ↦
        let same : t ≡ s = ground (arith, get-insert (struct_name t) k t m) in inl (here same, cc)
    | no p ↦ inr (ground (arith, get-insert (struct_name t) k t m))
  ]
]

map_of_structs-At :
    (k : Text) (s : Struct) (ss : List Struct) (m : Dict Text Struct)
    → get k (map_of_structs ss m) ≡ some s
    → At s ss ⊎ (get k m ≡ some s)
unfolding map_of_structs
map_of_structs-At k s [] m h = inr h
map_of_structs-At k s (t ∷ ss) m h =
    elim (map_of_structs-At k s ss (insert (struct_name t) t m) h) [
      | inl at ↦ inl (there at)
      | inr e ↦ elim (Text-discrete (struct_name t) k) [
        | yes p ↦
            let same : t ≡ s = ground (arith, get-insert (struct_name t) k t m) in inl (here same)
        | no p ↦ inr (ground (arith, get-insert (struct_name t) k t m))
      ]
    ]

enabled_each-Distinct :
    (ss : List Struct) (m : Dict Text Struct) → Distinct m → Distinct (enabled_each ss m)
unfolding enabled_each
enabled_each-Distinct [] m d = d
enabled_each-Distinct (s ∷ ss) m d =
    enabled_each-Distinct ss (insert (struct_name s) s m) (insert-Distinct (struct_name s) s m d)

delete_each-Distinct :
    (marks : Dict Text Bool) (m : Dict Text Struct) → Distinct m → Distinct (delete_each marks m)
unfolding delete_each
delete_each-Distinct [] m d = d
delete_each-Distinct ((k, b) ∷ marks) m d =
    delete_each-Distinct marks (delete k m) (delete-Distinct k m d)

pub get_direction_events-Distinct :
    (direction : Direction) (ch : DesignChannel) → Distinct (get_direction_events direction ch)
unfolding get_direction_events enabled_map
get_direction_events-Distinct any ch =
    delete_each-Distinct ch.client_to_server (enabled_map ch)
      (enabled_each-Distinct ch.enabled [] tt)
get_direction_events-Distinct server_to_client ch =
    delete_each-Distinct ch.client_to_server (enabled_map ch)
      (enabled_each-Distinct ch.enabled [] tt)
get_direction_events-Distinct client_to_server ch =
    delete_each-Distinct ch.server_to_client (enabled_map ch)
      (enabled_each-Distinct ch.enabled [] tt)

At-by_alias :
    (s : Struct) (ss : List Struct) → At s ss → At (struct_protocol_alias s, s) (by_alias ss)
At-by_alias s [] m = elim m [ ]
At-by_alias s (t ∷ ss) (here p) = here (cc)
At-by_alias s (t ∷ ss) (there m) = there (At-by_alias s ss m)

-- The handlers of a channel: the labels do not repeat, and a name leads to the event that can be sent in
-- the direction and has that protocol alias.
abbrev pub IsRouted : Direction → DesignChannel → Type 0
IsRouted direction ch =
    Distinct (case_events direction ch)
    × ((a ev : Text)
        → (get a (case_events direction ch) ≡ some ev) ↔ (
            (s : Struct) × (get ev (enabled_map ch) ≡ some s)
            × (get ev (reverse_marks direction ch) ≡ none)
            × (struct_protocol_alias s ≡ a)))

module _ (ss : List Struct) (distinct : Distinct (by_alias ss)) (direction : Direction)
    (ch : DesignChannel) (known : Known (map_of_structs ss []) ch) where
  event-known :
      (ev : Text) (s : Struct)
      → At (ev, s) (get_direction_events direction ch)
      → (struct_name s ≡ ev) × (get (struct_protocol_alias s) (by_alias ss) ≡ some s)
  unfolding get enabled_map
  event-known ev s m =
      let found = get-At ev s _ (get_direction_events-Distinct direction ch) m in
      let (enabled, free) = (get_direction_events_iff direction ch ev s).0 found in
      elim (enabled_each-At ev s ch.enabled [] enabled) [
        | inr e ↦ cc
        | inl (at, named) ↦
            elim (map_of_structs-At (struct_name s) s ss [] (All-at _ s ch.enabled known at)) [
              | inr e ↦ cc
              | inl place ↦ (named, get-At _ s (by_alias ss) distinct (At-by_alias s ss place))
            ]
      ]

  case_events-Distinct : Distinct (case_events direction ch)
  unfolding case_events events in_key_order
  case_events-Distinct =
      sort_by-Distinct (λ e. e.0) labelled (get_direction_events direction ch)
        (labelled-Distinct (by_alias ss) (get_direction_events direction ch)
          (get_direction_events-Distinct direction ch) event-known)

  At-case_events :
      (a ev : Text)
      → At (a, ev) (case_events direction ch) ↔ (
          (s : Struct) × At (ev, s) (get_direction_events direction ch)
          × (struct_protocol_alias s ≡ a))
  unfolding case_events events in_key_order
  At-case_events a ev = (
    λ m.
        let (s, at, e) = (At-labelled a ev (events direction ch)).0 m in
        (s, (At-sort_by (λ e. e.0) (ev, s) (get_direction_events direction ch)).0 at, e),
    λ (s, at, e).
        (At-labelled a ev (events direction ch)).1
          (s, (At-sort_by (λ e. e.0) (ev, s) (get_direction_events direction ch)).1 at, e),
  )

  case_events-IsRouted : IsRouted direction ch
  case_events-IsRouted = (
    case_events-Distinct,
    λ a ev. (
      λ h.
          let (s, at, e) = (At-case_events a ev).0 (At-get a ev _ h) in
          let found = get-At ev s _ (get_direction_events-Distinct direction ch) at in
          let (enabled, free) = (get_direction_events_iff direction ch ev s).0 found in
          (s, enabled, free, e),
      λ (s, enabled, free, e).
          let found = (get_direction_events_iff direction ch ev s).1 (enabled, free) in
          get-At a ev _ case_events-Distinct ((At-case_events a ev).1 (s, At-get ev s _ found, e)),
    ),
  )

All-IsRouted :
    (m : Dict Text Struct) (direction : Direction) (ss : List Struct) (chs : List DesignChannel)
    → m ≡ map_of_structs ss []
    → Distinct (by_alias ss)
    → All (λ ch. MarksEnabled ch × Known m ch) chs
    → All (IsRouted direction) chs
All-IsRouted m direction ss [] e d h = tt
All-IsRouted m direction ss (ch ∷ chs) e d h = (
  case_events-IsRouted ss d direction ch (subst (λ x. Known x ch) e h.0.1),
  All-IsRouted m direction ss chs e d h.1,
)

-- What a channel of a design that is read from one file enables is a struct of the design.
pub parse_yaml-enabled :
    {N : Type 0} (view : NodeView N) (decode : N → Option (RawChannel N))
    (files : Text → Option (RawDesign N)) (fuel : ℕ) (path : Text) (d : Design) (ch : DesignChannel)
    (ev : Text) (s : Struct)
    → parse_yaml view decode files fuel path ≡ done d
    → At ch d.channels
    → get ev (enabled_map ch) ≡ some s
    → At s d.structs
unfolding get enabled_map
parse_yaml-enabled view decode files fuel path d ch ev s h at enabled =
    let (names, aliases, usable) = parse_yaml-IsSound view decode files fuel path d h in
    let (marks, known) = All-at _ ch d.channels usable at in
    let mapped = parse_yaml-mapped view decode files fuel path d h in
    elim (enabled_each-At ev s ch.enabled [] enabled) [
      | inr e ↦ cc
      | inl (m, named) ↦
          elim (map_of_structs-At (struct_name s) s d.structs []
            (subst (λ x. get (struct_name s) x ≡ some s) mapped (All-at _ s ch.enabled known m))) [
              | inr e ↦ cc
              | inl place ↦ place
            ]
    ]

-- In a channel of a design that is read from one file, the labels that the generated Route and route
-- have for the events of a direction do not repeat, and a name leads to the handler of an event exactly
-- if it is the protocol alias of the struct that the channel enables under the event's name and the
-- event is not marked with the other direction.
pub parse_yaml-IsRouted :
    {N : Type 0} (view : NodeView N) (decode : N → Option (RawChannel N))
    (files : Text → Option (RawDesign N)) (fuel : ℕ) (path : Text) (d : Design)
    (direction : Direction)
    → parse_yaml view decode files fuel path ≡ done d
    → All
        (λ ch.
          Distinct (case_events direction ch)
          × ((a ev : Text)
              → (get a (case_events direction ch) ≡ some ev) ↔ (
                  (s : Struct) × (get ev (enabled_map ch) ≡ some s)
                  × (get ev (reverse_marks direction ch) ≡ none)
                  × (struct_protocol_alias s ≡ a))))
        d.channels
parse_yaml-IsRouted view decode files fuel path d direction h =
    let (names, aliases, usable) = parse_yaml-IsSound view decode files fuel path d h in
    All-IsRouted (structs_map d).1 direction d.structs d.channels
      (parse_yaml-mapped view decode files fuel path d h) aliases usable
