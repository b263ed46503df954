-- ===== src/Design/Directions/OneWay.antt =====
-- Every event that a channel enables can be sent in one direction at least.
use eddwise.Base.{
  Text, Text-discrete, text_key, Dict, get, insert, delete, get-insert, get-delete, List, [], ◌∷◌,
  ◌++◌, none, some, Bool, true, ◌≡◌, ◌≢◌, ◌⊎◌, inl, inr, refl, arith, Option-cases,
}
use eddwise.Design.{
  Direction, any, server_to_client, client_to_server, Struct, DesignChannel, struct_name,
}
use eddwise.Design.Directions.{
  YamlChannelEvent, YamlChannel, Listed, mark, add_events, then_events, empty_channel,
  own_direction, to_client, to_server, parse_channel, enabled_each, enabled_map, delete_each,
  get_direction_events,
}

-- A mark stands on listed events only, a listed event is enabled, and no event has both marks.
pub record IsOneWay (u : Dict Text Bool) (ch : DesignChannel) : Type 0 where
  pub sent_listed : (k : Text) → get k u ≡ none → get k ch.server_to_client ≡ none
  pub received_listed : (k : Text) → get k u ≡ none → get k ch.client_to_server ≡ none
  pub listed_enabled : (k : Text) → get k (enabled_map ch) ≡ none → get k u ≡ none
  pub one_way : (k : Text) → (get k ch.server_to_client ≡ none) ⊎ (get k ch.client_to_server ≡ none)

-- The map of a file's structs holds each under its name.
abbrev pub Named : Dict Text Struct → Type 0
Named m = (k : Text) (s : Struct) → get k m ≡ some s → struct_name s ≡ k

enabled_each-append :
    (ss : List Struct) (s : Struct) (m : Dict Text Struct)
    → enabled_each (ss ++ s ∷ []) m ≡ insert (struct_name s) s (enabled_each ss m)
unfolding enabled_each
enabled_each-append [] s m = refl
enabled_each-append (t ∷ ss) s m = enabled_each-append ss s (insert (struct_name t) t m)

get-delete_each_absent :
    (k : Text) (marks : Dict Text Bool) (m : Dict Text Struct)
    → get k marks ≡ none
    → get k (delete_each marks m) ≡ get k m
unfolding get delete_each
get-delete_each_absent k [] m h = refl
get-delete_each_absent k ((j, b) ∷ marks) m h =
    ground (arith, get-delete_each_absent k marks (delete j m), get-delete j k m)

add_event-IsOneWay :
    (way : Direction) (k : Text) (s : Struct) (u : Dict Text Bool) (ch : DesignChannel)
    → IsOneWay u ch
    → get k u ≡ none
    → struct_name s ≡ k
    → IsOneWay (insert k true u) (mark way k (record ch { enabled = ch.enabled ++ s ∷ [] }))
unfolding mark enabled_map
add_event-IsOneWay any k s u ch v new named = record {
  sent_listed = λ j h. ground (arith, get-insert k j true u, v.sent_listed j);
  received_listed = λ j h. ground (arith, get-insert k j true u, v.received_listed j);
  listed_enabled = λ j h. ground (
    arith,
    named,
    enabled_each-append ch.enabled s [],
    get-insert (struct_name s) j s (enabled_each ch.enabled []),
    get-insert k j true u,
    v.listed_enabled j,
  );
  one_way = v.one_way;
}
add_event-IsOneWay server_to_client k s u ch v new named = record {
  sent_listed = λ j h.
      ground
        (arith, get-insert k j true u, get-insert k j true ch.server_to_client, v.sent_listed j);
  received_listed = λ j h. ground (arith, get-insert k j true u, v.received_listed j);
  listed_enabled = λ j h. ground (
    arith,
    named,
    enabled_each-append ch.enabled s [],
    get-insert (struct_name s) j s (enabled_each ch.enabled []),
    get-insert k j true u,
    v.listed_enabled j,
  );
  one_way = λ j. elim (Text-discrete k j) [
    | yes p ↦ inr (ground (arith, v.received_listed k))
    | no p ↦ elim (v.one_way j) [
      | inl e ↦ inl (ground (arith, get-insert k j true ch.server_to_client))
      | inr e ↦ inr e
    ]
  ];
}
add_event-IsOneWay client_to_server k s u ch v new named = record {
  sent_listed = λ j h. ground (arith, get-insert k j true u, v.sent_listed j);
  received_listed = λ j h.
      ground (
        arith,
        get-insert k j true u,
        get-insert k j true ch.client_to_server,
        v.received_listed j,
      );
  listed_enabled = λ j h. ground (
    arith,
    named,
    enabled_each-append ch.enabled s [],
    get-insert (struct_name s) j s (enabled_each ch.enabled []),
    get-insert k j true u,
    v.listed_enabled j,
  );
  one_way = λ j. elim (Text-discrete k j) [
    | yes p ↦ inl (ground (arith, v.sent_listed k))
    | no p ↦ elim (v.one_way j) [
      | inl e ↦ inl e
      | inr e ↦ inr (ground (arith, get-insert k j true ch.client_to_server))
    ]
  ];
}

-- Of a result, whatever its error.
abbrev Fine : Listed → Type 0
Fine r = IsOneWay r.0 r.1

add_events-IsOneWay :
    (way : YamlChannelEvent → Direction) (m : Dict Text Struct) (nodes : List YamlChannelEvent)
    (u : Dict Text Bool) (ch : DesignChannel)
    → Named m
    → IsOneWay u ch
    → Fine (add_events way m nodes u ch)
unfolding add_events
add_events-IsOneWay way m [] u ch names v = v
add_events-IsOneWay way m (node ∷ nodes) u ch names v = elim (Option-cases (get node.event m)) [
  | inl e ↦ rw (e, add_events) v
  | inr (s, e) ↦ elim (Option-cases (get node.event u)) [
    | inr (b, f) ↦ rw (e, f, add_events) v
    | inl f ↦
        rw (e, f, add_events)
          (add_events-IsOneWay way m nodes (insert node.event true u)
            (mark (way node) node.event (record ch { enabled = ch.enabled ++ s ∷ [] })) names
            (add_event-IsOneWay (way node) node.event s u ch v f (names node.event s e)))
  ]
]

then_events-IsOneWay :
    (way : YamlChannelEvent → Direction) (m : Dict Text Struct) (nodes : List YamlChannelEvent)
    (r : Listed)
    → Named m
    → Fine r
    → Fine (then_events way m nodes r)
unfolding then_events
then_events-IsOneWay way m nodes (u, ch, some e) names v = v
then_events-IsOneWay way m nodes (u, ch, none) names v =
    add_events-IsOneWay way m nodes u ch names v

parse_channel-IsOneWay :
    (m : Dict Text Struct) (name : Text) (yaml : YamlChannel)
    → Named m
    → Fine (parse_channel m name yaml)
unfolding parse_channel get enabled_map
parse_channel-IsOneWay m name yaml names =
    let start : IsOneWay [] (empty_channel name yaml.tags.alias) = record {
      sent_listed = λ k h. refl;
      received_listed = λ k h. refl;
      listed_enabled = λ k h. refl;
      one_way = λ k. inl refl;
    } in
    let first = add_events own_direction m yaml.dual [] (empty_channel name yaml.tags.alias) in
    let second = then_events to_client m yaml.server first in
    then_events-IsOneWay to_server m yaml.client second names (
      then_events-IsOneWay to_client m yaml.server first names (
        add_events-IsOneWay own_direction m yaml.dual [] (empty_channel name yaml.tags.alias) names
          start))

-- If the map of structs holds each struct under its name, each event that a parsed channel enables can
-- be sent in one direction at least, and an event that is marked with a direction is enabled, as
-- Validate wants it.
pub parse_channel-one_way :
    (m : Dict Text Struct) (name : Text) (yaml : YamlChannel) (k : Text)
    → Named m
    → let ch = (parse_channel m name yaml).1 in
      ((get k (get_direction_events server_to_client ch) ≡ get k (enabled_map ch))
        ⊎ (get k (get_direction_events client_to_server ch) ≡ get k (enabled_map ch)))
      × ((get k (enabled_map ch) ≢ none)
          ⊎ ((get k ch.server_to_client ≡ none) × (get k ch.client_to_server ≡ none)))
unfolding get_direction_events
parse_channel-one_way m name yaml k names =
    let v = parse_channel-IsOneWay m name yaml names in
    let ch = (parse_channel m name yaml).1 in
    (
      elim (v.one_way k) [
        | inl e ↦ inr (get-delete_each_absent k ch.server_to_client (enabled_map ch) e)
        | inr e ↦ inl (get-delete_each_absent k ch.client_to_server (enabled_map ch) e)
      ],
      elim (Option-cases (get k (enabled_map ch))) [
        | inl e ↦
            let unlisted = v.listed_enabled k e in
            inr (v.sent_listed k unlisted, v.received_listed k unlisted)
        | inr (s, e) ↦ inl (λ h. ground arith)
      ],
    )
