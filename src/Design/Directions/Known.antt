-- ===== src/Design/Directions/Known.antt =====
-- Every event that a channel enables is the struct of its name in the map that it was read with.
use mathlib.Core.List.{Mem, not-mem-nil, mem-cons}
use mathlib.Core.Logic.Or
use eddwise.Base.{
  Text, text_key, Dict, get, keys, insert, List, [], ◌∷◌, ◌++◌, none, some, Bool, true, ◌≡◌, ◌≢◌,
  sym, subst, ◌⊎◌, inl, inr, arith, Option-cases, All,
}
use eddwise.Design.{
  Direction, any, server_to_client, client_to_server, Struct, DesignChannel, struct_name,
}
use eddwise.Design.Directions.{
  YamlChannelEvent, YamlChannel, Listed, mark, add_events, then_events, empty_channel,
  own_direction, to_client, to_server, parse_channel, enabled_map,
}
use eddwise.Design.Directions.OneWay.{Named, parse_channel-one_way}

abbrev pub Known : Dict Text Struct → DesignChannel → Type 0
Known m ch = All (λ s. get (struct_name s) m ≡ some s) ch.enabled

pub All-append :
    {A : Type 0} (P : A → Type 0) (xs ys : List A) → All P xs → All P ys → All P (xs ++ ys)
All-append P [] ys h k = k
All-append P (x ∷ xs) ys h k = (h.0, All-append P xs ys h.1 k)

mark-Known :
    (m : Dict Text Struct) (way : Direction) (k : Text) (ch : DesignChannel)
    → Known m ch
    → Known m (mark way k ch)
unfolding mark
mark-Known m any k ch h = h
mark-Known m server_to_client k ch h = h
mark-Known m client_to_server k ch h = h

module _ (m : Dict Text Struct) (names : Named m) where
  add_events-Known :
      (way : YamlChannelEvent → Direction) (nodes : List YamlChannelEvent) (u : Dict Text Bool)
      (ch : DesignChannel)
      → Known m ch
      → Known m (add_events way m nodes u ch).1
  unfolding add_events
  add_events-Known way [] u ch h = h
  add_events-Known way (node ∷ nodes) u ch h = elim (Option-cases (get node.event m)) [
    | inl e ↦ rw (e, add_events) h
    | inr (s, e) ↦ elim (Option-cases (get node.event u)) [
      | inr (b, f) ↦ rw (e, f, add_events) h
      | inl f ↦
          let here : get (struct_name s) m ≡ some s =
            subst (λ k. get k m ≡ some s) (sym (names node.event s e)) e in
          rw (e, f, add_events)
            (add_events-Known way nodes (insert node.event true u)
              (mark (way node) node.event (record ch { enabled = ch.enabled ++ s ∷ [] }))
              (mark-Known m (way node) node.event (record ch { enabled = ch.enabled ++ s ∷ [] })
                (All-append (λ s. get (struct_name s) m ≡ some s) ch.enabled (s ∷ []) h
                  (here, tt))))
    ]
  ]

  then_events-Known :
      (way : YamlChannelEvent → Direction) (nodes : List YamlChannelEvent) (r : Listed)
      → Known m r.1
      → Known m (then_events way m nodes r).1
  unfolding then_events
  then_events-Known way nodes (u, ch, some e) h = h
  then_events-Known way nodes (u, ch, none) h = add_events-Known way nodes u ch h

  pub parse_channel-Known :
      (name : Text) (yaml : YamlChannel) → Known m (parse_channel m name yaml).1
  unfolding parse_channel
  parse_channel-Known name yaml =
      let first = add_events own_direction m yaml.dual [] (empty_channel name yaml.tags.alias) in
      then_events-Known to_server yaml.client (then_events to_client m yaml.server first) (
        then_events-Known to_client yaml.server first
          (add_events-Known own_direction yaml.dual [] (empty_channel name yaml.tags.alias) tt))

  mem-keys : (t : Text) (marks : Dict Text Bool) → Mem t (keys marks) → get t marks ≢ none
  unfolding get
  mem-keys t [] h e = not-mem-nil h
  mem-keys t ((k, b) ∷ marks) h e =
      Or.elim (hlevel) (mem-cons.0 h) (λ same. ground arith)
        (λ later. mem-keys t marks later (ground arith))

  -- The keys of the marks are enabled, as MarksEnabled of Design.Accept.Conditions says.
  pub parse_channel-marked :
      (name : Text) (yaml : YamlChannel) (t : Text)
      → let ch = (parse_channel m name yaml).1 in
        (Mem t (keys ch.server_to_client) ⊎ Mem t (keys ch.client_to_server))
        → get t (enabled_map ch) ≢ none
  parse_channel-marked name yaml t h =
      let ch = (parse_channel m name yaml).1 in
      elim (parse_channel-one_way m name yaml t names).1 [
        | inl e ↦ e
        | inr (sent, received) ↦ elim h [
          | inl s ↦ absurd (mem-keys t ch.server_to_client s sent)
          | inr r ↦ absurd (mem-keys t ch.client_to_server r received)
        ]
      ]
