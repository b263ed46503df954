-- ===== src/Design/Parsing/Sound.antt =====
-- What a design that ParseYaml reads from one file is like, and what is left for Validate.
use mathlib.Core.List.{map-append}
use eddwise.Base.{
  ℕ, Text, text_key, Dict, get, get-insert, keys, insert, Distinct, List, [], ◌∷◌, ◌++◌, map,
  append-nil, append_assoc, Option, none, some, All, ◌≡◌, refl, sym, ap, ◌∙◌, subst, arith,
  Option-cases, inl, inr,
}
use eddwise.Design.{Struct, struct, struct_name, DesignChannel}
use eddwise.Design.Accept.Conditions.{MarksEnabled}
use eddwise.Design.Directions.{YamlChannel, Listed, parse_channel}
use eddwise.Design.Directions.Known.{All-append, Known, parse_channel-Known, parse_channel-marked}
use eddwise.Design.Directions.OneWay.{Named}
use eddwise.Design.Merge.{Design, map_of_structs, structs_map}
use eddwise.Design.Names.{struct_protocol_alias}
use eddwise.Design.Nodes.{NodeView, MapSlice, MapError, unmarshal_yaml}
use eddwise.Design.Nodes.Distinct.{unmarshal_yaml_lem}
use eddwise.Design.Parsing.{Outcome, failed, ParseError, alias_used, done, parse_struct}
use eddwise.Design.Parsing.Files.{
  RawDesign, RawChannel, ParsedStructs, no_structs, rename, add_struct, listed_channel,
  parse_channels, parse_structs, items_or_error, structs_of, channels_of, parse_raw, parse_yaml,
}
use eddwise.Design.Parsing.Keyed.{
  bind-done, map_of_structs-append, map_of_structs-Named, get-last, Distinct-last,
  Distinct-same_keys,
}

-- The structs under their names, and under their protocol aliases.
abbrev pub by_name : List Struct → Dict Text Struct
by_name = map (λ s. (struct_name s, s))

abbrev pub by_alias : List Struct → Dict Text Struct
by_alias = map (λ s. (struct_protocol_alias s, s))

if_new-done :
    {A : Type 0} (o : Option Struct) (e : ParseError) (next : Outcome A) (b : A)
    → elim o [ none ↦ next | some old ↦ failed e ] ≡ done b
    → (o ≡ none) × (next ≡ done b)
if_new-done none e next b h = (refl, h)
if_new-done (some old) e next b h = cc

record IsGathered (st : ParsedStructs) : Type 0 where
  mapped : st.struct_map ≡ map_of_structs st.structs []
  aliased : (a : Text) → get a st.struct_alias_map ≡ none → get a (by_alias st.structs) ≡ none
  distinct : Distinct (by_alias st.structs)

add_struct-IsGathered :
    (s : Struct) (st : ParsedStructs)
    → get (struct_protocol_alias s) st.struct_alias_map ≡ none
    → IsGathered st
    → IsGathered (add_struct s st)
unfolding add_struct
add_struct-IsGathered s st new v =
    let last : by_alias (st.structs ++ s ∷ []) ≡ by_alias st.structs ++ by_alias (s ∷ []) =
      map-append (λ t. (struct_protocol_alias t, t)) st.structs (s ∷ []) in
    record {
      mapped = ap (insert (struct_name s) s) v.mapped ∙ sym (map_of_structs-append st.structs s []);
      aliased = λ a h.
          subst (λ m. get a m ≡ none) (sym last)
            (get-last a (struct_protocol_alias s) s (by_alias st.structs)
              (v.aliased a
                (ground (arith, get-insert (struct_protocol_alias s) a s st.struct_alias_map)))
              (λ same.
                ground (arith, get-insert (struct_protocol_alias s) a s st.struct_alias_map)));
      distinct = subst Distinct (sym last) (
          Distinct-last (struct_protocol_alias s) s (by_alias st.structs) v.distinct
            (v.aliased (struct_protocol_alias s) new));
    }

rename-name : (key : Text) (s : Struct) → struct_name (rename key s) ≡ key
rename-name key (struct tags name fs doc) = refl

module _ {N : Type 0} (view : NodeView N) (fuel : ℕ) where
  parse_structs-IsGathered :
      (items : MapSlice N) (st st' : ParsedStructs)
      → parse_structs view fuel items st ≡ done st'
      → IsGathered st
      → IsGathered st' × (map struct_name st'.structs ≡ map struct_name st.structs ++ keys items)
  unfolding parse_structs
  parse_structs-IsGathered [] st st' h v =
      let same : st ≡ st' = cc in
      (
        subst IsGathered same v,
        ap (λ (x : ParsedStructs). map struct_name x.structs) (sym same)
            ∙ sym (append-nil (map struct_name st.structs)),
      )
  parse_structs-IsGathered ((key, node) ∷ items) st st' h v =
      let (s, parsed, rest) = bind-done (parse_struct view fuel node) _ st' h in
      let t = rename key s in
      let (new, later) =
        if_new-done (get (struct_protocol_alias t) st.struct_alias_map)
          (alias_used (struct_protocol_alias t)) (parse_structs view fuel items (add_struct t st))
          st' rest in
      let (gathered, names) =
        parse_structs-IsGathered items (add_struct t st) st' later
          (add_struct-IsGathered t st new v) in
      (
        gathered,
        names
            ∙ ap (λ xs. xs ++ keys items) (map-append struct_name st.structs (t ∷ []))
            ∙ ap (λ x. (map struct_name st.structs ++ x ∷ []) ++ keys items) (rename-name key s)
            ∙ append_assoc (map struct_name st.structs) (key ∷ []) (keys items),
      )

-- What Validate checks of a channel before it looks at the structs.
abbrev pub IsUsable : Dict Text Struct → DesignChannel → Type 0
IsUsable m ch = MarksEnabled ch × Known m ch

listed_channel-done :
    (name : Text) (r : Listed) (ch : DesignChannel) → listed_channel name r ≡ done ch → r.1 ≡ ch
listed_channel-done name (u, c, some e) ch h = cc
listed_channel-done name (u, c, none) ch h = cc

parse_channels-IsUsable :
    (m : Dict Text Struct) (items : Dict Text YamlChannel) (chs chs' : List DesignChannel)
    → Named m
    → parse_channels m items chs ≡ done chs'
    → All (IsUsable m) chs
    → All (IsUsable m) chs'
unfolding parse_channels
parse_channels-IsUsable m [] chs chs' names h v =
    let same : chs ≡ chs' = cc in subst (All (IsUsable m)) same v
parse_channels-IsUsable m ((name, yaml) ∷ items) chs chs' names h v =
    let (ch, listed, rest) = bind-done (listed_channel name (parse_channel m name yaml)) _ chs' h in
    let same = listed_channel-done name (parse_channel m name yaml) ch listed in
    let usable : IsUsable m (parse_channel m name yaml).1 = (
      (
        λ t mem. parse_channel-marked m names name yaml t (inl mem),
        λ t mem. parse_channel-marked m names name yaml t (inr mem),
      ),
      parse_channel-Known m names name yaml,
    ) in
    parse_channels-IsUsable m items (chs ++ ch ∷ []) chs' names rest
      (All-append (IsUsable m) chs (ch ∷ []) v (subst (IsUsable m) same usable, tt))

-- No two structs share a name or a protocol alias, and each channel is fit for the first checks of
-- Validate.
abbrev pub IsSound : Design → Type 0
IsSound d =
    Distinct (by_name d.structs)
    × Distinct (by_alias d.structs)
    × All (IsUsable (structs_map d).1) d.channels

abbrev assembled : Text → ParsedStructs → List DesignChannel → Design
assembled namespace st chs = record {
  name = namespace;
  channels = chs;
  structs = st.structs;
  struct_map = none;
}

keys-by_name : (ss : List Struct) → keys (by_name ss) ≡ map struct_name ss
keys-by_name [] = refl
keys-by_name (s ∷ ss) = ap (λ xs. struct_name s ∷ xs) (keys-by_name ss)

done-same : {A : Type 0} (a b : A) → done a ≡ done b → a ≡ b
done-same a b h = cc

module _ {N : Type 0} (view : NodeView N) (decode : N → Option (RawChannel N)) where
  items_or_error-done :
      (r : MapSlice N × Option MapError) (items : MapSlice N)
      → (r.1 ≡ none → Distinct r.0)
      → items_or_error view decode r ≡ done items
      → Distinct items
  items_or_error-done (xs, some e) items d h = cc
  items_or_error-done (xs, none) items d h = subst Distinct (done-same xs items h) (d refl)

  structs_of-Distinct :
      (o : Option N) (items : MapSlice N) → structs_of view decode o ≡ done items → Distinct items
  structs_of-Distinct none items h = cc
  structs_of-Distinct (some node) items h =
      items_or_error-done (unmarshal_yaml view node) items
        (λ fine. (unmarshal_yaml_lem view node fine).0) h

  assembled-IsSound :
      (fuel : ℕ) (namespace : Text) (items : MapSlice N) (channels : Dict Text YamlChannel)
      (st : ParsedStructs) (chs : List DesignChannel)
      → Distinct items
      → parse_structs view fuel items no_structs ≡ done st
      → parse_channels st.struct_map channels [] ≡ done chs
      → IsSound (assembled namespace st chs)
  unfolding structs_map map_of_structs get
  assembled-IsSound fuel namespace items channels st chs d h k =
      let start : IsGathered no_structs = record {
        mapped = refl;
        aliased = λ a e. refl;
        distinct = tt;
      } in
      let (v, names) = parse_structs-IsGathered view fuel items no_structs st h start in
      let named : Named st.struct_map =
        subst Named (sym v.mapped) (map_of_structs-Named st.structs [] (λ j s e. cc)) in
      (
        Distinct-same_keys items (by_name st.structs) (sym names ∙ sym (keys-by_name st.structs)) d,
        v.distinct,
        subst (λ m. All (IsUsable m) chs) v.mapped
            (parse_channels-IsUsable st.struct_map channels [] chs named k tt),
      )

  parse_raw-IsSound :
      (fuel : ℕ) (raw : RawDesign N) (d : Design)
      → parse_raw view decode fuel raw ≡ done d
      → IsSound d
  unfolding parse_raw
  parse_raw-IsSound fuel raw d h =
      let (channels, p, h1) = bind-done (channels_of view decode raw.channels_node) _ d h in
      let (items, q, h2) = bind-done (structs_of view decode raw.structs_node) _ d h1 in
      let (st, r, h3) = bind-done (parse_structs view fuel items no_structs) _ d h2 in
      let (chs, s, h4) = bind-done (parse_channels st.struct_map channels []) _ d h3 in
      subst IsSound (done-same (assembled raw.namespace st chs) d h4) (
        assembled-IsSound fuel raw.namespace items channels st chs
          (structs_of-Distinct raw.structs_node items q) r s)

  -- In a design that is read from one file no two structs share a name or a protocol alias, and each
  -- channel enables structs of the design only and marks events only that it enables.
  pub parse_yaml-IsSound :
      (files : Text → Option (RawDesign N)) (fuel : ℕ) (path : Text) (d : Design)
      → parse_yaml view decode files fuel path ≡ done d
      → Distinct (map (λ s. (struct_name s, s)) d.structs)
        × Distinct (map (λ s. (struct_protocol_alias s, s)) d.structs)
        × All (λ ch. MarksEnabled ch × Known (structs_map d).1 ch) d.channels
  unfolding parse_yaml
  parse_yaml-IsSound files fuel path d h = elim (Option-cases (files path)) [
    | inl e ↦ absurd (ground arith)
    | inr (raw, e) ↦ parse_raw-IsSound fuel raw d (ground arith)
  ]

  parse_raw-unmapped :
      (fuel : ℕ) (raw : RawDesign N) (d : Design)
      → parse_raw view decode fuel raw ≡ done d
      → d.struct_map ≡ none
  unfolding parse_raw
  parse_raw-unmapped fuel raw d h =
      let (channels, p, h1) = bind-done (channels_of view decode raw.channels_node) _ d h in
      let (items, q, h2) = bind-done (structs_of view decode raw.structs_node) _ d h1 in
      let (st, r, h3) = bind-done (parse_structs view fuel items no_structs) _ d h2 in
      let (chs, s, h4) = bind-done (parse_channels st.struct_map channels []) _ d h3 in
      subst (λ (x : Design). x.struct_map ≡ none) (done-same (assembled raw.namespace st chs) d h4)
        refl

  -- The map of a design that was just read is made from its structs.
  pub parse_yaml-mapped :
      (files : Text → Option (RawDesign N)) (fuel : ℕ) (path : Text) (d : Design)
      → parse_yaml view decode files fuel path ≡ done d
      → (structs_map d).1 ≡ map_of_structs d.structs []
  unfolding parse_yaml structs_map
  parse_yaml-mapped files fuel path d h = elim (Option-cases (files path)) [
    | inl e ↦ absurd (ground arith)
    | inr (raw, e) ↦ let new = parse_raw-unmapped fuel raw d (ground arith) in ground arith
  ]
