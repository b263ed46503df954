-- ===== src/Design/Parsing/Files.antt =====
-- ParseYaml and the UnmarshalYAML methods of a design's channels (eddgen_yml.go): a file as a design.
-- The package yaml calls UnmarshalYAML of the values under "structs" and "channels"; of a file it is
-- a parameter that gives the namespace and these two nodes, and of a channel's node one that gives the
-- nodes of its three lists.
use eddwise.Base.{
  ℕ, Text, text_key, Dict, get, insert, List, [], ◌∷◌, ◌++◌, map, Option, none, some, Bool, true,
  if◌then◌else◌, ite, length, ◌%◌, ℕ_discrete,
}
use eddwise.Design.{Struct, struct, struct_name, DesignChannel}
use eddwise.Design.Accept.{validate}
use eddwise.Design.Annotations.{process_tags}
use eddwise.Design.Directions.{YamlChannelEvent, YamlChannel, Listed, parse_channel}
use eddwise.Design.Merge.{Design, MergeError, merge}
use eddwise.Design.Names.{struct_protocol_alias}
use eddwise.Design.Nodes.{
  NodeView, MapSlice, MapError, not_a_map, odd_content, key_not_scalar, duplicate_key,
  unmarshal_yaml,
}
use eddwise.Design.Validate.{ValidateError}
use eddwise.Design.Parsing.{
  Outcome, no_fuel, panicked, failed, merge_error, validate_error, no_files, done, ◌>>>◌, map_error,
  undecodable, unreadable, alias_used, event_error, parse_struct,
}

-- What the package yaml finds in a file: the nodes under the keys that stand there.
pub record RawDesign (N : Type 0) : Type 0 where
  pub namespace : Text
  pub structs_node : Option N
  pub channels_node : Option N

pub record RawChannel (N : Type 0) : Type 0 where
  pub dual_nodes : List N
  pub server_nodes : List N
  pub client_nodes : List N

-- The variables of ParseYaml while it reads the structs.
pub record ParsedStructs : Type 0 where
  pub struct_alias_map : Dict Text Struct
  pub struct_map : Dict Text Struct
  pub structs : List Struct

abbrev pub no_structs : ParsedStructs
no_structs = record { struct_alias_map = []; struct_map = []; structs = [] }

-- `st.Name = stYaml.Key`.
abbrev pub rename : Text → Struct → Struct
rename key (struct tags name fs doc) = struct tags key fs doc

unfoldable pub add_struct : Struct → ParsedStructs → ParsedStructs
add_struct s st = record {
  struct_alias_map = insert (struct_protocol_alias s) s st.struct_alias_map;
  struct_map = insert (struct_name s) s st.struct_map;
  structs = st.structs ++ s ∷ [];
}

-- The loop of ParseYaml over the channels.
abbrev pub listed_channel : Text → Listed → Outcome DesignChannel
listed_channel name (u, ch, some e) = failed (event_error e name)
listed_channel name (u, ch, none) = done ch

unfoldable pub parse_channels :
    Dict Text Struct → Dict Text YamlChannel → List DesignChannel → Outcome (List DesignChannel)
unfolding parse_channel
parse_channels m [] chs = done chs
parse_channels m ((name, yaml) ∷ items) chs =
    listed_channel name (parse_channel m name yaml)
    >>> (λ ch. parse_channels m items (chs ++ ch ∷ []))

abbrev pub merged : Design × Option MergeError → Outcome Design
merged (d, some e) = failed (merge_error e)
merged (d, none) = done d

abbrev pub judged : Option (Design × Option ValidateError) → Outcome Design
judged none = no_fuel
judged (some (d, some e)) = failed (validate_error e)
judged (some (d, none)) = done d

module _ {N : Type 0} (view : NodeView N) where
  -- The loop of ParseYaml over the structs.
  unfoldable pub parse_structs : ℕ → MapSlice N → ParsedStructs → Outcome ParsedStructs
  unfolding parse_struct add_struct struct_protocol_alias
  parse_structs fuel [] st = done st
  parse_structs fuel ((key, node) ∷ items) st = parse_struct view fuel node >>> (λ s.
      elim (get (struct_protocol_alias (rename key s)) st.struct_alias_map) [
        | some _ ↦ failed (alias_used (struct_protocol_alias (rename key s)))
        | none ↦ parse_structs fuel items (add_struct (rename key s) st)
      ])

  -- YamlChannelEvent.UnmarshalYAML.
  unfoldable pub yaml_channel_event : N → YamlChannelEvent
  unfolding process_tags
  yaml_channel_event node = record { tags = process_tags (view.tag node); event = view.value node }

  module _ (decode : N → Option (RawChannel N)) where
    abbrev pub channel_of_raw : N → RawChannel N → YamlChannel
    channel_of_raw node raw = record {
      tags = process_tags (view.tag node);
      dual = map yaml_channel_event raw.dual_nodes;
      server = map yaml_channel_event raw.server_nodes;
      client = map yaml_channel_event raw.client_nodes;
    }

    -- YamlChannel.UnmarshalYAML.
    unfoldable pub yaml_channel : N → Outcome YamlChannel
    unfolding yaml_channel_event
    yaml_channel node = elim (decode node) [
      | none ↦ failed undecodable
      | some raw ↦ done (channel_of_raw node raw)
    ]

    -- The loop of MapSliceType.UnmarshalYAML, over the keys seen so far.
    unfoldable pub typed_items_of : List N → Dict Text Bool → Outcome (Dict Text YamlChannel)
    unfolding yaml_channel
    typed_items_of [] unique = done []
    typed_items_of (k ∷ []) unique = done []
    typed_items_of (k ∷ v ∷ rest) unique =
        let more = typed_items_of rest (insert (view.value k) true unique) in
        if view.is_scalar k
        then elim (get (view.value k) unique) [
          | some _ ↦ failed (map_error (duplicate_key (view.line k)))
          | none ↦ yaml_channel v >>> (λ ch. more >>> (λ items. done ((view.value k, ch) ∷ items)))
        ]
        else failed (map_error (key_not_scalar (view.line k)))

    -- MapSliceType.UnmarshalYAML, of channels.
    unfoldable pub unmarshal_channels : N → Outcome (Dict Text YamlChannel)
    unfolding typed_items_of
    unmarshal_channels node =
        if view.is_mapping node
        then ite (ℕ_discrete (length (view.content node) % 2) 0)
            (typed_items_of (view.content node) [])
            (failed (map_error (odd_content (view.line node))))
        else failed (map_error (not_a_map (view.line node)))

    -- A file without channels has none; the code reads the items of a nil pointer where there are no structs.
    abbrev pub channels_of : Option N → Outcome (Dict Text YamlChannel)
    channels_of none = done []
    channels_of (some node) = unmarshal_channels node

    abbrev pub items_or_error : MapSlice N × Option MapError → Outcome (MapSlice N)
    items_or_error (items, some e) = failed (map_error e)
    items_or_error (items, none) = done items

    abbrev pub structs_of : Option N → Outcome (MapSlice N)
    structs_of none = panicked
    structs_of (some node) = items_or_error (unmarshal_yaml view node)

    unfoldable pub parse_raw : ℕ → RawDesign N → Outcome Design
    unfolding unmarshal_channels unmarshal_yaml parse_structs parse_channels
    parse_raw fuel raw = channels_of raw.channels_node >>> (λ channels.
        structs_of raw.structs_node >>> (λ items. parse_structs fuel items no_structs >>> (λ st.
          parse_channels st.struct_map channels [] >>> (λ chs. done (record {
            name = raw.namespace;
            channels = chs;
            structs = st.structs;
            struct_map = none;
          })))))

    -- Design.ParseYaml of a new design, by the contents of files.
    unfoldable pub parse_yaml : (Text → Option (RawDesign N)) → ℕ → Text → Outcome Design
    unfolding parse_raw
    parse_yaml files fuel path = elim (files path) [
      | none ↦ failed unreadable
      | some raw ↦ parse_raw fuel raw
    ]

    -- The loop of ParseYamls over the files after the first one.
    unfoldable pub parse_rest :
        (Text → Option (RawDesign N)) → ℕ → Design → List Text → Outcome Design
    unfolding parse_yaml merge
    parse_rest files fuel d [] = done d
    parse_rest files fuel d (path ∷ paths) =
        parse_yaml files fuel path
        >>> (λ d2. merged (merge d d2) >>> (λ both. parse_rest files fuel both paths))

    -- ParseYamls.
    unfoldable pub parse_yamls : (Text → Option (RawDesign N)) → ℕ → List Text → Outcome Design
    unfolding parse_rest
    parse_yamls files fuel [] = failed no_files
    parse_yamls files fuel (path ∷ paths) =
        parse_yaml files fuel path >>> (λ d. parse_rest files fuel d paths)

    -- ParseAndValidateYamls, with the fuel of both parts.
    unfoldable pub parse_and_validate_yamls :
        ((A : Type 0) → List A → List A)
        → (Text → Option (RawDesign N))
        → ℕ
        → ℕ
        → List Text
        → Outcome Design
    unfolding parse_yamls validate
    parse_and_validate_yamls order files fuel depth paths =
        parse_yamls files fuel paths >>> (λ d. judged (validate order depth d))
