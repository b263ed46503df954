-- ===== src/Codegen/Routing/Tests.antt =====
-- The routes of a concrete file.
use eddwise.Base.{Text, text_key, get, Distinct, [], none, some, All, ◌≡◌, ◌↔◌}
use eddwise.Design.{client_to_server, Struct}
use eddwise.Design.Accept.Tests.{game}
use eddwise.Design.Directions.{enabled_map}
use eddwise.Design.Directions.Sendable.{reverse_marks}
use eddwise.Design.Names.{struct_protocol_alias}
use eddwise.Design.Parsing.Tests.{view, decode, files, parse_runs}
use eddwise.Codegen.Routing.{case_events}
use eddwise.Codegen.Routing.Agreed.{parse_yaml-IsRouted}

parse_yaml-IsRouted_example :
    All
      (λ ch.
        Distinct (case_events client_to_server ch)
        × ((a ev : Text)
            → (get a (case_events client_to_server ch) ≡ some ev) ↔ (
                (s : Struct) × (get ev (enabled_map ch) ≡ some s)
                × (get ev (reverse_marks client_to_server ch) ≡ none)
                × (struct_protocol_alias s ≡ a))))
      game.channels
parse_yaml-IsRouted_example =
    parse_yaml-IsRouted view decode files 2 [] game client_to_server parse_runs
