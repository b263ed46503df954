-- ===== src/Codegen/Routing.antt =====
-- The labels of the cases that GenerateServer and GenerateClient (eddgen.go) print in Route and in
-- route: the label is the protocol alias, the handler is that of the event. A name gets to the case
-- whose label it is, as `get` finds it.
pub mod Labels
pub mod Agreed
mod Tests
use eddwise.Base.{Text, Dict, map}
use eddwise.Design.{Direction, Struct, DesignChannel}
use eddwise.Design.Names.{struct_protocol_alias}
use eddwise.Codegen.{events}

abbrev pub labelled : Text × Struct → Text × Text
labelled (ev, s) = (struct_protocol_alias s, ev)

unfoldable pub case_events : Direction → DesignChannel → Dict Text Text
unfolding events
case_events direction ch = map labelled (events direction ch)
