-- ===== src/Codegen.antt =====
-- internal/eddgen/eddgen.go: the code that the generator prints for a design. Each template is a function
-- that gives its text; the functions follow the ranges of the template.
pub mod Channel
pub mod Server
pub mod ServerTest
pub mod Events
pub mod Client
pub mod Skeleton
pub mod Page
pub mod Renames
pub mod Routing
pub mod Served
mod Unordered
mod Tests
use eddwise.Base.{Text, List}
use eddwise.Design.{Direction, Struct, DesignChannel}
use eddwise.Design.Directions.{get_direction_events}
use eddwise.Design.Fill.{in_key_order}
use eddwise.Design.Names.{alias_or}

-- The range over GetDirectionEvents.
unfoldable pub events : Direction → DesignChannel → List (Text × Struct)
unfolding in_key_order get_direction_events
events direction ch = in_key_order (get_direction_events direction ch)

-- Channel.ProtocolAlias.
unfoldable pub channel_alias : DesignChannel → Text
unfolding alias_or
channel_alias ch = alias_or ch.alias ch.name
