-- ===== src/Design.antt =====
-- internal/eddgen: the design that the generator reads from YAML. Structs and fields (structs.go) are
-- mutual, since a field's type may be a nested struct.
pub mod Accept
pub mod Annotations
pub mod Directions
pub mod Fill
pub mod GoTypes
pub mod JsDef
pub mod JsTypes
pub mod Members
pub mod Merge
pub mod Names
pub mod Nodes
pub mod Parsing
pub mod Sort
pub mod Types
pub mod Validate
use eddwise.Base.{ℕ, Text, Dict, List, Bool}

pub data Direction : Type 0 where
  any server_to_client client_to_server : Direction

pub record Tags : Type 0 where
  pub alias : Text
  pub direction : Direction

-- A reference is a struct's name; the pointer that Validate stores is looked up where it is used.
mutual
  pub data Kind : Type 0 where
    primitive : Text → Kind
    nested : Struct → Kind
    ref : Text → Kind
    map_type : Text → TypeWithAttributes → Kind

  pub data TypeWithAttributes : Type 0 where
    with_array : ℕ → Kind → TypeWithAttributes

  pub data Fields : Type 0 where
    no_fields : Fields
    field : Tags → Text → TypeWithAttributes → Text → Fields → Fields

  pub data Struct : Type 0 where
    struct : Tags → Text → Fields → Text → Struct

-- structs.go: the channel of a design. `Directions` has exactly two keys.
pub record DesignChannel : Type 0 where
  pub name : Text
  pub alias : Text
  pub enabled : List Struct
  pub server_to_client : Dict Text Bool
  pub client_to_server : Dict Text Bool

abbrev pub struct_name : Struct → Text
struct_name (struct tags name fs doc) = name
